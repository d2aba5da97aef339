-- ===== src/Xos/Kernel/User.antt =====
-- The pages of `start_user_program` of xos/src/kernel.c.
use os_workshop.Base.{
  ℕ, ◌+◌, ◌-◌, ◌*◌, ◌/◌, ◌%◌, ◌^◌, ◌≤◌, ◌<◌, ◌≡◌, false, Option, some, arith, inl, inr, sym, ◌∙◌,
  ap, refl,
}
use mathlib.Core.Path.{subst}
use os_workshop.Xos.Vmm.{Vmm, kva_offset, is_valid, kpage_alloc_z}
use os_workshop.Xos.Vmm.Sv32.{IsVacant, dir_entry, translate, IsSpace}
use os_workshop.Xos.Vmm.Alloc.{taken, kpage_alloc_z-taken}
use os_workshop.Xos.Vmm.Fresh.{
  Guarded, Guarded-kept, TablesFrom, TablesFrom-trans, space-IsPool, taken_dir, taken-IsSpace,
  translate-taken,
}
use os_workshop.Xos.Kernel.{
  ◌>>=◌, map_new_page, map_framebuffer, framebuffer_base, framebuffer_size, user_rw, user_rwx,
  user_pages,
}
use os_workshop.Xos.Kernel.Range.{AddsRange, map_framebuffer_lem}
use os_workshop.Xos.Kernel.Overlay.{overlay, overlay_lem, AddsRange-overlay}
use os_workshop.Xos.Kernel.NewPage.{AddsNewPage, map_new_page_lem}

-- The four pages of the program, the page of its stack, and the framebuffer.
abbrev pub user_map :
    (text0 text1 text2 text3 stack : ℕ) → (ℕ → Option (ℕ × ℕ)) → ℕ → Option (ℕ × ℕ)
user_map text0 text1 text2 text3 stack below =
    overlay 0x20000000 framebuffer_base framebuffer_size user_rw (
      overlay 0x103FF000 stack 4096 user_rw (
        overlay 0x10003000 text3 4096 user_rwx (
          overlay 0x10002000 text2 4096 user_rwx (
            overlay 0x10001000 text1 4096 user_rwx
              (overlay 0x10000000 text0 4096 user_rwx below)))))

-- What `start_user_program` makes of an address space: five pages from the free memory, each below
-- the one before, in none of which a table lies, the framebuffer, and a page that is not mapped, at
-- `stack_kva` for the kernel.
pub record UserSpace (hi root stack_kva : ℕ) (s s' : Vmm) : Type 0 where
  pub space : IsSpace hi root s'
  pub text0 : ℕ
  pub text1 : ℕ
  pub text2 : ℕ
  pub text3 : ℕ
  pub stack : ℕ
  pub falling :
      (text0 + 4096 ≤ s.pa_top)
      × (text1 + 4096 ≤ text0)
      × (text2 + 4096 ≤ text1)
      × (text3 + 4096 ≤ text2)
      × (stack + 4096 ≤ text3)
      × (s'.pa_top + 4096 ≤ stack)
      × (s.pa_bottom ≤ s'.pa_top)
      × (s.pa_top ≤ s'.pa_top + 161 * 4096)
  pub aligned :
      (text0 % 4096 ≡ 0)
      × (text1 % 4096 ≡ 0)
      × (text2 % 4096 ≡ 0)
      × (text3 % 4096 ≡ 0)
      × (stack % 4096 ≡ 0)
  pub guarded :
      Guarded s'.words root text0
      × Guarded s'.words root text1
      × Guarded s'.words root text2
      × Guarded s'.words root text3
      × Guarded s'.words root stack
  pub translation :
      (va : ℕ)
      → va < 2 ^ 32
      → translate s'.words root va
        ≡ user_map text0 text1 text2 text3 stack (translate s.words root) va
  pub kernel_stack : stack_kva ≡ s'.pa_top + kva_offset

module _ (hi root : ℕ) (s : Vmm) (sp : IsSpace hi root s)
    (free : is_valid (dir_entry s.words root 64) ≡ false)
    (free' : is_valid (dir_entry s.words root 128) ≡ false)
    (left : s.pa_bottom + 164 * 4096 ≤ s.pa_top) where
  IsVacant-low : (x : ℕ) → x / 2 ^ 22 ≡ 64 → IsVacant s.words root x
  IsVacant-low x e = inl (subst (λ i. is_valid (dir_entry s.words root i) ≡ false) (sym e) free)

  IsVacant-high : (x : ℕ) → x / 2 ^ 22 ≡ 128 → IsVacant s.words root x
  IsVacant-high x e = inl (subst (λ i. is_valid (dir_entry s.words root i) ≡ false) (sym e) free')

  abbrev Stage : (va flags : ℕ) → Vmm → Type 0
  Stage va flags s =
      (s' : Vmm) × (map_new_page (root + kva_offset) va flags s ≡ some s')
      × AddsNewPage hi root va flags s s'

  page0 : Stage 0x10000000 user_rwx s
  page0 =
      map_new_page_lem hi root 0x10000000 user_rwx s sp refl (omega arith) (refl, refl, refl)
        (IsVacant-low 0x10000000 refl) (omega arith)

  abbrev s1 : Vmm
  s1 = page0.0

  vacant1 :
      (x : ℕ) → 0x10001000 ≤ x → x < 2 ^ 32 → IsVacant s.words root x → IsVacant s1.words root x
  vacant1 x lo lt v = page0.2.vacant x lt (inr (omega arith)) v

  page1 : Stage 0x10001000 user_rwx s1
  page1 =
      let m0 = page0.2.memory in
      map_new_page_lem hi root 0x10001000 user_rwx s1 page0.2.space refl (omega arith)
        (refl, refl, refl)
        (vacant1 0x10001000 (omega arith) (omega arith) (IsVacant-low 0x10001000 refl))
        (omega arith)

  abbrev s2 : Vmm
  s2 = page1.0

  vacant2 :
      (x : ℕ) → 0x10002000 ≤ x → x < 2 ^ 32 → IsVacant s.words root x → IsVacant s2.words root x
  vacant2 x lo lt v = page1.2.vacant x lt (inr (omega arith)) (vacant1 x (omega arith) lt v)

  page2 : Stage 0x10002000 user_rwx s2
  page2 =
      let m0 = page0.2.memory in
      let m1 = page1.2.memory in
      map_new_page_lem hi root 0x10002000 user_rwx s2 page1.2.space refl (omega arith)
        (refl, refl, refl)
        (vacant2 0x10002000 (omega arith) (omega arith) (IsVacant-low 0x10002000 refl))
        (omega arith)

  abbrev s3 : Vmm
  s3 = page2.0

  vacant3 :
      (x : ℕ) → 0x10003000 ≤ x → x < 2 ^ 32 → IsVacant s.words root x → IsVacant s3.words root x
  vacant3 x lo lt v = page2.2.vacant x lt (inr (omega arith)) (vacant2 x (omega arith) lt v)

  page3 : Stage 0x10003000 user_rwx s3
  page3 =
      let m0 = page0.2.memory in
      let m1 = page1.2.memory in
      let m2 = page2.2.memory in
      map_new_page_lem hi root 0x10003000 user_rwx s3 page2.2.space refl (omega arith)
        (refl, refl, refl)
        (vacant3 0x10003000 (omega arith) (omega arith) (IsVacant-low 0x10003000 refl))
        (omega arith)

  abbrev s4 : Vmm
  s4 = page3.0

  vacant4 :
      (x : ℕ) → 0x10004000 ≤ x → x < 2 ^ 32 → IsVacant s.words root x → IsVacant s4.words root x
  vacant4 x lo lt v = page3.2.vacant x lt (inr (omega arith)) (vacant3 x (omega arith) lt v)

  page4 : Stage 0x103FF000 user_rw s4
  page4 =
      let m0 = page0.2.memory in
      let m1 = page1.2.memory in
      let m2 = page2.2.memory in
      let m3 = page3.2.memory in
      map_new_page_lem hi root 0x103FF000 user_rw s4 page3.2.space refl (omega arith)
        (refl, refl, refl)
        (vacant4 0x103FF000 (omega arith) (omega arith) (IsVacant-low 0x103FF000 refl))
        (omega arith)

  abbrev s5 : Vmm
  s5 = page4.0

  vacant5 :
      (x : ℕ) → 0x10400000 ≤ x → x < 2 ^ 32 → IsVacant s.words root x → IsVacant s5.words root x
  vacant5 x lo lt v = page4.2.vacant x lt (inr (omega arith)) (vacant4 x (omega arith) lt v)

  -- How much memory the five pages leave.
  memory5 :
      (s5.pa_bottom ≡ s.pa_bottom)
      × (s.pa_top ≤ s5.pa_top + 10 * 4096)
      × (s1.pa_top ≤ s.pa_top)
      × (s2.pa_top ≤ s1.pa_top)
      × (s3.pa_top ≤ s2.pa_top)
      × (s4.pa_top ≤ s3.pa_top)
      × (s5.pa_top ≤ s4.pa_top)
  memory5 =
      let m0 = page0.2.memory in
      let m1 = page1.2.memory in
      let m2 = page2.2.memory in
      let m3 = page3.2.memory in
      let m4 = page4.2.memory in
      (
        m4.0 ∙ m3.0 ∙ m2.0 ∙ m1.0 ∙ m0.0,
        omega arith,
        omega arith,
        omega arith,
        omega arith,
        omega arith,
        omega arith,
      )

  framebuffer :
      (s' : Vmm) × (map_framebuffer (root + kva_offset) s5 ≡ some s')
      × AddsRange hi root 0x20000000 framebuffer_base framebuffer_size user_rw s5 s'
  framebuffer =
      let m = memory5 in
      map_framebuffer_lem hi root s5 page4.2.space
        (λ k lt.
          vacant5 (0x20000000 + k * 4096) (omega arith) (omega arith)
            (IsVacant-high (0x20000000 + k * 4096) (omega arith)))
        (omega arith)

  abbrev s6 : Vmm
  s6 = framebuffer.0

  some_left : s6.pa_bottom < s6.pa_top
  some_left = let m = memory5 in let m' = framebuffer.2.memory in omega arith

  -- The kernel stack of the program is the last page that is taken.
  abbrev s7 : Vmm
  s7 = taken s6

  ran : user_pages (root + kva_offset) s ≡ some (s6.pa_top - 4096 + kva_offset, s7)
  unfolding user_pages
  ran =
      let pgdir = root + kva_offset in
      let to5 : Option Vmm → Option (ℕ × Vmm) =
        λ o. o >>= map_framebuffer pgdir >>= kpage_alloc_z in
      let to4 : Option Vmm → Option (ℕ × Vmm) =
        λ o. to5 (o >>= map_new_page pgdir 0x103FF000 user_rw) in
      let to3 : Option Vmm → Option (ℕ × Vmm) =
        λ o. to4 (o >>= map_new_page pgdir 0x10003000 user_rwx) in
      let to2 : Option Vmm → Option (ℕ × Vmm) =
        λ o. to3 (o >>= map_new_page pgdir 0x10002000 user_rwx) in
      let to1 : Option Vmm → Option (ℕ × Vmm) =
        λ o. to2 (o >>= map_new_page pgdir 0x10001000 user_rwx) in
      ap to1 page0.1
      ∙ ap to2 page1.1
      ∙ ap to3 page2.1
      ∙ ap to4 page3.1
      ∙ ap to5 page4.1
      ∙ ap (λ (o : Option Vmm). o >>= kpage_alloc_z) framebuffer.1
      ∙ kpage_alloc_z-taken s6 (space-IsPool hi root s6 framebuffer.2.space some_left) some_left

  tables6 : TablesFrom root s6 s7
  tables6 j lj t = inl (taken_dir hi root s6 framebuffer.2.space some_left j lj)

  tables5 : TablesFrom root s5 s7
  tables5 =
      let m = framebuffer.2.memory in
      TablesFrom-trans root s5 s6 s7 (omega arith) framebuffer.2.tables tables6

  tables4 : TablesFrom root s4 s7
  tables4 =
      let m = page4.2.memory in TablesFrom-trans root s4 s5 s7 (omega arith) page4.2.tables tables5

  tables3 : TablesFrom root s3 s7
  tables3 =
      let m = page3.2.memory in TablesFrom-trans root s3 s4 s7 (omega arith) page3.2.tables tables4

  tables2 : TablesFrom root s2 s7
  tables2 =
      let m = page2.2.memory in TablesFrom-trans root s2 s3 s7 (omega arith) page2.2.tables tables3

  tables1 : TablesFrom root s1 s7
  tables1 =
      let m = page1.2.memory in TablesFrom-trans root s1 s2 s7 (omega arith) page1.2.tables tables2

  -- The pages, one above the other.
  layers :
      (va : ℕ)
      → va < 2 ^ 32
      → translate s7.words root va
        ≡ user_map
            (s.pa_top - 4096)
            (s1.pa_top - 4096)
            (s2.pa_top - 4096)
            (s3.pa_top - 4096)
            (s4.pa_top - 4096)
            (translate s.words root)
            va
  layers va lt =
      translate-taken hi root s6 framebuffer.2.space some_left va lt
      ∙ AddsRange-overlay root 0x20000000 framebuffer_base framebuffer_size user_rw s5 s6 _
          (layer 0x103FF000 user_rw s4 s5 page4.2 _ (
            layer 0x10003000 user_rwx s3 s4 page3.2 _ (
              layer 0x10002000 user_rwx s2 s3 page2.2 _ (
                layer 0x10001000 user_rwx s1 s2 page1.2 _ (
                  layer 0x10000000 user_rwx s s1 page0.2 (translate s.words root)
                    (λ x lt. refl))))))
          hi framebuffer.2 va lt
    where
      layer :
          (va flags : ℕ) (s s' : Vmm)
          → AddsNewPage hi root va flags s s'
          → (below : ℕ → Option (ℕ × ℕ))
          → ((x : ℕ) → x < 2 ^ 32 → translate s.words root x ≡ below x)
          → (x : ℕ) → x < 2 ^ 32
          → translate s'.words root x ≡ overlay va (s.pa_top - 4096) 4096 flags below x
      layer va flags s s' a below was =
          overlay_lem root va (s.pa_top - 4096) 4096 flags s s' below was a.here a.elsewhere

  pub user_pages_lem :
      (kva : ℕ) × (s' : Vmm) × (user_pages (root + kva_offset) s ≡ some (kva, s'))
      × UserSpace hi root kva s s'
  user_pages_lem =
      let m = memory5 in
      let m0 = page0.2.memory in
      let m1 = page1.2.memory in
      let m2 = page2.2.memory in
      let m3 = page3.2.memory in
      let m4 = page4.2.memory in
      let m' = framebuffer.2.memory in
      let top = page4.2.space.top_page in
      (
        s6.pa_top - 4096 + kva_offset,
        s7,
        ran,
        record {
          space = taken-IsSpace hi root s6 framebuffer.2.space some_left;
          text0 = s.pa_top - 4096;
          text1 = s1.pa_top - 4096;
          text2 = s2.pa_top - 4096;
          text3 = s3.pa_top - 4096;
          stack = s4.pa_top - 4096;
          falling = (
            omega arith,
            omega arith,
            omega arith,
            omega arith,
            omega arith,
            omega arith,
            omega arith,
            omega arith,
          );
          aligned =
              let a0 = sp.top_page in
              let a1 = page0.2.space.top_page in
              let a2 = page1.2.space.top_page in
              let a3 = page2.2.space.top_page in
              let a4 = page3.2.space.top_page in
              (omega arith, omega arith, omega arith, omega arith, omega arith);
          guarded = (
            Guarded-kept s1 s7 root (s.pa_top - 4096) tables1 (omega arith) page0.2.guarded,
            Guarded-kept s2 s7 root (s1.pa_top - 4096) tables2 (omega arith) page1.2.guarded,
            Guarded-kept s3 s7 root (s2.pa_top - 4096) tables3 (omega arith) page2.2.guarded,
            Guarded-kept s4 s7 root (s3.pa_top - 4096) tables4 (omega arith) page3.2.guarded,
            Guarded-kept s5 s7 root (s4.pa_top - 4096) tables5 (omega arith) page4.2.guarded,
          );
          translation = layers;
          kernel_stack = refl;
        },
      )
