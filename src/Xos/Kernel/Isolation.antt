-- ===== src/Xos/Kernel/Isolation.antt =====
-- What the program of xos/src/kernel.c can reach.
use os_workshop.Base.{
  ℕ, ◌+◌, ◌-◌, ◌*◌, ◌/◌, ◌%◌, ◌^◌, ◌≤◌, ◌<◌, ◌≡◌, ◌≢◌, leb, ltb, ◌&&◌, ◌==◌, if◌then◌else◌, Bool,
  true, false, Bool-cases, Option, some, arith, inl, inr, sym, ◌∙◌, ◌⊎◌, ap,
}
use mathlib.Core.Bool.{false≢true}
use mathlib.Core.Path.{subst}
use mathlib.Core.Option.{some-injective}
use os_workshop.Xos.Vmm.{Vmm, kva_offset}
use os_workshop.Xos.Vmm.Sv32.{translate, IsSpace}
use os_workshop.Xos.Vmm.Fresh.{Guarded}
use os_workshop.Xos.Kernel.{
  ◌>>=◌, Image, user_pages, start, framebuffer_base, framebuffer_size, user_rw, user_rwx,
}
use os_workshop.Xos.Kernel.Overlay.{overlay}
use os_workshop.Xos.Kernel.Tables.{end_, pool_top, root_of, IsKernelImage, kernel_map}
use os_workshop.Xos.Kernel.Tables.Built.{kernel_tables_lem}
use os_workshop.Xos.Kernel.User.{user_map, UserSpace, user_pages_lem}

-- PTE_U
abbrev pub is_user : ℕ → Bool
is_user flags = flags / 16 % 2 == 1

-- The addresses that the program may use.
abbrev pub InProgram : ℕ → Type 0
InProgram va =
    ((0x10000000 ≤ va) × (va < 0x10004000))
    ⊎ ((0x103FF000 ≤ va) × (va < 0x10400000))
    ⊎ ((0x20000000 ≤ va) × (va < 0x20000000 + framebuffer_size))

-- A place in memory that is no part of the kernel: not of its image, its page tables, the stack at
-- `stack_kva`, or what it booted with.
pub record OutsideKernel (im : Image) (root stack_kva pa : ℕ) (s : Vmm) : Type 0 where
  pub image : im.image_end - kva_offset ≤ pa
  pub tables : Guarded s.words root (pa / 4096 * 4096)
  pub boot : pa < pool_top im
  pub stack : pa / 4096 * 4096 + kva_offset ≢ stack_kva

-- The kernel fits below the framebuffer, and the page tables and the program's pages above it.
pub record HasFramebuffer (im : Image) : Type 0 where
  pub image_below : im.image_end ≤ framebuffer_base + kva_offset
  pub pages_above :
      framebuffer_base + framebuffer_size + kva_offset + (end_ im - im.text_start) + 164 * 4096
      ≤ im.memory_top

-- What holds inside an overlay and below it holds of it.
overlay-all :
    (P : Option (ℕ × ℕ) → Type 0) (va pa size flags x : ℕ) (under : Option (ℕ × ℕ))
    → (va ≤ x → x < va + size → P (some (pa + (x - va), flags % 1024)))
    → P under
    → P (overlay va pa size flags (λ _. under) x)
overlay-all P va pa size flags x under here safe =
    elim (Bool-cases (leb va x && ltb x (va + size))) [
      | inl e ↦
          let inside : (va ≤ x) × (x < va + size) = ground arith in
          subst (λ b. P (if b then some (pa + (x - va), flags % 1024) else under)) (sym e)
            (here inside.0 inside.1)
      | inr e ↦
          subst (λ b. P (if b then some (pa + (x - va), flags % 1024) else under)) (sym e) safe
    ]

-- The kernel's own mappings are not for the program.
kernel_map-not_user :
    (im : Image) (va pa flags : ℕ) → kernel_map im va ≡ some (pa, flags) → is_user flags ≡ false
kernel_map-not_user im va pa flags e = ground arith

module _ (im : Image) (root stack_kva va : ℕ) (s : Vmm) where
  -- A translation that the program may have.
  abbrev IsSafe : Option (ℕ × ℕ) → Type 0
  IsSafe o =
      (pa flags : ℕ)
      → o ≡ some (pa, flags)
      → is_user flags ≡ true
      → InProgram va × OutsideKernel im root stack_kva pa s

  page-IsSafe :
      (base page flags : ℕ)
      → InProgram va
      → base ≤ va
      → va < base + 4096
      → page % 4096 ≡ 0
      → im.image_end - kva_offset ≤ page
      → page + 4096 ≤ pool_top im
      → Guarded s.words root page
      → page + kva_offset ≢ stack_kva
      → IsSafe (some (page + (va - base), flags))
  page-IsSafe base page flags inside lo up aligned outside below guarded apart pa flags' e user =
      let at : page + (va - base) ≡ pa = ap (λ (r : ℕ × ℕ). r.0) (some-injective _ _ e) in
      let same : page ≡ pa / 4096 * 4096 = omega (arith, at) in
      (
        inside,
        record {
          image = omega (arith, at);
          boot = omega (arith, at);
          tables = subst (Guarded s.words root) same guarded;
          stack = subst (λ p. p + kva_offset ≢ stack_kva) same apart;
        },
      )

  -- The framebuffer lies between the image and what is left of the free memory.
  framebuffer-IsSafe :
      (hi : ℕ)
      → IsSpace hi root s
      → 0x20000000 ≤ va
      → va < 0x20000000 + framebuffer_size
      → im.image_end - kva_offset ≤ framebuffer_base
      → framebuffer_base + framebuffer_size ≤ s.pa_top
      → s.pa_top ≤ pool_top im
      → stack_kva ≡ s.pa_top + kva_offset
      → IsSafe (some (framebuffer_base + (va - 0x20000000), user_rw))
  framebuffer-IsSafe hi sp lo up outside below boot kstack pa flags' e user =
      let at : framebuffer_base + (va - 0x20000000) ≡ pa =
        ap (λ (r : ℕ × ℕ). r.0) (some-injective _ _ e) in
      (
        inr (inr (lo, up)),
        record {
          image = omega (arith, at);
          boot = omega (arith, at);
          tables = (
            (let d = sp.dir in omega (arith, at)),
            λ i lt t. let d = sp.tables i lt t in omega (arith, at),
          );
          stack = omega (arith, at, kstack);
        },
      )

  module _ (hi : ℕ) (s1 : Vmm) (us : UserSpace hi root stack_kva s1 s)
      (outside : im.image_end - kva_offset ≤ s1.pa_bottom) (below : s1.pa_top ≤ pool_top im)
      (image_below : im.image_end ≤ framebuffer_base + kva_offset)
      (pages_above : framebuffer_base + framebuffer_size ≤ s.pa_top) (lt : va < 2 ^ 32) where
    user_map-IsSafe :
        (under : ℕ → Option (ℕ × ℕ))
        → IsSafe (under va)
        → IsSafe (user_map us.text0 us.text1 us.text2 us.text3 us.stack under va)
    user_map-IsSafe under safe =
        let f = us.falling in
        let a = us.aligned in
        let g = us.guarded in
        let k = us.kernel_stack in
        overlay-all IsSafe 0x20000000 framebuffer_base framebuffer_size user_rw va _
          (λ lo up. framebuffer-IsSafe hi us.space lo up (omega arith) pages_above (omega arith) k)
          (overlay-all IsSafe 0x103FF000 us.stack 4096 user_rw va _
            (λ lo up.
              page-IsSafe 0x103FF000 us.stack user_rw (inr (inl (lo, up))) lo up a.4 (omega arith)
                (omega arith) g.4 (omega (arith, k)))
            (overlay-all IsSafe 0x10003000 us.text3 4096 user_rwx va _
              (λ lo up.
                page-IsSafe 0x10003000 us.text3 user_rwx (inl (omega arith)) lo up a.3 (omega arith)
                  (omega arith) g.3 (omega (arith, k)))
              (overlay-all IsSafe 0x10002000 us.text2 4096 user_rwx va _
                (λ lo up.
                  page-IsSafe 0x10002000 us.text2 user_rwx (inl (omega arith)) lo up a.2
                    (omega arith) (omega arith) g.2 (omega (arith, k)))
                (overlay-all IsSafe 0x10001000 us.text1 4096 user_rwx va _
                  (λ lo up.
                    page-IsSafe 0x10001000 us.text1 user_rwx (inl (omega arith)) lo up a.1
                      (omega arith) (omega arith) g.1 (omega (arith, k)))
                  (overlay-all IsSafe 0x10000000 us.text0 4096 user_rwx va (under va)
                    (λ lo up.
                      page-IsSafe 0x10000000 us.text0 user_rwx (inl (omega arith)) lo up a.0
                        (omega arith) (omega arith) g.0 (omega (arith, k)))
                    safe)))))

-- The kernel's half of the addresses is mapped as the image says, and what the program may access is
-- its own and no part of the kernel.
pub record Isolated (im : Image) (root stack_kva : ℕ) (s : Vmm) : Type 0 where
  pub kernel :
      (va : ℕ) → 0x80000000 ≤ va → va < 2 ^ 32 → translate s.words root va ≡ kernel_map im va
  pub user : (va : ℕ) → va < 2 ^ 32 → IsSafe im root stack_kva va s (translate s.words root va)

user_map-kernel :
    (t0 t1 t2 t3 stack : ℕ) (below : ℕ → Option (ℕ × ℕ)) (va : ℕ)
    → 0x80000000 ≤ va
    → user_map t0 t1 t2 t3 stack below va ≡ below va
user_map-kernel t0 t1 t2 t3 stack below va high = ground arith

-- After `start` has built its tables and those of its program, an address that user mode may access
-- is one of the program, its stack or the framebuffer, and lies in memory that is no part of the
-- kernel: no image, no page table, no stack of the kernel.
pub start-Isolated :
    (im : Image) (s : Vmm)
    → IsKernelImage im
    → HasFramebuffer im
    → let root = root_of im in
      (stack_kva : ℕ) × (s' : Vmm) × (start im s ≡ some ((root + kva_offset, stack_kva), s'))
      × Isolated im root stack_kva s'
unfolding start
start-Isolated im s is fits =
    let hi = pool_top im in
    let root = root_of im in
    let (s1, built, ks) = kernel_tables_lem im s is in
    let m = ks.memory in
    let h = is.high in
    let room = fits.pages_above in
    let image_below = fits.image_below in
    let (kva, s', ran, us) =
      user_pages_lem hi root s1 ks.space (ks.low_free 64 (omega arith))
        (ks.low_free 128 (omega arith)) (omega arith) in
    let f = us.falling in
    let top = ks.space.top_hi in
    (
      kva,
      s',
      ap (λ (o : Option (ℕ × Vmm)). o >>= λ t. user_pages t.0 t.1 >>= λ u. some ((t.0, u.0), u.1))
            built
          ∙ ap (λ (o : Option (ℕ × Vmm)). o >>= λ u. some ((root + kva_offset, u.0), u.1)) ran,
      record {
        kernel = λ va high lt.
            us.translation va lt
            ∙ user_map-kernel us.text0 us.text1 us.text2 us.text3 us.stack (translate s1.words root)
                va high
            ∙ ks.translation va lt;
        user = λ va lt. subst (IsSafe im root kva va s') (sym (us.translation va lt)) (
            user_map-IsSafe im root kva va s' hi s1 us (omega arith) top image_below (omega arith)
              lt (translate s1.words root)
              (λ pa flags e user. absurd (
                false≢true (
                  sym (kernel_map-not_user im va pa flags (sym (ks.translation va lt) ∙ e))
                  ∙ user))));
      },
    )
