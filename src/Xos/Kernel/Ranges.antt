-- ===== src/Xos/Kernel/Ranges.antt =====
-- The loops of `start` of xos/src/kernel.c, as ranges of the translation.
use os_workshop.Base.{
  ℕ, zero, suc, ◌+◌, ◌-◌, ◌*◌, ◌/◌, ◌%◌, ◌^◌, ◌≤◌, ◌<◌, ◌≡◌, false, none, some, arith, ◌⊎◌, inl,
  inr, ◌∙◌, ap, ap₂, refl, sym,
}
use mathlib.Core.Path.{subst}
use os_workshop.Xos.Vmm.{Vmm, page_size, kva_offset, kva_to_pa, is_valid, vm_map_4k, vm_map_4m}
use os_workshop.Xos.Vmm.Sv32.{dir_entry, translate, IsSpace, IsVacant}
use os_workshop.Xos.Vmm.Maps.{LeafFlags}
use os_workshop.Xos.Vmm.Mega.{AddsMegapage, adds_4m}
use os_workshop.Xos.Kernel.{◌>>=◌, map_range, map_kernel_pages, map_kernel_megapages, rounds}
use os_workshop.Xos.Kernel.Range.{AddsRange, range_from}

-- A loop over the kernel's own addresses maps a range to where it lies in memory.
map_kernel_pages-map_range :
    (pgdir flags va pa n count x : ℕ) (s : Vmm)
    → x ≡ va + n
    → pa + kva_offset ≡ va
    → va + n + count * 4096 ≤ 2 ^ 32
    → map_kernel_pages pgdir flags count x s
      ≡ (map_range pgdir va pa flags n count s >>= λ s'. some (x + count * 4096, s'))
unfolding map_kernel_pages map_range
map_kernel_pages-map_range pgdir flags va pa n zero x s at off fits =
    ap (λ y. some (y, s)) (omega arith)
map_kernel_pages-map_range pgdir flags va pa n (suc count) x s at off fits =
    let low : kva_to_pa x ≡ pa + n = omega (arith, at, off) in
    let same : vm_map_4k pgdir x (kva_to_pa x) flags s ≡ vm_map_4k pgdir (va + n) (pa + n) flags s =
      ap₂ (λ v p. vm_map_4k pgdir v p flags s) at low in
    ap (λ o. o >>= λ r. map_kernel_pages pgdir flags count (x + page_size) r.1) same
    ∙ elim (vm_map_4k pgdir (va + n) (pa + n) flags s)
        as (λ o. (o >>= λ r. map_kernel_pages pgdir flags count (x + page_size) r.1) ≡ (
          (o >>= λ r. map_range pgdir va pa flags (n + page_size) count r.1) >>= λ s'.
          some (x + suc count * 4096, s'))) [
            | none ↦ refl
            | some r ↦
                map_kernel_pages-map_range pgdir flags va pa (n + page_size) count (x + page_size)
                  r.1 (omega (arith, at)) off (omega arith)
                ∙ ap
                    (λ y.
                      map_range pgdir va pa flags (n + page_size) count r.1 >>= λ s'. some (y, s'))
                    (omega arith)
          ]

module _ (hi root flags : ℕ) (lf : LeafFlags flags) where
  pages_lem :
      (va count : ℕ) (s : Vmm)
      → va % 4096 ≡ 0
      → kva_offset ≤ va
      → va + count * 4096 ≤ 2 ^ 32
      → IsSpace hi root s
      → ((k : ℕ) → k < count → IsVacant s.words root (va + k * 4096))
      → s.pa_bottom + count * 4096 ≤ s.pa_top
      → (s' : Vmm) × (map_kernel_pages (root + kva_offset) flags count va s
          ≡ some (va + count * 4096, s'))
        × AddsRange hi root va (va - kva_offset) (count * 4096) flags s s'
  pages_lem va count s page up fits sp empty enough =
      let pa = va - kva_offset in
      let zero_in : va + 0 ≡ va = omega arith in
      let zero_pa : pa + 0 ≡ pa = omega arith in
      let (s', ran, added) =
        range_from hi root va pa flags page (omega arith) lf 0 count s refl (omega arith)
          (omega arith) sp
          (λ k lt. subst (λ v. IsVacant s.words root (v + k * 4096)) (sym zero_in) (empty k lt))
          enough in
      (
        s',
        map_kernel_pages-map_range (root + kva_offset) flags va pa 0 count va s (sym zero_in)
              (omega arith) (omega arith)
            ∙ ap (λ o. o >>= λ s'. some (va + count * 4096, s')) ran,
        subst (λ v. AddsRange hi root v pa (count * 4096) flags s s') zero_in
            (subst (λ p. AddsRange hi root (va + 0) p (count * 4096) flags s s') zero_pa added),
      )

-- The same for 4 MB pages.
pub record AddsMegapages (hi root va pa size flags : ℕ) (s s' : Vmm) : Type 0 where
  pub space : IsSpace hi root s'
  pub here :
      (va' : ℕ)
      → va ≤ va'
      → va' < va + size
      → translate s'.words root va' ≡ some (pa + (va' - va), flags % 1024)
  pub elsewhere :
      (va' : ℕ)
      → va' < 2 ^ 32
      → (va' < va) ⊎ (va + size ≤ va')
      → translate s'.words root va' ≡ translate s.words root va'
  pub unlinked :
      (j : ℕ)
      → (j < va / 2 ^ 22) ⊎ (va + size ≤ j * 2 ^ 22)
      → is_valid (dir_entry s.words root j) ≡ false
      → is_valid (dir_entry s'.words root j) ≡ false
  pub memory : (s'.pa_bottom ≡ s.pa_bottom) × (s'.pa_top ≡ s.pa_top)

megapage-AddsMegapages :
    (hi root va pa size flags : ℕ) (s s1 s' : Vmm)
    → va % 0x400000 ≡ 0
    → va + 0x400000 + size ≤ 2 ^ 32
    → AddsMegapage hi root va pa flags s s1
    → AddsMegapages hi root (va + 0x400000) (pa + 0x400000) size flags s1 s'
    → AddsMegapages hi root va pa (0x400000 + size) flags s s'
megapage-AddsMegapages hi root va pa size flags s s1 s' pv small first rest = record {
  space = rest.space;
  here = λ va' lo up. elim (near_or_far va' (va + 0x400000)) [
    | inl near ↦
        rest.elsewhere va' (omega arith) (inl near)
        ∙ first.here va' (omega arith) (omega arith)
        ∙ ap (λ a. some (a, flags % 1024)) (omega arith)
    | inr far ↦ rest.here va' far (omega arith) ∙ ap (λ a. some (a, flags % 1024)) (omega arith)
  ];
  elsewhere =
      λ va' hv' out. rest.elsewhere va' hv' (ground arith) ∙ first.elsewhere va' hv' (ground arith);
  unlinked =
      λ j out invalid. rest.unlinked j (ground arith) (first.unlinked j (ground arith) invalid);
  memory = let a = first.memory in let b = rest.memory in (b.0 ∙ a.0, b.1 ∙ a.1);
}
  where
    near_or_far : (a b : ℕ) → (a < b) ⊎ (b ≤ a)
    near_or_far a b = ground arith

module _ (hi root flags : ℕ) (lf : LeafFlags flags) where
  megapages_lem :
      (va count : ℕ) (s : Vmm)
      → va % 0x400000 ≡ 0
      → kva_offset ≤ va
      → va + count * 0x400000 ≤ 2 ^ 32
      → IsSpace hi root s
      → ((j : ℕ)
          → va / 2 ^ 22 ≤ j
          → j < va / 2 ^ 22 + count
          → is_valid (dir_entry s.words root j) ≡ false)
      → AddsMegapages hi root va
          (va - kva_offset)
          (count * 0x400000)
          flags
          s
          (map_kernel_megapages (root + kva_offset) flags count va s)
  unfolding map_kernel_megapages
  megapages_lem va zero s page up fits sp free = record {
    space = sp;
    here = λ va' lo hi. absurd (omega arith);
    elsewhere = λ va' hv' out. refl;
    unlinked = λ j out invalid. invalid;
    memory = (refl, refl);
  }
  megapages_lem va (suc count) s page up fits sp free =
      let low : kva_to_pa va ≡ va - kva_offset = omega arith in
      let s1 = (vm_map_4m (root + kva_offset) va (kva_to_pa va) flags s).1 in
      let first : AddsMegapage hi root va (va - kva_offset) flags s s1 =
        subst (λ p. AddsMegapage hi root va p flags s s1) low
          (adds_4m hi root va (kva_to_pa va) flags s sp (omega arith) (omega arith) lf page
            (omega arith) (free (va / 2 ^ 22) (omega arith) (omega arith))) in
      let rest =
        megapages_lem (va + 0x400000) count s1 (omega arith) (omega arith) (omega arith) first.space
          (λ j lo hi. first.unlinked j (omega arith) (free j (omega arith) (omega arith))) in
      let s' = map_kernel_megapages (root + kva_offset) flags count (va + 0x400000) s1 in
      subst (λ size. AddsMegapages hi root va (va - kva_offset) size flags s s') (omega arith)
        (megapage-AddsMegapages hi root va (va - kva_offset) (count * 0x400000) flags s s1 s' page
          (omega arith) first
          (subst (λ p. AddsMegapages hi root (va + 0x400000) p (count * 0x400000) flags s1 s')
            (omega arith) rest))

module _ (hi root flags : ℕ) (lf : LeafFlags flags) (va to : ℕ) (s : Vmm) (high : kva_offset ≤ va)
    (up : va ≤ to) (fits : to ≤ 2 ^ 32) (sp : IsSpace hi root s) where
  -- A loop from one page to another.
  pub section_lem :
      va % 4096 ≡ 0
      → to % 4096 ≡ 0
      → ((x : ℕ) → va ≤ x → x < to → IsVacant s.words root x)
      → s.pa_bottom + (to - va) ≤ s.pa_top
      → (s' : Vmm) × (map_kernel_pages (root + kva_offset) flags (rounds page_size va to) va s
          ≡ some (to, s'))
        × AddsRange hi root va (va - kva_offset) (to - va) flags s s'
  section_lem page to_page empty enough =
      let count = rounds page_size va to in
      let size : count * 4096 ≡ to - va = omega arith in
      let (s', ran, added) =
        pages_lem hi root flags lf va count s page high (omega (arith, size)) sp
          (λ k lt. empty (va + k * 4096) (omega arith) (omega (arith, size)))
          (omega (arith, size)) in
      (
        s',
        ran ∙ ap (λ v. some (v, s')) (omega (arith, size)),
        subst (λ n. AddsRange hi root va (va - kva_offset) n flags s s') size added,
      )

  pub megasection_lem :
      va % 0x400000 ≡ 0
      → to % 0x400000 ≡ 0
      → ((j : ℕ) → va / 2 ^ 22 ≤ j → j < to / 2 ^ 22 → is_valid (dir_entry s.words root j) ≡ false)
      → AddsMegapages hi root va
          (va - kva_offset)
          (to - va)
          flags
          s
          (map_kernel_megapages (root + kva_offset) flags (rounds 0x400000 va to) va s)
  megasection_lem page to_page free =
      let count = rounds 0x400000 va to in
      let size : count * 0x400000 ≡ to - va = omega arith in
      subst
        (λ n.
          AddsMegapages hi root va (va - kva_offset) n flags s
            (map_kernel_megapages (root + kva_offset) flags count va s))
        size
        (megapages_lem hi root flags lf va count s page high (omega (arith, size)) sp
          (λ j lo below. free j lo (omega (arith, size))))
