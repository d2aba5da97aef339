-- ===== src/Xos/Vmm/Alloc.antt =====
-- The page allocator.
use os_workshop.Base.{
  ℕ, ◌+◌, ◌-◌, ◌%◌, ◌≤◌, ◌<◌, ◌≡◌, ◌==◌, false, some, none, Option, ap, ◌∙◌, arith, sub32, refl,
  ◌⊎◌, inl, inr,
}
use os_workshop.Xos.Vmm.{
  Vmm, page_size, kva_offset, clear_page, pa_to_kva, ppage_alloc_z, kpage_alloc_z,
}

-- The free pages lie between the bottom and the top, in the memory that the kernel maps.
pub record IsPool (s : Vmm) : Type 0 where
  pub bottom_page : s.pa_bottom % 4096 ≡ 0
  pub top_page : s.pa_top % 4096 ≡ 0
  pub ordered : s.pa_bottom ≤ s.pa_top
  pub below : s.pa_top ≤ kva_offset

abbrev pub taken : Vmm → Vmm
taken s = record s {
  pa_top = s.pa_top - 4096;
  words = clear_page s.words (s.pa_top - 4096 + kva_offset);
}

pub ppage_alloc_z-taken :
    (s : Vmm)
    → IsPool s
    → s.pa_bottom < s.pa_top
    → ppage_alloc_z s ≡ some (s.pa_top - 4096, taken s)
unfolding ppage_alloc_z
ppage_alloc_z-taken s pool left =
    let a = pool.bottom_page in
    let b = pool.top_page in
    let c = pool.below in
    let large : 4096 ≤ s.pa_top = ground arith in
    let top : sub32 s.pa_top page_size ≡ s.pa_top - 4096 = omega arith in
    let kva : pa_to_kva (s.pa_top - 4096) ≡ s.pa_top - 4096 + kva_offset = omega arith in
    let more : (s.pa_top == s.pa_bottom) ≡ false = ground arith in rw (more, top, kva) refl

pub kpage_alloc_z-taken :
    (s : Vmm)
    → IsPool s
    → s.pa_bottom < s.pa_top
    → kpage_alloc_z s ≡ some (s.pa_top - 4096 + kva_offset, taken s)
unfolding kpage_alloc_z
kpage_alloc_z-taken s pool left =
    let below = pool.below in
    let kva : pa_to_kva (s.pa_top - 4096) ≡ s.pa_top - 4096 + kva_offset = omega arith in
    ap
      (λ (o : Option (ℕ × Vmm)). elim o as (λ _. Option (ℕ × Vmm)) [
        | none ↦ none
        | some p ↦ some (pa_to_kva p.0, p.1)
      ])
      (ppage_alloc_z-taken s pool left)
    ∙ ap (λ k. some (k, taken s)) kva

pub ppage_alloc_z-none : (s : Vmm) → s.pa_bottom ≡ s.pa_top → ppage_alloc_z s ≡ none
unfolding ppage_alloc_z
ppage_alloc_z-none s e = ground arith

-- While pages are left, one is handed out: it lies between the old top and the new one, is clear,
-- and no other word changes. With none left, the kernel panics.
pub ppage_alloc_z_lem :
    (s : Vmm)
    → IsPool s
    → ((s.pa_bottom ≡ s.pa_top) × (ppage_alloc_z s ≡ none))
      ⊎ ((s' : Vmm) × (ppage_alloc_z s ≡ some (s'.pa_top, s'))
          × IsPool s'
          × (s'.pa_bottom ≡ s.pa_bottom)
          × (s'.pa_top + 4096 ≡ s.pa_top)
          × ((k : ℕ) → k < 4096 → s'.words (s'.pa_top + kva_offset + k) ≡ 0)
          × ((a : ℕ)
              → (a < s'.pa_top + kva_offset) ⊎ (s.pa_top + kva_offset ≤ a)
              → s'.words a ≡ s.words a))
ppage_alloc_z_lem s pool = elim (empty_or_not s.pa_bottom s.pa_top pool.ordered) [
  | inl e ↦ inl (e, ppage_alloc_z-none s e)
  | inr left ↦
      let a = pool.bottom_page in
      let b = pool.top_page in
      let c = pool.below in
      let size : s.pa_top - 4096 + 4096 ≡ s.pa_top = ground arith in
      inr (
        taken s,
        ppage_alloc_z-taken s pool left,
        record {
          bottom_page = a;
          top_page = ground arith;
          ordered = ground arith;
          below = omega arith;
        },
        refl,
        size,
        (λ k lt. ground arith),
        (λ x out. ground arith),
      )
]
  where
    empty_or_not : (b t : ℕ) → b ≤ t → (b ≡ t) ⊎ (b < t)
    empty_or_not b t le = ground arith
