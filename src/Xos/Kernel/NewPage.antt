-- ===== src/Xos/Kernel/NewPage.antt =====
-- `vm_map_4k(kpgdir, va, ppage_alloc_z(), flags)` of xos/src/kernel.c.
use os_workshop.Base.{
  ℕ, ◌+◌, ◌-◌, ◌%◌, ◌^◌, ◌≤◌, ◌<◌, ◌≡◌, Option, some, arith, inl, inr, ◌∙◌, ◌⊎◌, ap,
}
use os_workshop.Xos.Vmm.{Vmm, kva_offset, vm_map_4k}
use os_workshop.Xos.Vmm.Sv32.{IsVacant, frame_of, dir_entry, translate, IsTable, IsSpace}
use os_workshop.Xos.Vmm.Alloc.{taken, ppage_alloc_z-taken}
use os_workshop.Xos.Vmm.Maps.{LeafFlags, AddsPage, vm_map_4k_maps}
use os_workshop.Xos.Vmm.Fresh.{
  Guarded, Guarded-kept, space-IsPool, taken_dir, taken-IsSpace, translate-taken, IsVacant-taken,
  page-Guarded,
}
use os_workshop.Xos.Kernel.{◌>>=◌, map_new_page}
use os_workshop.Xos.Kernel.Range.{room_or_page}

-- The page at `va` is the one that was on top of the free memory, and no table lies in it.
pub record AddsNewPage (hi root va flags : ℕ) (s s' : Vmm) : Type 0 where
  pub space : IsSpace hi root s'
  pub here :
      (va' : ℕ)
      → va ≤ va'
      → va' < va + 4096
      → translate s'.words root va' ≡ some (s.pa_top - 4096 + (va' - va), flags % 1024)
  pub elsewhere :
      (va' : ℕ)
      → va' < 2 ^ 32
      → (va' < va) ⊎ (va + 4096 ≤ va')
      → translate s'.words root va' ≡ translate s.words root va'
  pub vacant :
      (va' : ℕ)
      → va' < 2 ^ 32
      → (va' < va) ⊎ (va + 4096 ≤ va')
      → IsVacant s.words root va'
      → IsVacant s'.words root va'
  pub guarded : Guarded s'.words root (s.pa_top - 4096)
  pub tables :
      (j : ℕ)
      → j < 1024
      → IsTable (dir_entry s'.words root j)
      → (dir_entry s'.words root j ≡ dir_entry s.words root j)
        ⊎ (frame_of (dir_entry s'.words root j) + 4096 ≤ s.pa_top)
  pub memory :
      (s'.pa_bottom ≡ s.pa_bottom) × (s.pa_top ≤ s'.pa_top + 8192) × (s'.pa_top + 4096 ≤ s.pa_top)

module _ (hi root va flags : ℕ) (s : Vmm) (sp : IsSpace hi root s) (page : va % 4096 ≡ 0)
    (fits : va + 4096 ≤ 2 ^ 32) (lf : LeafFlags flags) (empty : IsVacant s.words root va)
    (left : s.pa_bottom + 8192 ≤ s.pa_top) where
  some_left : s.pa_bottom < s.pa_top
  some_left = omega arith

  abbrev frame : ℕ
  frame = s.pa_top - 4096

  top_small : s.pa_top ≤ kva_offset
  top_small = let a = sp.below in let b = sp.top_hi in omega arith

  mapped_page :
      (s' : Vmm) × (vm_map_4k (root + kva_offset) va frame flags (taken s) ≡ some (0, s'))
      × AddsPage hi root va frame flags (taken s) s'
  mapped_page =
      let a = top_small in
      let b = sp.top_page in
      vm_map_4k_maps hi root va frame flags (taken s) (taken-IsSpace hi root s sp some_left)
        (omega arith) (omega arith) page (omega arith) lf
        (room_or_page (taken s) root va
          (IsVacant-taken hi root s sp some_left va (omega arith) empty) (omega arith))

  added-AddsNewPage : AddsNewPage hi root va flags s mapped_page.0
  added-AddsNewPage =
      let a = mapped_page.2 in
      let m = a.memory in
      record {
        space = a.space;
        here = λ va' lo up.
            a.here va' (omega arith) (omega arith) ∙ ap (λ p. some (p, flags % 1024)) (omega arith);
        elsewhere = λ va' hv' out.
            a.elsewhere va' hv' (omega arith) ∙ translate-taken hi root s sp some_left va' hv';
        vacant = λ va' hv' out v.
            a.vacant va' hv' (omega arith) (IsVacant-taken hi root s sp some_left va' hv' v);
        guarded =
            Guarded-kept (taken s) mapped_page.0 root frame a.tables (omega arith)
              (page-Guarded hi root s sp some_left);
        tables = λ j lj t. elim (a.tables j lj t) [
          | inl same ↦ inl (same ∙ taken_dir hi root s sp some_left j lj)
          | inr low ↦ inr (omega arith)
        ];
        memory = (m.0, omega arith, omega arith);
      }

  pub map_new_page_lem :
      (s' : Vmm) × (map_new_page (root + kva_offset) va flags s ≡ some s')
      × AddsNewPage hi root va flags s s'
  map_new_page_lem = (
    mapped_page.0,
    ap
          (λ (o : Option (ℕ × Vmm)).
            o >>= λ p. vm_map_4k (root + kva_offset) va p.0 flags p.1 >>= λ r. some r.1)
          (ppage_alloc_z-taken s (space-IsPool hi root s sp some_left) some_left)
        ∙ ap (λ (o : Option (ℕ × Vmm)). o >>= λ r. some r.1) mapped_page.1,
    added-AddsNewPage,
  )
