-- ===== src/Xos/Vmm/Maps.antt =====
-- What `vm_map_4k` and `vm_map_4m` do to the translation.
use os_workshop.Base.{
  ℕ, Bool, ◌+◌, ◌-◌, ◌*◌, ◌/◌, ◌%◌, ◌^◌, ◌≤◌, ◌<◌, ◌≡◌, ◌≢◌, true, false, some, none, arith, inl,
  inr, sym, ◌∙◌, ap, ap₂, refl, ◌⊎◌, ◌↔◌,
}
use os_workshop.Xos.Vmm.{
  Vmm, store, kva_offset, is_valid, is_leaf, pa_to_kva, pte_pa, leaf_entry, fill_entry, vm_map_4k,
  ppage_alloc_z, xos_ok,
}
use os_workshop.Xos.Vmm.Sv32.{
  HasRoom, IsVacant, frame_of, is_reserved, dir_entry, translate, IsTable, IsSpace,
}
use os_workshop.Xos.Vmm.Entries.{
  IsVacant-store_miss, dir_entry-store_last, translate-store_hit, translate-store_miss,
}
use os_workshop.Xos.Vmm.Link.{
  linked-HasRoom, linked-IsVacant, IsSpace-dir, linked, linked-IsSpace, translate-linked, new_entry,
  new_page, dir_linked_self, dir_linked_ne, linked_tables_from,
}
use os_workshop.Xos.Vmm.Alloc.{IsPool, ppage_alloc_z-taken}
use mathlib.Core.Path.{subst}
use mathlib.Core.Option.{some-injective, none-ne-some}

-- Flags with PTE_V and one of PTE_R, PTE_W and PTE_X, where PTE_W has PTE_R with it.
abbrev pub LeafFlags : ℕ → Type 0
LeafFlags flags = (is_valid flags ≡ true) × (is_leaf flags ≡ true) × (is_reserved flags ≡ false)

-- The page of `va` is at `pa` in `s'`, every other address is where it was in `s`, and what was
-- vacant is; it takes a page of memory at most.
pub record AddsPage (hi root va pa flags : ℕ) (s s' : Vmm) : Type 0 where
  pub space : IsSpace hi root s'
  pub here :
      (va' : ℕ)
      → va' < 2 ^ 32
      → va' / 4096 ≡ va / 4096
      → translate s'.words root va' ≡ some (pa + va' % 4096, flags % 1024)
  pub elsewhere :
      (va' : ℕ)
      → va' < 2 ^ 32
      → va' / 4096 ≢ va / 4096
      → translate s'.words root va' ≡ translate s.words root va'
  pub vacant :
      (va' : ℕ)
      → va' < 2 ^ 32
      → va' / 4096 ≢ va / 4096
      → IsVacant s.words root va'
      → IsVacant s'.words root va'
  pub unlinked :
      (j : ℕ)
      → j < 1024
      → j ≢ va / 2 ^ 22
      → is_valid (dir_entry s.words root j) ≡ false
      → is_valid (dir_entry s'.words root j) ≡ false
  pub tables :
      (j : ℕ)
      → j < 1024
      → IsTable (dir_entry s'.words root j)
      → (dir_entry s'.words root j ≡ dir_entry s.words root j)
        ⊎ (frame_of (dir_entry s'.words root j) + 4096 ≤ s.pa_top)
  pub memory : (s'.pa_bottom ≡ s.pa_bottom) × (s.pa_top ≤ s'.pa_top + 4096) × (s'.pa_top ≤ s.pa_top)

-- The tests of the two functions, together.
pub three_tests :
    (x y : ℕ) (b : Bool) → ((x ≢ 0) ⊎ (y ≢ 0) ⊎ (b ≡ true)) ⊎ ((x ≡ 0) × (y ≡ 0) × (b ≡ false))
three_tests x y b = ground arith

table_kva :
    (pte : ℕ)
    → frame_of pte + 4096 ≤ kva_offset
    → pa_to_kva (pte_pa pte) ≡ frame_of pte + kva_offset
table_kva pte h = omega arith

pub leaf_entry_lem :
    (pa flags : ℕ)
    → pa % 4096 ≡ 0
    → pa < 2 ^ 32
    → LeafFlags flags
    → (frame_of (leaf_entry pa flags) ≡ pa)
      × (leaf_entry pa flags % 1024 ≡ flags % 1024)
      × (is_valid (leaf_entry pa flags) ≡ true)
      × (is_leaf (leaf_entry pa flags) ≡ true)
      × (is_reserved (leaf_entry pa flags) ≡ false)
leaf_entry_lem pa flags page small h = ground arith

module _ (hi root va pa flags : ℕ) (s : Vmm) (sp : IsSpace hi root s) (hv : va < 2 ^ 32)
    (hp : pa < 2 ^ 32) (va_page : va % 4096 ≡ 0) (pa_page : pa % 4096 ≡ 0) where
  abbrev filled : Vmm
  filled = record s {
    words =
        store s.words
          (frame_of (dir_entry s.words root (va / 2 ^ 22)) + kva_offset + 4 * (va / 2 ^ 12 % 1024))
          (leaf_entry pa flags);
  }

  fill_entry-filled :
      HasRoom s.words root va
      → fill_entry
          (pa_to_kva (pte_pa (dir_entry s.words root (va / 2 ^ 22))))
          (va / 2 ^ 12 % 1024)
          pa
          flags
          s
        ≡ (xos_ok, filled)
  unfolding fill_entry
  fill_entry-filled room =
      let t = sp.tables (va / 2 ^ 22) (omega arith) room.0 in
      let b = sp.below in
      rw (table_kva (dir_entry s.words root (va / 2 ^ 22)) (ground arith)) (ground (arith))

  filled-AddsPage :
      LeafFlags flags → HasRoom s.words root va → AddsPage hi root va pa flags s filled
  filled-AddsPage lf room =
      let t = sp.tables (va / 2 ^ 22) (omega arith) room.0 in
      let l = leaf_entry_lem pa flags pa_page hp lf in
      record {
        space =
            IsSpace-dir s filled.words
              (dir_entry-store_last s.words root va (leaf_entry pa flags) sp.dir.0 hv room.0 t.1)
              sp;
        here = λ va' hv' same.
            translate-store_hit s.words root va (leaf_entry pa flags) sp.dir.0 hv room.0 t.1 va' l.2
              l.3 l.4 same
            ∙ ap₂ (λ a b. some (a + va' % 4096, b)) l.0 l.1;
        elsewhere = λ va' hv' other.
            translate-store_miss s.words root va (leaf_entry pa flags) sp.dir.0 hv room.0 t.1 va'
              hv'
              (λ ne t'.
                sp.apart (va' / 2 ^ 22) (va / 2 ^ 22) (omega arith) (omega arith) ne t' room.0)
              other;
        vacant = λ va' hv' other.
            IsVacant-store_miss s.words root va (leaf_entry pa flags) sp.dir.0 hv room.0 t.1 va' hv'
              (λ ne t'.
                sp.apart (va' / 2 ^ 22) (va / 2 ^ 22) (omega arith) (omega arith) ne t' room.0)
              other;
        unlinked = λ j lj ne.
            subst (λ pte. is_valid pte ≡ false)
              (sym (
                dir_entry-store_last s.words root va (leaf_entry pa flags) sp.dir.0 hv room.0 t.1 j
                  lj));
        tables = λ j lj _. inl (
            dir_entry-store_last s.words root va (leaf_entry pa flags) sp.dir.0 hv room.0 t.1 j lj);
        memory = (refl, omega arith, omega arith);
      }

  module _ (free : is_valid (dir_entry s.words root (va / 2 ^ 22)) ≡ false)
      (left : s.pa_bottom < s.pa_top) where
    abbrev with_table : Vmm
    with_table = linked hi root s sp (va / 2 ^ 22) (omega arith) free left

    with_table-HasRoom : HasRoom with_table.words root va
    with_table-HasRoom = linked-HasRoom hi root s sp (va / 2 ^ 22) (omega arith) free left va refl

    with_table-kva :
        pa_to_kva (s.pa_top - 4096)
        ≡ pa_to_kva (pte_pa (dir_entry with_table.words root (va / 2 ^ 22)))
    with_table-kva =
        let entry = new_entry hi root s sp (va / 2 ^ 22) (omega arith) free left in
        let page = new_page hi root s sp (va / 2 ^ 22) (omega arith) free left in
        rw (dir_linked_self hi root s sp (va / 2 ^ 22) (omega arith) free left)
          (let a = sp.below in let b = sp.top_hi in let c = page.0 in omega arith)

    map_4k_new :
        vm_map_4k (root + kva_offset) va pa flags s
        ≡ some (fill_entry (pa_to_kva (s.pa_top - 4096)) (va / 2 ^ 12 % 1024) pa flags with_table)
    unfolding vm_map_4k
    map_4k_new =
        let pool : IsPool s = record {
          bottom_page = sp.bottom_page;
          top_page = sp.top_page;
          ordered = sp.ordered;
          below = let a = sp.below in let b = sp.top_hi in omega arith;
        } in
        rw (va_page, pa_page, free, ppage_alloc_z-taken s pool left) refl

  map_4k_old :
      IsTable (dir_entry s.words root (va / 2 ^ 22))
      → vm_map_4k (root + kva_offset) va pa flags s
        ≡ some (
            fill_entry
              (pa_to_kva (pte_pa (dir_entry s.words root (va / 2 ^ 22))))
              (va / 2 ^ 12 % 1024)
              pa
              flags
              s)
  unfolding vm_map_4k
  map_4k_old t = rw (va_page, pa_page, t.0, t.1) refl

module _ (hi root va pa flags : ℕ) (s : Vmm) (sp : IsSpace hi root s) (hv : va < 2 ^ 32)
    (hp : pa < 2 ^ 32) where
  module _ (pv : va % 4096 ≡ 0) (pp : pa % 4096 ≡ 0)
      (free : is_valid (dir_entry s.words root (va / 2 ^ 22)) ≡ false)
      (left : s.pa_bottom < s.pa_top) where
    abbrev grown : Vmm
    grown = with_table hi root va pa flags s sp hv hp pv pp free left

    grown-IsSpace : IsSpace hi root grown
    grown-IsSpace = linked-IsSpace hi root s sp (va / 2 ^ 22) (omega arith) free left

    grown-HasRoom : HasRoom grown.words root va
    grown-HasRoom = with_table-HasRoom hi root va pa flags s sp hv hp pv pp free left

    map_4k_grown :
        vm_map_4k (root + kva_offset) va pa flags s
        ≡ some (xos_ok, filled hi root va pa flags grown grown-IsSpace hv hp pv pp)
    map_4k_grown =
        map_4k_new hi root va pa flags s sp hv hp pv pp free left
        ∙ ap (λ kva. some (fill_entry kva (va / 2 ^ 12 % 1024) pa flags grown))
            (with_table-kva hi root va pa flags s sp hv hp pv pp free left)
        ∙ ap some
            (fill_entry-filled hi root va pa flags grown grown-IsSpace hv hp pv pp grown-HasRoom)

    grown-AddsPage :
        LeafFlags flags
        → AddsPage hi root va pa flags s
            (filled hi root va pa flags grown grown-IsSpace hv hp pv pp)
    grown-AddsPage lf =
        let added =
          filled-AddsPage hi root va pa flags grown grown-IsSpace hv hp pv pp lf grown-HasRoom in
        record {
          space = added.space;
          here = added.here;
          elsewhere = λ va' hv' other.
              added.elsewhere va' hv' other
              ∙ translate-linked hi root s sp (va / 2 ^ 22) (omega arith) free left va' hv';
          vacant = λ va' hv' other empty.
              added.vacant va' hv' other
                (linked-IsVacant hi root s sp (va / 2 ^ 22) (omega arith) free left va' hv' empty);
          unlinked = λ j lj ne invalid. added.unlinked j lj ne (
              subst (λ pte. is_valid pte ≡ false)
                (sym (dir_linked_ne hi root s sp (va / 2 ^ 22) (omega arith) free left j lj ne))
                invalid);
          tables = λ j lj t. elim (added.tables j lj t) [
            | inl same ↦
                elim (linked_tables_from hi root s sp (va / 2 ^ 22) (omega arith) free left j lj) [
                  | inl old ↦ inl (same ∙ old)
                  | inr new ↦ inr (rw same new)
                ]
            | inr low ↦ inr (omega arith)
          ];
          memory = (refl, omega arith, omega arith);
        }

  -- A page that is not mapped yet is mapped, if there is a table for it, or memory for one, and no
  -- other address is; flags must make a leaf, and both addresses be those of pages.
  pub vm_map_4k_maps :
      va % 4096 ≡ 0
      → pa % 4096 ≡ 0
      → LeafFlags flags
      → HasRoom s.words root va
        ⊎ ((is_valid (dir_entry s.words root (va / 2 ^ 22)) ≡ false) × (s.pa_bottom < s.pa_top))
      → (s' : Vmm) × (vm_map_4k (root + kva_offset) va pa flags s ≡ some (xos_ok, s'))
        × AddsPage hi root va pa flags s s'
  vm_map_4k_maps pv pp lf (inl room) = (
    filled hi root va pa flags s sp hv hp pv pp,
    map_4k_old hi root va pa flags s sp hv hp pv pp room.0
        ∙ ap some (fill_entry-filled hi root va pa flags s sp hv hp pv pp room),
    filled-AddsPage hi root va pa flags s sp hv hp pv pp lf room,
  )
  vm_map_4k_maps pv pp lf (inr (free, left)) = (
    filled hi root va pa flags (grown pv pp free left) (grown-IsSpace pv pp free left) hv hp pv pp,
    map_4k_grown pv pp free left,
    grown-AddsPage pv pp free left lf,
  )

  refuses_old :
      (status : ℕ) (s' : Vmm)
      → (va % 4096 ≢ 0) ⊎ (pa % 4096 ≢ 0) ⊎ (is_valid (dir_entry s.words root (va / 2 ^ 22)) ≡ true)
      → vm_map_4k (root + kva_offset) va pa flags s ≡ some (status, s')
      → status ≢ xos_ok
      → s' ≡ s
  unfolding vm_map_4k fill_entry
  refuses_old status s' why e ne = ground arith

  -- It panics only if a new table is wanted and no page is left.
  pub vm_map_4k_panics : (vm_map_4k (root + kva_offset) va pa flags s ≡ none) ↔ (
      (va % 4096 ≡ 0)
      × (pa % 4096 ≡ 0)
      × (is_valid (dir_entry s.words root (va / 2 ^ 22)) ≡ false)
      × (s.pa_bottom ≡ s.pa_top))
  unfolding vm_map_4k ppage_alloc_z
  vm_map_4k_panics = ground arith

  refuses_same :
      (status : ℕ) (s' : Vmm)
      → vm_map_4k (root + kva_offset) va pa flags s ≡ some (status, s')
      → status ≢ xos_ok
      → s' ≡ s
  refuses_same status s' e ne =
      elim (three_tests (va % 4096) (pa % 4096) (is_valid (dir_entry s.words root (va / 2 ^ 22)))) [
        | inl old ↦ refuses_old status s' old e ne
        | inr (pv, pp, free) ↦ elim (full_or_not s.pa_bottom s.pa_top sp.ordered) [
          | inl full ↦
              absurd (none-ne-some (status, s') (sym (vm_map_4k_panics.1 (pv, pp, free, full)) ∙ e))
          | inr left ↦ absurd (
              ne (
                ap (λ (r : ℕ × Vmm). r.0)
                  (some-injective _ _ (sym e ∙ map_4k_grown pv pp free left))))
        ]
      ]
    where
      full_or_not : (b t : ℕ) → b ≤ t → (b ≡ t) ⊎ (b < t)
      full_or_not b t le = ground arith

  -- Any status but XOS_OK leaves the tables and the free memory as they were.
  vm_map_4k_refuses :
      (status : ℕ) (s' : Vmm)
      → vm_map_4k (root + kva_offset) va pa flags s ≡ some (status, s')
      → status ≢ xos_ok
      → vm_map_4k (root + kva_offset) va pa flags s ≡ some (status, s)
  vm_map_4k_refuses status s' e ne = e ∙ ap (λ t. some (status, t)) (refuses_same status s' e ne)
