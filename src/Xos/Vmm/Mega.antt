-- ===== src/Xos/Vmm/Mega.antt =====
-- `vm_map_4m`: 4 MB pages.
use os_workshop.Base.{
  ℕ, ◌+◌, ◌*◌, ◌/◌, ◌%◌, ◌^◌, ◌<◌, ◌≡◌, ◌≢◌, true, false, some, arith, sym, ◌∙◌, ap, ap₂, refl, ◌⊎◌,
  inl, inr,
}
use mathlib.Core.Path.{subst}
use os_workshop.Xos.Vmm.{Vmm, store, kva_offset, is_valid, is_leaf, leaf_entry, vm_map_4m, xos_ok}
use os_workshop.Xos.Vmm.Sv32.{
  frame_of, is_reserved, dir_entry, walk, last_entry, translate, IsTable, InUse, IsSpace,
}
use os_workshop.Xos.Vmm.Entries.{apart_pages, store_ne, walk-same}
use os_workshop.Xos.Vmm.Maps.{LeafFlags, leaf_entry_lem, three_tests}

-- The 4 MB at `va` are at `pa` in `s'`, and every other address is where it was in `s`.
pub record AddsMegapage (hi root va pa flags : ℕ) (s s' : Vmm) : Type 0 where
  pub space : IsSpace hi root s'
  pub here :
      (va' : ℕ)
      → va' < 2 ^ 32
      → va' / 2 ^ 22 ≡ va / 2 ^ 22
      → translate s'.words root va' ≡ some (pa + va' % 2 ^ 22, flags % 1024)
  pub elsewhere :
      (va' : ℕ)
      → va' < 2 ^ 32
      → va' / 2 ^ 22 ≢ va / 2 ^ 22
      → translate s'.words root va' ≡ translate s.words root va'
  pub unlinked :
      (j : ℕ)
      → j ≢ va / 2 ^ 22
      → is_valid (dir_entry s.words root j) ≡ false
      → is_valid (dir_entry s'.words root j) ≡ false
  pub memory : (s'.pa_bottom ≡ s.pa_bottom) × (s'.pa_top ≡ s.pa_top)

walk_mega :
    (v last va : ℕ)
    → is_valid v ≡ true
    → is_leaf v ≡ true
    → is_reserved v ≡ false
    → v / 1024 % 1024 ≡ 0
    → walk v last va ≡ some (frame_of v + va % 2 ^ 22, v % 1024)
walk_mega v last va valid leaf allowed aligned = ground arith

mega_entry_lem :
    (pa flags last va : ℕ)
    → pa % 0x400000 ≡ 0
    → pa < 2 ^ 32
    → LeafFlags flags
    → walk (leaf_entry pa flags) last va ≡ some (pa + va % 2 ^ 22, flags % 1024)
mega_entry_lem pa flags last va page small h =
    let (frame, bits, valid, leaf, allowed) = leaf_entry_lem pa flags (omega arith) small h in
    walk_mega (leaf_entry pa flags) last va valid leaf allowed (omega (arith, frame))
    ∙ ap₂ (λ a b. some (a + va % 2 ^ 22, b)) frame bits

mega_entry-leaf :
    (pa flags : ℕ) → pa % 0x400000 ≡ 0 → LeafFlags flags → is_leaf (leaf_entry pa flags) ≡ true
mega_entry-leaf pa flags page h = ground arith

module _ (hi root va pa flags : ℕ) (s : Vmm) (sp : IsSpace hi root s) (hv : va < 2 ^ 32)
    (hp : pa < 2 ^ 32) where
  abbrev mapped : Vmm
  mapped = record s {
    words = store s.words (root + kva_offset + 4 * (va / 2 ^ 22)) (leaf_entry pa flags);
  }

  dir_mapped_ne :
      (j : ℕ) → j ≢ va / 2 ^ 22 → dir_entry mapped.words root j ≡ dir_entry s.words root j
  dir_mapped_ne j ne = ground arith

  dir_mapped_self : dir_entry mapped.words root (va / 2 ^ 22) ≡ leaf_entry pa flags
  dir_mapped_self = ground arith

  index : (j : ℕ) → (j ≡ va / 2 ^ 22) ⊎ (j ≢ va / 2 ^ 22)
  index j = ground arith

  table_index :
      pa % 0x400000 ≡ 0
      → LeafFlags flags
      → (j : ℕ) → IsTable (dir_entry mapped.words root j)
      → j ≢ va / 2 ^ 22
  table_index pp lf j t e =
      let l = mega_entry-leaf pa flags pp lf in
      let t' : IsTable (leaf_entry pa flags) =
        subst IsTable (ap (dir_entry mapped.words root) e ∙ dir_mapped_self) t in
      ground arith

  mapped-IsSpace : pa % 0x400000 ≡ 0 → LeafFlags flags → IsSpace hi root mapped
  mapped-IsSpace pp lf = record {
    below = sp.below;
    bottom_page = sp.bottom_page;
    top_page = sp.top_page;
    ordered = sp.ordered;
    top_hi = sp.top_hi;
    dir = sp.dir;
    tables = λ j lj t.
        let same = dir_mapped_ne j (table_index pp lf j t) in
        subst (λ e. InUse s hi (frame_of e) × (frame_of e ≢ root)) (sym same)
          (sp.tables j lj (subst IsTable same t));
    apart = λ j k lj lk ne tj tk.
        let same = dir_mapped_ne j (table_index pp lf j tj) in
        let same' = dir_mapped_ne k (table_index pp lf k tk) in
        rw (same, same') (sp.apart j k lj lk ne (subst IsTable same tj) (subst IsTable same' tk));
  }

  mapped-AddsMegapage :
      pa % 0x400000 ≡ 0 → LeafFlags flags → AddsMegapage hi root va pa flags s mapped
  unfolding translate
  mapped-AddsMegapage pp lf = record {
    space = mapped-IsSpace pp lf;
    here = λ va' hv' same.
        rw (same, dir_mapped_self)
          (mega_entry_lem pa flags (last_entry mapped.words (leaf_entry pa flags) va') va' pp hp
            lf);
    elsewhere = λ va' hv' other.
        let same = dir_mapped_ne (va' / 2 ^ 22) other in
        let pte = dir_entry s.words root (va' / 2 ^ 22) in
        rw same (
          walk-same pte (last_entry mapped.words pte va') (last_entry s.words pte va') va' (λ t.
            let in_use = sp.tables (va' / 2 ^ 22) (omega arith) t in
            store_ne s.words (root + kva_offset + 4 * (va / 2 ^ 22)) (leaf_entry pa flags)
              (frame_of pte + kva_offset + 4 * (va' / 2 ^ 12 % 1024))
              (apart_pages (frame_of pte) root (va' / 2 ^ 12 % 1024) (va / 2 ^ 22) in_use.0.0
                sp.dir.0 in_use.1 (omega arith) (omega arith))));
    unlinked = λ j ne. subst (λ pte. is_valid pte ≡ false) (sym (dir_mapped_ne j ne));
    memory = (refl, refl);
  }

  mapped_4m :
      va % 0x400000 ≡ 0
      → pa % 0x400000 ≡ 0
      → is_valid (dir_entry s.words root (va / 2 ^ 22)) ≡ false
      → vm_map_4m (root + kva_offset) va pa flags s ≡ (xos_ok, mapped)
  unfolding vm_map_4m
  mapped_4m pv pp free = rw (pv, pp, free) refl

  pub adds_4m :
      LeafFlags flags
      → va % 0x400000 ≡ 0
      → pa % 0x400000 ≡ 0
      → is_valid (dir_entry s.words root (va / 2 ^ 22)) ≡ false
      → AddsMegapage hi root va pa flags s (vm_map_4m (root + kva_offset) va pa flags s).1
  adds_4m lf pv pp free =
      subst (λ (r : ℕ × Vmm). AddsMegapage hi root va pa flags s r.1) (sym (mapped_4m pv pp free))
        (mapped-AddsMegapage pp lf)

  refused_4m :
      (va % 0x400000 ≢ 0)
        ⊎ (pa % 0x400000 ≢ 0)
        ⊎ (is_valid (dir_entry s.words root (va / 2 ^ 22)) ≡ true)
      → ((vm_map_4m (root + kva_offset) va pa flags s).0 ≢ xos_ok)
        × ((vm_map_4m (root + kva_offset) va pa flags s).1 ≡ s)
  unfolding vm_map_4m
  refused_4m why = ground arith

  -- It maps the 4 MB at `va` if both addresses are multiples of 4 MB and the directory has no entry
  -- there, and else changes nothing and returns an error; the flags must make a leaf.
  pub vm_map_4m_lem :
      LeafFlags flags
      → ((va % 0x400000 ≡ 0)
          × (pa % 0x400000 ≡ 0)
          × (is_valid (dir_entry s.words root (va / 2 ^ 22)) ≡ false)
          × (s' : Vmm) × (vm_map_4m (root + kva_offset) va pa flags s ≡ (xos_ok, s'))
          × AddsMegapage hi root va pa flags s s')
        ⊎ ((va % 0x400000 ≢ 0)
            ⊎ (pa % 0x400000 ≢ 0)
            ⊎ (is_valid (dir_entry s.words root (va / 2 ^ 22)) ≡ true))
          × ((vm_map_4m (root + kva_offset) va pa flags s).0 ≢ xos_ok)
          × ((vm_map_4m (root + kva_offset) va pa flags s).1 ≡ s)
  vm_map_4m_lem lf =
      elim (three_tests (va % 0x400000) (pa % 0x400000)
        (is_valid (dir_entry s.words root (va / 2 ^ 22)))) [
          | inl why ↦ inr (why, (refused_4m why).0, (refused_4m why).1)
          | inr (pv, pp, free) ↦
              inl (pv, pp, free, mapped, mapped_4m pv pp free, mapped-AddsMegapage pp lf)
        ]
