-- ===== src/Xos/Vmm/Link.antt =====
-- A new table is linked into the directory; a store elsewhere keeps the tables.
use os_workshop.Base.{
  ap, ℕ, ◌+◌, ◌-◌, ◌*◌, ◌/◌, ◌%◌, ◌^◌, ◌≤◌, ◌<◌, ◌≡◌, ◌≢◌, false, none, Memory, arith, inl, inr,
  sym, ◌∙◌, ◌⊎◌,
}
use mathlib.Core.Path.{subst}
use os_workshop.Xos.Vmm.{Vmm, store, clear_page, kva_offset, is_valid}
use os_workshop.Xos.Vmm.Sv32.{
  HasRoom, IsVacant, frame_of, dir_entry, walk, last_entry, translate, IsTable, InUse, IsSpace,
}
use os_workshop.Xos.Vmm.Entries.{apart_pages, store_ne, walk-same}

walk_empty : (pte last va : ℕ) → IsTable pte → is_valid last ≡ false → walk pte last va ≡ none
walk_empty pte last va table empty = ground arith

walk_invalid : (pte last va : ℕ) → is_valid pte ≡ false → walk pte last va ≡ none
walk_invalid pte last va empty = ground arith

-- The invariant reads the memory at the directory only.
pub IsSpace-dir :
    {hi root : ℕ} (s : Vmm) (m : Memory)
    → ((i : ℕ) → i < 1024 → dir_entry m root i ≡ dir_entry s.words root i)
    → IsSpace hi root s
    → IsSpace hi root (record s { words = m })
IsSpace-dir {hi} {root} s m same sp = record {
  below = sp.below;
  bottom_page = sp.bottom_page;
  top_page = sp.top_page;
  ordered = sp.ordered;
  top_hi = sp.top_hi;
  dir = sp.dir;
  tables = λ i lt t.
      subst (λ e. InUse s hi (frame_of e) × (frame_of e ≢ root)) (sym (same i lt))
        (sp.tables i lt (subst IsTable (same i lt) t));
  apart = λ i j li lj ne ti tj.
      subst (λ e. frame_of e ≢ frame_of (dir_entry m root j)) (sym (same i li))
        (subst (λ e. frame_of (dir_entry s.words root i) ≢ frame_of e) (sym (same j lj))
          (sp.apart i j li lj ne (subst IsTable (same i li) ti) (subst IsTable (same j lj) tj)));
}

module _ (hi root : ℕ) (s : Vmm) (sp : IsSpace hi root s) (i : ℕ) (li : i < 1024)
    (free : is_valid (dir_entry s.words root i) ≡ false) (left : s.pa_bottom < s.pa_top) where
  abbrev new : ℕ
  new = s.pa_top - 4096

  abbrev pub linked : Vmm
  linked = record s {
    pa_top = new;
    words = store (clear_page s.words (new + kva_offset)) (root + kva_offset + 4 * i) (new / 4 + 1);
  }

  pub new_page : (new % 4096 ≡ 0) × (s.pa_bottom ≤ new) × (new + 4096 ≡ s.pa_top)
  new_page = let a = sp.bottom_page in let b = sp.top_page in ground arith

  pub new_entry : IsTable (new / 4 + 1) × (frame_of (new / 4 + 1) ≡ new)
  new_entry = let a = new_page.0 in ground arith

  pub dir_linked_self : dir_entry linked.words root i ≡ new / 4 + 1
  dir_linked_self = ground arith

  pub dir_linked_ne :
      (j : ℕ) → j < 1024 → j ≢ i → dir_entry linked.words root j ≡ dir_entry s.words root j
  dir_linked_ne j lj ne = let a = new_page in let b = sp.dir in ground arith

  -- The tables that were there keep their entries, and the new one has none.
  pub old_table :
      (page k : ℕ)
      → k < 1024
      → InUse s hi page
      → page ≢ root
      → linked.words (page + kva_offset + 4 * k) ≡ s.words (page + kva_offset + 4 * k)
  old_table page k lk use_ ne =
      let a = new_page in
      store_ne (clear_page s.words (new + kva_offset)) (root + kva_offset + 4 * i) (new / 4 + 1)
        (page + kva_offset + 4 * k) (apart_pages page root k i use_.0 sp.dir.0 ne lk li)
      ∙ ground arith

  pub new_table : (k : ℕ) → k < 1024 → linked.words (new + kva_offset + 4 * k) ≡ 0
  new_table k lk = let a = new_page in let b = sp.dir in ground arith

  same_index : (j : ℕ) → j < 1024 → (j ≡ i) ⊎ (j ≢ i)
  same_index j lj = ground arith

  -- An entry is as it was, or links the page that was taken.
  pub linked_tables_from :
      (j : ℕ)
      → j < 1024
      → (dir_entry linked.words root j ≡ dir_entry s.words root j)
        ⊎ (frame_of (dir_entry linked.words root j) + 4096 ≤ s.pa_top)
  linked_tables_from j lj = elim (same_index j lj) [
    | inl e ↦ let a = new_page in inr (rw (e, dir_linked_self, new_entry.1) (omega arith))
    | inr ne ↦ inl (dir_linked_ne j lj ne)
  ]

  linked_tables :
      (j : ℕ)
      → j < 1024
      → IsTable (dir_entry linked.words root j)
      → InUse linked hi (frame_of (dir_entry linked.words root j))
        × (frame_of (dir_entry linked.words root j) ≢ root)
  linked_tables j lj t = elim (same_index j lj) [
    | inl e ↦
        let a = new_page in
        let b = sp.dir in let c = sp.top_hi in rw (e, dir_linked_self, new_entry.1) (ground arith)
    | inr ne ↦
        let same = dir_linked_ne j lj ne in
        let old = sp.tables j lj (subst IsTable same t) in rw same (ground arith)
  ]

  new_apart :
      (j : ℕ)
      → j < 1024
      → j ≢ i
      → IsTable (dir_entry s.words root j)
      → frame_of (dir_entry s.words root j) ≢ new
  new_apart j lj ne t = let a = new_page in let b = sp.tables j lj t in ground arith

  linked_apart :
      (j k : ℕ)
      → j < 1024
      → k < 1024
      → j ≢ k
      → IsTable (dir_entry linked.words root j)
      → IsTable (dir_entry linked.words root k)
      → frame_of (dir_entry linked.words root j) ≢ frame_of (dir_entry linked.words root k)
  linked_apart j k lj lk ne tj tk = elim (same_index j lj) [
    | inl e ↦
        let nk : k ≢ i = λ e'. ne (e ∙ sym e') in
        let same = dir_linked_ne k lk nk in
        rw (e, dir_linked_self, new_entry.1, same)
          (λ q. new_apart k lk nk (subst IsTable same tk) (sym q))
    | inr nj ↦
        let same = dir_linked_ne j lj nj in
        let tj' = subst IsTable same tj in
        elim (same_index k lk) [
          | inl e ↦ rw (e, dir_linked_self, new_entry.1, same) (new_apart j lj nj tj')
          | inr nk ↦
              let same' = dir_linked_ne k lk nk in
              rw (same, same') (sp.apart j k lj lk ne tj' (subst IsTable same' tk))
        ]
  ]

  pub linked-IsSpace : IsSpace hi root linked
  linked-IsSpace = record {
    below = sp.below;
    bottom_page = sp.bottom_page;
    top_page = new_page.0;
    ordered = new_page.1;
    top_hi = let a = new_page in let b = sp.top_hi in omega arith;
    dir = let a = new_page in let b = sp.dir in ground arith;
    tables = linked_tables;
    apart = linked_apart;
  }

  -- The new table has no entry yet, so the translation is the same.
  pub translate-linked :
      (va : ℕ) → va < 2 ^ 32 → translate linked.words root va ≡ translate s.words root va
  unfolding translate
  translate-linked va hv = elim (same_index (va / 2 ^ 22) (omega arith)) [
    | inl e ↦
        let old = dir_entry s.words root i in
        let last = last_entry linked.words (new / 4 + 1) va in
        let empty : last ≡ 0 = rw new_entry.1 (new_table (va / 2 ^ 12 % 1024) (omega arith)) in
        rw (e, dir_linked_self)
          (walk_empty (new / 4 + 1) last va new_entry.0 (ground (arith, empty))
            ∙ sym (walk_invalid old (last_entry s.words old va) va free))
    | inr ne ↦
        let same = dir_linked_ne (va / 2 ^ 22) (omega arith) ne in
        let pte = dir_entry s.words root (va / 2 ^ 22) in
        rw same (
          walk-same pte (last_entry linked.words pte va) (last_entry s.words pte va) va (λ t.
            let in_use = sp.tables (va / 2 ^ 22) (omega arith) t in
            old_table (frame_of pte) (va / 2 ^ 12 % 1024) (omega arith) in_use.0 in_use.1))
  ]

  -- The new table has room for every page that it is for.
  pub linked-HasRoom : (va : ℕ) → va / 2 ^ 22 ≡ i → HasRoom linked.words root va
  linked-HasRoom va e =
      let entry = new_entry in
      let last : last_entry linked.words (new / 4 + 1) va ≡ 0 =
        rw entry.1 (new_table (va / 2 ^ 12 % 1024) (omega arith)) in
      subst (λ pte. IsTable pte × (is_valid (last_entry linked.words pte va) ≡ false))
        (sym (ap (dir_entry linked.words root) e ∙ dir_linked_self)) (entry.0, ground (arith, last))

  pub linked-IsVacant :
      (va : ℕ) → va < 2 ^ 32 → IsVacant s.words root va → IsVacant linked.words root va
  linked-IsVacant va hv vacant = elim (same_index (va / 2 ^ 22) (omega arith)) [
    | inl e ↦ inr (linked-HasRoom va e)
    | inr ne ↦
        let same = dir_linked_ne (va / 2 ^ 22) (omega arith) ne in
        elim vacant [
          | inl empty ↦ inl (subst (λ pte. is_valid pte ≡ false) (sym same) empty)
          | inr room ↦
              let pte = dir_entry s.words root (va / 2 ^ 22) in
              let in_use = sp.tables (va / 2 ^ 22) (omega arith) room.0 in
              let last : last_entry linked.words pte va ≡ last_entry s.words pte va =
                old_table (frame_of pte) (va / 2 ^ 12 % 1024) (omega arith) in_use.0 in_use.1 in
              inr (
                subst (λ pte. IsTable pte × (is_valid (last_entry linked.words pte va) ≡ false))
                  (sym same) (room.0, subst (λ e. is_valid e ≡ false) (sym last) room.1))
        ]
  ]
