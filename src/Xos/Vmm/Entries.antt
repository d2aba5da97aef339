-- ===== src/Xos/Vmm/Entries.antt =====
-- What one changed word does to the translation.
use os_workshop.Base.{
  false, ℕ, ◌+◌, ◌*◌, ◌/◌, ◌%◌, ◌^◌, ◌<◌, ◌≡◌, ◌==◌, ◌≢◌, true, some, Memory, arith, Bool-cases,
  inl, inr, sym, ==_iff,
}
use mathlib.Core.Path.{subst}
use os_workshop.Xos.Vmm.{store, kva_offset, is_valid, is_leaf}
use os_workshop.Xos.Vmm.Sv32.{
  frame_of, is_reserved, dir_entry, walk, last_entry, translate, IsTable, IsVacant,
}

-- Words of different pages are different.
pub apart_pages :
    (p q i j : ℕ)
    → p % 4096 ≡ 0
    → q % 4096 ≡ 0
    → p ≢ q
    → i < 1024
    → j < 1024
    → p + kva_offset + 4 * i ≢ q + kva_offset + 4 * j
apart_pages p q i j hp hq ne hi hj = ground arith

pub store_ne : (m : Memory) (a v j : ℕ) → j ≢ a → store m a v j ≡ m j
store_ne m a v j h = ground arith

pub store_self : (m : Memory) (a v : ℕ) → store m a v a ≡ v
store_self m a v = ground arith

pub walk-same : (pte x y va : ℕ) → (IsTable pte → x ≡ y) → walk pte x va ≡ walk pte y va
walk-same pte x y va h = ground arith

walk_table :
    (pte v va : ℕ)
    → IsTable pte
    → is_valid v ≡ true
    → is_leaf v ≡ true
    → is_reserved v ≡ false
    → walk pte v va ≡ some (frame_of v + va % 4096, v % 1024)
walk_table pte v va t valid leaf allowed = ground arith

module _ (m : Memory) (root va v : ℕ) (page : root % 4096 ≡ 0) (hv : va < 2 ^ 32)
    (table : IsTable (dir_entry m root (va / 2 ^ 22)))
    (apart : frame_of (dir_entry m root (va / 2 ^ 22)) ≢ root) where
  abbrev last_at : ℕ
  last_at = frame_of (dir_entry m root (va / 2 ^ 22)) + kva_offset + 4 * (va / 2 ^ 12 % 1024)

  -- A store into the table of `va` spares the directory.
  pub dir_entry-store_last :
      (i : ℕ) → i < 1024 → dir_entry (store m last_at v) root i ≡ dir_entry m root i
  dir_entry-store_last i hi = store_ne m last_at v (root + kva_offset + 4 * i) (
      apart_pages root (frame_of (dir_entry m root (va / 2 ^ 22))) i (va / 2 ^ 12 % 1024) page
        (omega arith) (λ e. apart (sym e)) hi (omega arith))

  -- A leaf in the table of `va` decides the page of `va`.
  pub translate-store_hit :
      (va' : ℕ)
      → is_valid v ≡ true
      → is_leaf v ≡ true
      → is_reserved v ≡ false
      → va' / 4096 ≡ va / 4096
      → translate (store m last_at v) root va' ≡ some (frame_of v + va' % 4096, v % 1024)
  unfolding translate
  translate-store_hit va' valid leaf allowed same =
      let i : va' / 2 ^ 22 ≡ va / 2 ^ 22 = omega arith in
      let j : va' / 2 ^ 12 % 1024 ≡ va / 2 ^ 12 % 1024 = omega arith in
      let kept = dir_entry-store_last (va / 2 ^ 22) (omega arith) in
      rw (i, kept, j, store_self m last_at v)
        (walk_table (dir_entry m root (va / 2 ^ 22)) v va' table valid leaf allowed)

  -- The entry of another page is another word.
  other_last_at :
      (va' : ℕ)
      → va' < 2 ^ 32
      → (va' / 2 ^ 22 ≢ va / 2 ^ 22
          → IsTable (dir_entry m root (va' / 2 ^ 22))
          → frame_of (dir_entry m root (va' / 2 ^ 22)) ≢ frame_of (dir_entry m root (va / 2 ^ 22)))
      → va' / 4096 ≢ va / 4096
      → IsTable (dir_entry m root (va' / 2 ^ 22))
      → frame_of (dir_entry m root (va' / 2 ^ 22)) + kva_offset + 4 * (va' / 2 ^ 12 % 1024)
        ≢ last_at
  other_last_at va' hv' others other t = elim (Bool-cases (va' / 2 ^ 22 == va / 2 ^ 22)) [
    | inl e ↦
        let i : va' / 2 ^ 22 ≡ va / 2 ^ 22 = (==_iff (va' / 2 ^ 22) (va / 2 ^ 22)).0 e in
        rw i (λ q. other (omega arith))
    | inr e ↦
        apart_pages (frame_of (dir_entry m root (va' / 2 ^ 22)))
          (frame_of (dir_entry m root (va / 2 ^ 22))) (va' / 2 ^ 12 % 1024) (va / 2 ^ 12 % 1024)
          (omega arith) (omega arith) (others (ground arith) t) (omega arith) (omega arith)
  ]

  -- It decides no other page, if no other entry of the directory has the same table.
  pub translate-store_miss :
      (va' : ℕ)
      → va' < 2 ^ 32
      → (va' / 2 ^ 22 ≢ va / 2 ^ 22
          → IsTable (dir_entry m root (va' / 2 ^ 22))
          → frame_of (dir_entry m root (va' / 2 ^ 22)) ≢ frame_of (dir_entry m root (va / 2 ^ 22)))
      → va' / 4096 ≢ va / 4096
      → translate (store m last_at v) root va' ≡ translate m root va'
  unfolding translate
  translate-store_miss va' hv' others other =
      let kept = dir_entry-store_last (va' / 2 ^ 22) (omega arith) in
      let pte' = dir_entry m root (va' / 2 ^ 22) in
      rw kept (
        walk-same pte' (last_entry (store m last_at v) pte' va') (last_entry m pte' va') va' (λ t.
          store_ne m last_at v (frame_of pte' + kva_offset + 4 * (va' / 2 ^ 12 % 1024))
            (other_last_at va' hv' others other t)))

  -- Nor does it take the place of another page.
  pub IsVacant-store_miss :
      (va' : ℕ)
      → va' < 2 ^ 32
      → (va' / 2 ^ 22 ≢ va / 2 ^ 22
          → IsTable (dir_entry m root (va' / 2 ^ 22))
          → frame_of (dir_entry m root (va' / 2 ^ 22)) ≢ frame_of (dir_entry m root (va / 2 ^ 22)))
      → va' / 4096 ≢ va / 4096
      → IsVacant m root va'
      → IsVacant (store m last_at v) root va'
  IsVacant-store_miss va' hv' others other (inl e) = inl (
      subst (λ pte. is_valid pte ≡ false) (sym (dir_entry-store_last (va' / 2 ^ 22) (omega arith)))
        e)
  IsVacant-store_miss va' hv' others other (inr room) =
      let kept = dir_entry-store_last (va' / 2 ^ 22) (omega arith) in
      let pte' = dir_entry m root (va' / 2 ^ 22) in
      let last : last_entry (store m last_at v) pte' va' ≡ last_entry m pte' va' =
        store_ne m last_at v (frame_of pte' + kva_offset + 4 * (va' / 2 ^ 12 % 1024))
          (other_last_at va' hv' others other room.0) in
      inr (
        subst (λ pte. IsTable pte × (is_valid (last_entry (store m last_at v) pte va') ≡ false))
          (sym kept) (room.0, subst (λ e. is_valid e ≡ false) (sym last) room.1))
