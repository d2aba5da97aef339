-- ===== src/Xos/Vmm/Sv32.antt =====
-- The translation of Sv32 in the privileged architecture manual, and what makes a set of tables
-- one that xos/src/vmm.c can extend.
use os_workshop.Base.{
  ◌⊎◌, ℕ, ◌+◌, ◌*◌, ◌/◌, ◌%◌, ◌^◌, ◌≤◌, ◌<◌, ◌≡◌, ◌==◌, ◌≢◌, if◌then◌else◌, ◌&&◌, ◌||◌, not, Bool,
  true, false, Option, none, some, Memory,
}
use os_workshop.Xos.Vmm.{Vmm, is_valid, is_leaf, kva_offset}

-- Where a valid entry that is no leaf finds its table, or a leaf its page.
abbrev pub frame_of : ℕ → ℕ
frame_of pte = pte / 1024 * 4096

-- PTE_W without PTE_R.
abbrev pub is_reserved : ℕ → Bool
is_reserved pte = pte / 4 % 2 == 1 && pte / 2 % 2 == 0

abbrev pub dir_entry : Memory → (root i : ℕ) → ℕ
dir_entry m root i = m (root + kva_offset + 4 * i)

-- The physical address and the flags of the entry that decides it, from an entry of the directory
-- and the entry of its table. A reserved entry faults, and so does a misaligned superpage.
abbrev pub walk : (pte last va : ℕ) → Option (ℕ × ℕ)
walk pte last va =
    if not (is_valid pte) || is_reserved pte
    then none
    else if is_leaf pte
    then (if pte / 1024 % 1024 == 0 then some (frame_of pte + va % 2 ^ 22, pte % 1024) else none)
    else if is_valid last && is_leaf last && not (is_reserved last)
    then some (frame_of last + va % 4096, last % 1024)
    else none

abbrev pub last_entry : Memory → (pte va : ℕ) → ℕ
last_entry m pte va = m (frame_of pte + kva_offset + 4 * (va / 2 ^ 12 % 1024))

-- `root` is the page number in SATP, as an address.
unfoldable pub translate : Memory → (root va : ℕ) → Option (ℕ × ℕ)
translate m root va = let pte = dir_entry m root (va / 2 ^ 22) in walk pte (last_entry m pte va) va

-- A page of memory that was handed out: from the top of what is free up to `hi`.
abbrev pub InUse : Vmm → (hi page : ℕ) → Type 0
InUse s hi page = (page % 4096 ≡ 0) × (s.pa_top ≤ page) × (page + 4096 ≤ hi)

abbrev pub IsTable : ℕ → Type 0
IsTable pte = (is_valid pte ≡ true) × (is_leaf pte ≡ false)

-- The directory has a table for `va`, without an entry at `va`.
abbrev pub HasRoom : Memory → (root va : ℕ) → Type 0
HasRoom m root va =
    let pte = dir_entry m root (va / 2 ^ 22) in
    IsTable pte × (is_valid (last_entry m pte va) ≡ false)

-- Nothing is mapped at `va`, and something can be.
abbrev pub IsVacant : Memory → (root va : ℕ) → Type 0
IsVacant m root va = (is_valid (dir_entry m root (va / 2 ^ 22)) ≡ false) ⊎ HasRoom m root va

-- The directory at `root` and its tables lie in different pages that were handed out.
pub record IsSpace (hi root : ℕ) (s : Vmm) : Type 0 where
  pub below : hi ≤ kva_offset
  pub bottom_page : s.pa_bottom % 4096 ≡ 0
  pub top_page : s.pa_top % 4096 ≡ 0
  pub ordered : s.pa_bottom ≤ s.pa_top
  pub top_hi : s.pa_top ≤ hi
  pub dir : InUse s hi root
  pub tables :
      (i : ℕ)
      → i < 1024
      → IsTable (dir_entry s.words root i)
      → InUse s hi (frame_of (dir_entry s.words root i))
        × (frame_of (dir_entry s.words root i) ≢ root)
  pub apart :
      (i j : ℕ)
      → i < 1024
      → j < 1024
      → i ≢ j
      → IsTable (dir_entry s.words root i)
      → IsTable (dir_entry s.words root j)
      → frame_of (dir_entry s.words root i) ≢ frame_of (dir_entry s.words root j)
