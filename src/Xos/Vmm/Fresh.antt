-- ===== src/Xos/Vmm/Fresh.antt =====
-- What a page that the allocator hands out leaves of an address space.
use os_workshop.Base.{
  ℕ, ◌+◌, ◌-◌, ◌*◌, ◌/◌, ◌%◌, ◌^◌, ◌≤◌, ◌<◌, ◌≡◌, ◌≢◌, false, Memory, arith, inl, inr, sym, ◌∙◌,
  ◌⊎◌,
}
use mathlib.Core.Path.{subst}
use os_workshop.Xos.Vmm.{Vmm, kva_offset, is_valid}
use os_workshop.Xos.Vmm.Sv32.{
  IsVacant, frame_of, dir_entry, last_entry, translate, IsTable, InUse, IsSpace,
}
use os_workshop.Xos.Vmm.Entries.{walk-same}
use os_workshop.Xos.Vmm.Alloc.{IsPool, taken}
use os_workshop.Xos.Vmm.Link.{IsSpace-dir}

-- Neither the directory nor one of its tables lies in the page.
abbrev pub Guarded : Memory → (root page : ℕ) → Type 0
Guarded m root page =
    (page ≢ root)
    × ((i : ℕ) → i < 1024 → IsTable (dir_entry m root i) → frame_of (dir_entry m root i) ≢ page)

-- The tables of `s'` are those of `s`, or lie in what was free.
abbrev pub TablesFrom : (root : ℕ) → Vmm → Vmm → Type 0
TablesFrom root s s' =
    (j : ℕ)
    → j < 1024
    → IsTable (dir_entry s'.words root j)
    → (dir_entry s'.words root j ≡ dir_entry s.words root j)
      ⊎ (frame_of (dir_entry s'.words root j) + 4096 ≤ s.pa_top)

pub TablesFrom-trans :
    (root : ℕ) (s s1 s' : Vmm)
    → s1.pa_top ≤ s.pa_top
    → TablesFrom root s s1
    → TablesFrom root s1 s'
    → TablesFrom root s s'
TablesFrom-trans root s s1 s' less first rest j lj t = elim (rest j lj t) [
  | inl same ↦ elim (first j lj (subst IsTable same t)) [
    | inl old ↦ inl (same ∙ old)
    | inr low ↦ inr (rw same low)
  ]
  | inr low ↦ inr (omega arith)
]

-- It stays so while new tables are taken from below it.
pub Guarded-kept :
    (s s' : Vmm) (root page : ℕ)
    → TablesFrom root s s'
    → s.pa_top ≤ page
    → Guarded s.words root page
    → Guarded s'.words root page
Guarded-kept s s' root page tables above g = (
  g.0,
  λ i lt t. elim (tables i lt t) [
    | inl same ↦ rw same (g.1 i lt (subst IsTable same t))
    | inr low ↦ omega arith
  ],
)

module _ (hi root : ℕ) (s : Vmm) (sp : IsSpace hi root s) (left : s.pa_bottom < s.pa_top) where
  pub space-IsPool : IsPool s
  space-IsPool = record {
    bottom_page = sp.bottom_page;
    top_page = sp.top_page;
    ordered = sp.ordered;
    below = let a = sp.below in let b = sp.top_hi in omega arith;
  }

  abbrev page : ℕ
  page = s.pa_top - 4096

  fresh_page : (page % 4096 ≡ 0) × (s.pa_bottom ≤ page) × (page + 4096 ≡ s.pa_top)
  fresh_page = let a = sp.bottom_page in let b = sp.top_page in ground arith

  -- Words of the pages in use are as they were.
  used_word :
      (p k : ℕ)
      → k < 1024
      → InUse s hi p
      → (taken s).words (p + kva_offset + 4 * k) ≡ s.words (p + kva_offset + 4 * k)
  used_word p k lk use_ = let a = fresh_page in ground arith

  pub taken_dir : (j : ℕ) → j < 1024 → dir_entry (taken s).words root j ≡ dir_entry s.words root j
  taken_dir j lj = used_word root j lj sp.dir

  lower-IsSpace : IsSpace hi root (record s { pa_top = page })
  lower-IsSpace =
      let a = fresh_page in
      record {
        below = sp.below;
        bottom_page = sp.bottom_page;
        top_page = a.0;
        ordered = a.1;
        top_hi = let b = sp.top_hi in omega arith;
        dir = let b = sp.dir in omega arith;
        tables = λ i lt t. let b = sp.tables i lt t in ((b.0.0, omega arith, b.0.2), b.1);
        apart = sp.apart;
      }

  pub taken-IsSpace : IsSpace hi root (taken s)
  taken-IsSpace = IsSpace-dir (record s { pa_top = page }) (taken s).words taken_dir lower-IsSpace

  taken_last :
      (va : ℕ)
      → va < 2 ^ 32
      → IsTable (dir_entry s.words root (va / 2 ^ 22))
      → last_entry (taken s).words (dir_entry s.words root (va / 2 ^ 22)) va
        ≡ last_entry s.words (dir_entry s.words root (va / 2 ^ 22)) va
  taken_last va hv t =
      used_word (frame_of (dir_entry s.words root (va / 2 ^ 22))) (va / 2 ^ 12 % 1024) (omega arith)
        (sp.tables (va / 2 ^ 22) (omega arith) t).0

  pub translate-taken :
      (va : ℕ) → va < 2 ^ 32 → translate (taken s).words root va ≡ translate s.words root va
  unfolding translate
  translate-taken va hv =
      let pte = dir_entry s.words root (va / 2 ^ 22) in
      rw (taken_dir (va / 2 ^ 22) (omega arith)) (
        walk-same pte (last_entry (taken s).words pte va) (last_entry s.words pte va) va
          (taken_last va hv))

  pub IsVacant-taken :
      (va : ℕ) → va < 2 ^ 32 → IsVacant s.words root va → IsVacant (taken s).words root va
  IsVacant-taken va hv (inl e) =
      inl (subst (λ pte. is_valid pte ≡ false) (sym (taken_dir (va / 2 ^ 22) (omega arith))) e)
  IsVacant-taken va hv (inr room) = inr (
      subst (λ pte. IsTable pte × (is_valid (last_entry (taken s).words pte va) ≡ false))
        (sym (taken_dir (va / 2 ^ 22) (omega arith)))
        (room.0, subst (λ e. is_valid e ≡ false) (sym (taken_last va hv room.0)) room.1))

  -- The page that was handed out.
  pub page-Guarded : Guarded (taken s).words root page
  page-Guarded =
      let a = fresh_page in
      (
        (let b = sp.dir in omega arith),
        λ i lt t.
            let same = taken_dir i lt in
            let b = sp.tables i lt (subst IsTable same t) in rw same (omega arith),
      )
