-- ===== src/Example20/Dumped.antt =====
-- What `dump_mmu` of example/ex20-mmu.c shows of the translation.
use mathlib.Core.List.{
  Mem, mem-append_left, mem-append_right, mem-cons_self, mem-cons_of_mem, mem-cast,
}
use mathlib.Core.Path.{subst}
use os_workshop.Base.{
  ℕ, zero, suc, ◌+◌, ◌-◌, ◌*◌, ◌/◌, ◌%◌, ◌^◌, ◌<◌, ◌≤◌, ◌≡◌, ◌==◌, inl, inr, ◌⊎◌, if◌then◌else◌,
  List, [], ◌∷◌, get_or, wr8, u32, some, true, false, Memory, arith, refl, ap, ap₂, ◌∙◌, sym,
}
use os_workshop.Boot.Console.Strings.{Spells, string_at-Spells}
use os_workshop.Xos.Vmm.{is_valid, is_leaf, pte_pa}
use os_workshop.Xos.Vmm.Sv32.{frame_of, walk}
use os_workshop.Example20.{
  PteLine, flag_names, set_bits, dump_pte, dump_mmu0, dump_entry, dump_loop, dump_mmu,
}
use os_workshop.Example20.Identity.{translate}

-- The letter of a flag, or a dash.
abbrev pub flag : (pte n : ℕ) → ℕ
flag pte n = if pte / 2 ^ n % 2 == 0 then b'-' else get_or flag_names n 0

-- From the highest flag to the lowest.
abbrev pub flag_text : ℕ → List ℕ
flag_text pte =
    flag pte 9
    ∷ flag pte 8
    ∷ flag pte 7
    ∷ flag pte 6
    ∷ flag pte 5
    ∷ flag pte 4
    ∷ flag pte 3
    ∷ flag pte 2
    ∷ flag pte 1
    ∷ flag pte 0
    ∷ []

bits_text :
    (pte : ℕ) (bits : Memory)
    → Spells (wr8 (set_bits pte 10 0 bits) 10 0) 0 (flag_text (pte % 1024))
unfolding set_bits
bits_text pte bits = ground arith

-- A line says where the page of an address is, and its flags.
pub record Shows (va pa flags : ℕ) (l : PteLine) : Type 0 where
  pub from : l.vaddr ≤ va
  pub within : va < l.vaddr + l.sz
  pub place : pa ≡ l.paddr * 16 + (va - l.vaddr)
  pub letters : l.bits ≡ flag_text flags

dump_pte-Shows :
    (bits : Memory) (addr vaddr pte sz va : ℕ)
    → vaddr ≤ va
    → va < vaddr + sz
    → Shows va (frame_of pte + (va - vaddr)) (pte % 1024) (dump_pte bits addr vaddr pte sz)
unfolding dump_pte
dump_pte-Shows bits addr vaddr pte sz va from within = record {
  from = from;
  within = within;
  place = omega arith;
  letters =
      string_at-Spells (wr8 (set_bits pte 10 0 bits) 10 0) 0 11 (flag_text (pte % 1024))
        (bits_text pte bits) (omega arith);
}

Shows-cast :
    {va pa pa' flags flags' : ℕ} {l : PteLine}
    → pa ≡ pa'
    → flags ≡ flags'
    → Shows va pa flags l
    → Shows va pa' flags' l
Shows-cast place same s = record {
  from = s.from;
  within = s.within;
  place = sym place ∙ s.place;
  letters = s.letters ∙ ap flag_text same;
}

module _ (bits words : Memory) (ptbl vaddr : ℕ) where
  abbrev table_line : ℕ → PteLine
  table_line k =
      dump_pte bits (u32 (ptbl + k * 4)) (vaddr + k * 2 ^ 12) (words (u32 (ptbl + k * 4))) 4096

  table_line-Mem :
      (left n i k : ℕ)
      → i < left
      → k ≡ n + i
      → Mem (table_line k) (dump_mmu0 bits words left n ptbl vaddr)
  unfolding dump_mmu0
  table_line-Mem zero n i k lt e = absurd (omega arith)
  table_line-Mem (suc left) n zero k lt e =
      mem-cast (ap table_line (omega (arith, e))) mem-cons_self
  table_line-Mem (suc left) n (suc i) k lt e =
      mem-cons_of_mem _ (table_line-Mem left (n + 1) i k (omega arith) (omega (arith, e)))

module _ (bits words : Memory) (ptbl : ℕ) (line : PteLine) where
  dump_entry-Mem :
      (left n i k : ℕ)
      → i < left
      → k ≡ n + i
      → Mem line (dump_entry bits words k ptbl)
      → Mem line (dump_loop bits words left n ptbl)
  unfolding dump_loop
  dump_entry-Mem zero n i k lt e m = absurd (omega arith)
  dump_entry-Mem (suc left) n zero k lt e m =
      mem-append_left _ (subst (λ x. Mem line (dump_entry bits words x ptbl)) (omega (arith, e)) m)
  dump_entry-Mem (suc left) n (suc i) k lt e m =
      mem-append_right _ (dump_entry-Mem left (n + 1) i k (omega arith) (omega (arith, e)) m)

walk-cases :
    (pte last va pa flags : ℕ)
    → walk pte last va ≡ some (pa, flags)
    → (is_valid pte ≡ true)
      × (((is_leaf pte ≡ true) × (frame_of pte + va % 2 ^ 22 ≡ pa) × (pte % 1024 ≡ flags))
          ⊎ ((is_leaf pte ≡ false) × (frame_of last + va % 4096 ≡ pa) × (last % 1024 ≡ flags)))
walk-cases pte last va pa flags e = ground arith

module _ (bits words : Memory) (ptbl k : ℕ) where
  abbrev entry : ℕ
  entry = words (u32 (ptbl + k * 4))

  abbrev mega_line : PteLine
  mega_line = dump_pte bits (u32 (ptbl + k * 4)) (u32 (k * 2 ^ 22)) entry 0x400000

  dump_entry-leaf :
      is_valid entry ≡ true → is_leaf entry ≡ true → dump_entry bits words k ptbl ≡ mega_line ∷ []
  unfolding dump_entry
  dump_entry-leaf v l = rw (v, l) refl

  dump_entry-table :
      is_valid entry ≡ true
      → is_leaf entry ≡ false
      → dump_entry bits words k ptbl
        ≡ mega_line ∷ dump_mmu0 bits words 1024 0 (pte_pa entry) (u32 (k * 2 ^ 22))
  unfolding dump_entry
  dump_entry-table v l = rw (v, l) refl

  -- The line that shows a translation by this entry.
  entry_lem :
      (va pa flags : ℕ)
      → k < 1024
      → va / 2 ^ 22 ≡ k
      → frame_of entry + 4096 ≤ 2 ^ 32
      → walk entry (words (frame_of entry + 4 * (va / 2 ^ 12 % 1024))) va ≡ some (pa, flags)
      → (l : PteLine) × Mem l (dump_entry bits words k ptbl) × Shows va pa flags l
  entry_lem va pa flags lt here small e =
      let i = va / 2 ^ 12 % 1024 in
      let vaddr = u32 (k * 2 ^ 22) in
      let (valid, found) = walk-cases entry (words (frame_of entry + 4 * i)) va pa flags e in
      elim found [
        | inl (leaf, place, same) ↦ (
          mega_line,
          subst (λ ls. Mem mega_line ls) (sym (dump_entry-leaf valid leaf)) mem-cons_self,
          Shows-cast (ap (λ d. frame_of entry + d) (omega (arith, here)) ∙ place) same (
              dump_pte-Shows bits (u32 (ptbl + k * 4)) vaddr entry 0x400000 va (omega (arith, here))
                (omega (arith, here))),
        )
        | inr (table, place, same) ↦
            let last : words (u32 (pte_pa entry + i * 4)) ≡ words (frame_of entry + 4 * i) =
              ap words (omega (arith, small)) in
            let line = table_line bits words (pte_pa entry) vaddr i in
            (
              line,
              subst (λ ls. Mem line ls) (sym (dump_entry-table valid table))
                  (mem-cons_of_mem mega_line (
                    table_line-Mem bits words (pte_pa entry) vaddr 1024 0 i i (omega arith)
                      (omega arith))),
              Shows-cast (ap₂ (λ x d. frame_of x + d) last (omega (arith, here)) ∙ place)
                  (ap (λ x. x % 1024) last ∙ same)
                  (dump_pte-Shows bits (u32 (pte_pa entry + i * 4)) (vaddr + i * 2 ^ 12)
                    (words (u32 (pte_pa entry + i * 4))) 4096 va (omega (arith, here))
                    (omega (arith, here))),
            )
      ]

-- For a directory and a page table that lie below 2 ^ 32: whatever address Sv32 translates, one of the
-- lines of dump_mmu shows, with the place and the flags that the translation gives.
pub dump_mmu_lem :
    (bits words : Memory) (ptbl va pa flags : ℕ)
    → ptbl + 4096 ≤ 2 ^ 32
    → va < 2 ^ 32
    → frame_of (words (ptbl + 4 * (va / 2 ^ 22))) + 4096 ≤ 2 ^ 32
    → translate words ptbl va ≡ some (pa, flags)
    → (l : PteLine) × Mem l (dump_mmu bits words ptbl) × Shows va pa flags l
unfolding dump_mmu
dump_mmu_lem bits words ptbl va pa flags low lt small e =
    let k = va / 2 ^ 22 in
    let at : ptbl + 4 * k ≡ u32 (ptbl + k * 4) = omega (arith, low, lt) in
    let (l, m, s) =
      entry_lem bits words ptbl k va pa flags (omega (arith, lt)) refl
        (subst (λ a. frame_of (words a) + 4096 ≤ 2 ^ 32) at small)
        (subst
          (λ a.
            walk (words a) (words (frame_of (words a) + 4 * (va / 2 ^ 12 % 1024))) va
            ≡ some (pa, flags))
          at e) in
    (l, dump_entry-Mem bits words ptbl l 1024 0 k k (omega (arith, lt)) (omega arith) m, s)
