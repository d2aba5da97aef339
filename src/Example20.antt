-- ===== src/Example20.antt =====
-- example/ex20-mmu.c: the page table that `start` makes, and what `dump_mmu` shows of one. Entries are
-- those of Xos.Vmm; the memory is one of words. Before the MMU is on, addresses are physical.
pub mod Identity
pub mod Dumped
use os_workshop.Base.{
  ℕ, zero, suc, ◌+◌, ◌-◌, ◌*◌, ◌/◌, ◌%◌, ◌^◌, ◌==◌, if◌then◌else◌, Bool, true, false, List, [], ◌∷◌,
  ◌++◌, Memory, get_or, wr8, u32, sub32,
}
use os_workshop.Xos.Vmm.{store, clear_page, is_valid, is_leaf, pte_pa}
use os_workshop.Boot.LineEditor.{string_at}

-- A line of the dump: its first three numbers are followed by a 0, the size and the flags.
pub record PteLine : Type 0 where
  pub addr : ℕ
  pub vaddr : ℕ
  pub paddr : ℕ
  pub sz : ℕ
  pub bits : List ℕ

-- "vrwxugad01"
abbrev pub flag_names : List ℕ
flag_names = b'v' ∷ b'r' ∷ b'w' ∷ b'x' ∷ b'u' ∷ b'g' ∷ b'a' ∷ b'd' ∷ b'0' ∷ b'1' ∷ []

-- `for (unsigned n = 0; n < 10; n++)`, with the rounds left.
unfoldable pub set_bits : (pte left n : ℕ) → Memory → Memory
set_bits pte zero n bits = bits
set_bits pte (suc left) n bits =
    let c = if pte / 2 ^ n % 2 == 0 then b'-' else get_or flag_names n 0 in
    set_bits pte left (n + 1) (wr8 bits (9 - n) c)

-- `bits` is what the array holds before.
unfoldable pub dump_pte : (bits : Memory) → (addr vaddr pte sz : ℕ) → PteLine
unfolding set_bits
dump_pte bits addr vaddr pte sz = record {
  addr = addr;
  vaddr = vaddr;
  paddr = pte / 1024 * 1024 / 4;
  sz = sz;
  bits = string_at (wr8 (set_bits pte 10 0 bits) 10 0) 0 11;
}

-- `for (unsigned n = 0; n < 1024; n++)`, with the rounds left; `vaddr` has no bits below 2 ^ 22.
unfoldable pub dump_mmu0 : (bits words : Memory) → (left n ptbl vaddr : ℕ) → List PteLine
dump_mmu0 bits words zero n ptbl vaddr = []
dump_mmu0 bits words (suc left) n ptbl vaddr =
    let addr = u32 (ptbl + n * 4) in
    dump_pte bits addr (vaddr + n * 2 ^ 12) (words addr) 4096
    ∷ dump_mmu0 bits words left (n + 1) ptbl vaddr

unfoldable pub dump_entry : (bits words : Memory) → (n ptbl : ℕ) → List PteLine
dump_entry bits words n ptbl =
    let addr = u32 (ptbl + n * 4) in
    let pte = words addr in
    if is_valid pte
    then dump_pte bits addr (u32 (n * 2 ^ 22)) pte 0x400000
      ∷ (if is_leaf pte then [] else dump_mmu0 bits words 1024 0 (pte_pa pte) (u32 (n * 2 ^ 22)))
    else []

unfoldable pub dump_loop : (bits words : Memory) → (left n ptbl : ℕ) → List PteLine
dump_loop bits words zero n ptbl = []
dump_loop bits words (suc left) n ptbl =
    dump_entry bits words n ptbl ++ dump_loop bits words left (n + 1) ptbl

unfoldable pub dump_mmu : (bits words : Memory) → (ptbl : ℕ) → List PteLine
dump_mmu bits words ptbl = dump_loop bits words 1024 0 ptbl

-- `alloc_top` is 4 MB above the start of memory.
abbrev pub alloc_page : (alloc_top : ℕ) → ℕ
alloc_page alloc_top = sub32 alloc_top 4096

abbrev pub alloc_top : ℕ
alloc_top = 0x40000000 + 4 * 1024 * 1024

-- PTE_D | PTE_A | PTE_X | PTE_W | PTE_R | PTE_V, and the same without PTE_X.
abbrev pub ram_flags : ℕ
ram_flags = 0xCF

abbrev pub mmio_flags : ℕ
mmio_flags = 0xC7

-- `for (phys = 0x40000000 ; phys < 0x42000000; phys += 0x00400000)`, with the rounds left.
unfoldable pub map_ram : (pt1 left phys : ℕ) → Memory → Memory
map_ram pt1 zero phys words = words
map_ram pt1 (suc left) phys words =
    map_ram pt1 left (phys + 0x400000)
      (store words (pt1 + 4 * (phys / 2 ^ 22)) (phys / 4 + ram_flags))

-- The table that `start` makes.
unfoldable pub start_table : Memory → ℕ × Memory
unfolding map_ram
start_table words =
    let pt1 = alloc_page alloc_top in
    let words = map_ram pt1 8 0x40000000 (clear_page words pt1) in
    let seen = pt1 + 4 * (0x41800000 / 2 ^ 22) in
    let words = store words seen (words seen / 256 * 256 + words seen % 64) in
    (pt1, store words (pt1 + 4 * (0xF0000000 / 2 ^ 22)) (0xF0000000 / 4 + mmio_flags))
