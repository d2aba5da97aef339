-- ===== src/Example20/Identity.antt =====
-- What the table of `start` in example/ex20-mmu.c translates.
use os_workshop.Base.{
  ℕ, ◌+◌, ◌*◌, ◌/◌, ◌%◌, ◌^◌, ◌<◌, ◌≡◌, ◌==◌, leb, ltb, ◌&&◌, ◌||◌, if◌then◌else◌, Option, none,
  some, Memory, arith,
}
use os_workshop.Xos.Vmm.Sv32.{frame_of, walk}
use os_workshop.Example20.{start_table}

-- The flags of an address: the megapage that is to be watched has neither A nor D.
abbrev pub flags_at : ℕ → ℕ
flags_at va =
    if leb 0x41800000 va && ltb va 0x41C00000
    then 0x0F
    else if ltb va 0x80000000
    then 0xCF
    else 0xC7

start_entry :
    (words : Memory) (i : ℕ)
    → i < 1024
    → (start_table words).1 ((start_table words).0 + 4 * i) ≡ (
        if i == 0x3C0
        then 0xF0000000 / 4 + 0xC7
        else if i == 0x106
        then 0x41800000 / 4 + 0x0F
        else if leb 0x100 i && ltb i 0x108
        then i * 2 ^ 20 + 0xCF
        else 0)
unfolding start_table
start_entry words i lt = ground arith

-- The translation of Sv32 by the table at `root`, with addresses as they are without a mapping.
abbrev pub translate : Memory → (root va : ℕ) → Option (ℕ × ℕ)
translate m root va =
    let pte = m (root + 4 * (va / 2 ^ 22)) in
    walk pte (m (frame_of pte + 4 * (va / 2 ^ 12 % 1024))) va

-- The table of ex20 translates each address of the first 32 MB of memory and of the 4 MB from
-- 0xF0000000 on to itself, and no other; the 4 MB from 0x41800000 on have neither the accessed nor
-- the dirty flag, and only memory can be executed.
pub start_table_lem :
    (words : Memory) (va : ℕ)
    → va < 2 ^ 32
    → translate (start_table words).1 (start_table words).0 va ≡ (
        if (leb 0x40000000 va && ltb va 0x42000000) || (leb 0xF0000000 va && ltb va 0xF0400000)
        then some (va, flags_at va)
        else none)
start_table_lem words va lt = rw (start_entry words (va / 2 ^ 22) (omega arith)) (ground arith)
