-- ===== src/Tests/Example20Tests.antt =====
-- The table of ex20 in an empty memory.
use os_workshop.Base.{◌≡◌, some, Memory, arith, refl}
use os_workshop.Example20.{PteLine, start_table, dump_mmu}
use os_workshop.Example20.Identity.{translate, start_table_lem}
use os_workshop.Example20.Dumped.{Shows, dump_mmu_lem}
use mathlib.Core.List.{Mem}

abbrev empty : Memory
empty a = 0

-- An address without the accessed and the dirty flag.
start_table_lem_example :
    translate (start_table empty).1 (start_table empty).0 0x41900123 ≡ some (0x41900123, 0x0F)
start_table_lem_example = start_table_lem empty 0x41900123 (omega arith)

dump_mmu_lem_example :
    (l : PteLine) × Mem l (dump_mmu (λ _. 0) (start_table empty).1 0x403FF000)
    × Shows 0x41900123 0x41900123 0x0F l
unfolding start_table
dump_mmu_lem_example =
    dump_mmu_lem (λ _. 0) (start_table empty).1 0x403FF000 0x41900123 0x41900123 0x0F (omega arith)
      (omega arith) (omega arith) refl
