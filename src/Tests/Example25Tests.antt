-- ===== src/Tests/Example25Tests.antt =====
-- The tables of an image of three pages, in a memory of 8 megabytes.
use os_workshop.Base.{◌≡◌, some, arith, refl}
use os_workshop.Xos.Vmm.{Vmm, kpage_alloc_z, vm_map_4k}
use os_workshop.Xos.Kernel.{Image, kernel_tables}
use os_workshop.Example25.{start_tables}
use os_workshop.Example25.SameTables.{IsLinked, pages_of, start_tables_lem}

abbrev small : Image
small = record {
  text_start = 0xC03FD000;
  rodata_start = 0xC03FE000;
  data_start = 0xC03FF000;
  image_end = 0xC0400000;
  memory_top = 0xC0800000;
}

abbrev empty : Vmm
empty = record { pa_bottom = 0; pa_top = 0; words = λ _. 0 }

small-IsLinked : IsLinked small
small-IsLinked = record {
  text_page = refl;
  rodata_page = refl;
  data_page = refl;
  rodata_behind = omega arith;
  data_behind = omega arith;
  end_behind = omega arith;
}

built : (s' : Vmm) × (kernel_tables small empty ≡ some (0xC07FD000, s'))
unfolding kernel_tables kpage_alloc_z vm_map_4k
built = (_, refl)

start_tables_lem_example :
    ((start_tables small (λ _. 0)).0 ≡ 0xC07FD000)
    × ((start_tables small (λ _. 0)).1 ≡ pages_of built.0)
start_tables_lem_example = start_tables_lem small empty 0xC07FD000 built.0 small-IsLinked built.1
