-- ===== src/Tests/XosTests.antt =====
-- The kernel's page tables at one address space.
use os_workshop.Base.{
  ◌+◌, ◌/◌, ◌%◌, ◌^◌, ◌≡◌, ◌≢◌, ◌⊎◌, ◌↔◌, inr, refl, true, false, none, some, arith,
}
use os_workshop.Xos.Vmm.{Vmm, kva_offset, is_valid, vm_map_4k, vm_map_4m, vmm_init, xos_ok}
use os_workshop.Xos.Vmm.Sv32.{dir_entry, IsSpace}
use os_workshop.Xos.Vmm.Alloc.{IsPool}
use os_workshop.Xos.Vmm.Maps.{AddsPage, vm_map_4k_maps, vm_map_4k_panics}
use os_workshop.Xos.Vmm.Mega.{AddsMegapage, vm_map_4m_lem}

-- The directory is the only page that was taken.
abbrev kernel : Vmm
kernel = vmm_init 0x40010000 0x403fe000 (record { pa_bottom = 0; pa_top = 0; words = λ _. 0 })

kernel-IsPool : IsPool kernel
kernel-IsPool = record {
  bottom_page = refl;
  top_page = refl;
  ordered = omega arith;
  below = omega arith;
}

kernel-IsSpace : IsSpace 0x403ff000 0x403fe000 kernel
kernel-IsSpace = record {
  below = omega arith;
  bottom_page = refl;
  top_page = refl;
  ordered = omega arith;
  top_hi = omega arith;
  dir = (refl, omega arith, omega arith);
  tables = λ i lt t. ground arith;
  apart = λ i j li lj ne ti tj. ground arith;
}

-- USER_RWX
vm_map_4k_maps_example :
    (s' : Vmm) × (vm_map_4k (0x403fe000 + kva_offset) 0x10000000 0x41000000 0xdf kernel
      ≡ some (xos_ok, s'))
    × AddsPage 0x403ff000 0x403fe000 0x10000000 0x41000000 0xdf kernel s'
vm_map_4k_maps_example =
    vm_map_4k_maps 0x403ff000 0x403fe000 0x10000000 0x41000000 0xdf kernel kernel-IsSpace
      (omega arith) (omega arith) refl refl (refl, refl, refl) (inr (refl, omega arith))

vm_map_4k_panics_example :
    (vm_map_4k (0x403fe000 + kva_offset) 0x10000000 0x41000000 0xdf kernel ≡ none) ↔ (
      (0x10000000 % 4096 ≡ 0)
      × (0x41000000 % 4096 ≡ 0)
      × (is_valid (dir_entry kernel.words 0x403fe000 (0x10000000 / 2 ^ 22)) ≡ false)
      × (kernel.pa_bottom ≡ kernel.pa_top))
vm_map_4k_panics_example =
    vm_map_4k_panics 0x403ff000 0x403fe000 0x10000000 0x41000000 0xdf kernel kernel-IsSpace
      (omega arith) (omega arith)

vm_map_4m_lem_example :
    ((0xF0000000 % 0x400000 ≡ 0)
      × (0xF0000000 % 0x400000 ≡ 0)
      × (is_valid (dir_entry kernel.words 0x403fe000 (0xF0000000 / 2 ^ 22)) ≡ false)
      × (s' : Vmm) × (vm_map_4m (0x403fe000 + kva_offset) 0xF0000000 0xF0000000 0xc7 kernel
          ≡ (xos_ok, s'))
      × AddsMegapage 0x403ff000 0x403fe000 0xF0000000 0xF0000000 0xc7 kernel s')
    ⊎ ((0xF0000000 % 0x400000 ≢ 0)
        ⊎ (0xF0000000 % 0x400000 ≢ 0)
        ⊎ (is_valid (dir_entry kernel.words 0x403fe000 (0xF0000000 / 2 ^ 22)) ≡ true))
      × ((vm_map_4m (0x403fe000 + kva_offset) 0xF0000000 0xF0000000 0xc7 kernel).0 ≢ xos_ok)
      × ((vm_map_4m (0x403fe000 + kva_offset) 0xF0000000 0xF0000000 0xc7 kernel).1 ≡ kernel)
vm_map_4m_lem_example =
    vm_map_4m_lem 0x403ff000 0x403fe000 0xF0000000 0xF0000000 0xc7 kernel kernel-IsSpace
      (omega arith) (omega arith) (refl, refl, refl)
