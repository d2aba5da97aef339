-- ===== src/Xos/Kernel/Tables.antt =====
-- The tables of `start` of xos/src/kernel.c: the image they need and what they translate.
pub mod First
pub mod Stages
pub mod Built
use os_workshop.Base.{
  ℕ, ◌+◌, ◌-◌, ◌*◌, ◌/◌, ◌%◌, ◌^◌, ◌≤◌, ◌<◌, ◌≡◌, ◌≢◌, leb, ltb, ◌&&◌, if◌then◌else◌, false, Option,
  none, some, arith, ◌⊎◌, inl, inr, ◌∙◌, ap, ap₂, refl,
}
use os_workshop.Xos.Vmm.{
  Vmm, page_size, kva_offset, kva_to_pa, is_valid, vm_map_4m, kpage_alloc_z, vmm_init,
}
use os_workshop.Xos.Vmm.Sv32.{dir_entry, translate, IsSpace, IsTable}
use os_workshop.Xos.Vmm.Alloc.{taken, kpage_alloc_z-taken}
use os_workshop.Xos.Vmm.Mega.{AddsMegapage, adds_4m}
use os_workshop.Xos.Kernel.{
  ◌>>=◌, Image, rounds, kernel_rx, kernel_ro, kernel_rw, map_kernel_pages, map_kernel_megapages,
  kernel_tables,
}
use os_workshop.Xos.Kernel.Range.{AddsRange}
use os_workshop.Xos.Kernel.Ranges.{AddsMegapages}

-- The end of the image, up to a multiple of 4 MB.
abbrev pub end_ : Image → ℕ
end_ im = (im.image_end + 0x003FFFFF) / 0x400000 * 0x400000

-- The top of the memory that the allocator gets, and the page of the directory.
abbrev pub pool_top : Image → ℕ
pool_top im = im.memory_top - kva_offset - 8192

abbrev pub root_of : Image → ℕ
root_of im = pool_top im - 4096

-- The linker script: sections at pages, one behind the other, in the upper quarter of the addresses,
-- with memory up to a multiple of 4 MB below the registers. A page of memory is left for every page
-- that is mapped alone, and for the directory, the boot directory and the boot stack.
pub record IsKernelImage (im : Image) : Type 0 where
  pub text_page : im.text_start % 4096 ≡ 0
  pub rodata_page : im.rodata_start % 4096 ≡ 0
  pub data_page : im.data_start % 4096 ≡ 0
  pub image_page : im.image_end % 4096 ≡ 0
  pub top_megapage : im.memory_top % 0x400000 ≡ 0
  pub high : 0xC0000000 ≤ im.text_start
  pub rodata_behind : im.text_start ≤ im.rodata_start
  pub data_behind : im.rodata_start ≤ im.data_start
  pub end_behind : im.data_start ≤ im.image_end
  pub top_below : im.memory_top ≤ 0xF0000000
  pub room : im.image_end + (end_ im - im.text_start) + 3 * 4096 ≤ im.memory_top

-- Text can be read and executed, constants read, the rest of memory read and written, all of it at
-- `kva_offset` above where it lies; the 4 MB at 0xF0000000 are at themselves.
abbrev pub kernel_map : Image → ℕ → Option (ℕ × ℕ)
kernel_map im va =
    if leb im.text_start va && ltb va im.rodata_start
    then some (va - kva_offset, 0xCB)
    else if leb im.rodata_start va && ltb va im.data_start
    then some (va - kva_offset, 0xC3)
    else if leb im.data_start va && ltb va im.memory_top
    then some (va - kva_offset, 0xC7)
    else if leb 0xF0000000 va && ltb va 0xF0400000
    then some (va, 0xC7)
    else none

-- The address space of the kernel: nothing of the lower three quarters is linked, and the memory
-- behind the image is free up to the tables.
pub record KernelSpace (im : Image) (hi root : ℕ) (s : Vmm) : Type 0 where
  pub space : IsSpace hi root s
  pub translation : (va : ℕ) → va < 2 ^ 32 → translate s.words root va ≡ kernel_map im va
  pub low_free : (j : ℕ) → j < 768 → is_valid (dir_entry s.words root j) ≡ false
  pub memory :
      (s.pa_bottom ≡ im.image_end - kva_offset) × (hi ≤ s.pa_top + 4096 + (end_ im - im.text_start))

-- Where the parts of such an image lie.
pub ordered :
    (im : Image)
    → IsKernelImage im
    → (0xC0000000 ≤ im.text_start)
      × (im.text_start ≤ im.rodata_start)
      × (im.rodata_start ≤ im.data_start)
      × (im.data_start ≤ end_ im)
      × (end_ im ≤ im.memory_top)
      × (im.memory_top ≤ 0xF0000000)
      × (im.image_end + (end_ im - im.text_start) + 3 * 4096 ≤ im.memory_top)
      × (0xC0000000 ≤ im.image_end)
ordered im is =
    let a = is.high in
    let b = is.rodata_behind in
    let c = is.data_behind in
    let d = is.end_behind in
    let e = is.top_below in let f = is.room in let g = is.top_megapage in omega arith
