-- ===== src/Tests/KernelTests.antt =====
-- The address space of a kernel of eight pages, in 32 megabytes of memory.
use os_workshop.Base.{ℕ, ◌+◌, ◌≡◌, some, arith, refl}
use os_workshop.Xos.Vmm.{Vmm, kva_offset}
use os_workshop.Xos.Kernel.{Image, kernel_tables, start}
use os_workshop.Xos.Kernel.Tables.{IsKernelImage, KernelSpace}
use os_workshop.Xos.Kernel.Tables.Built.{kernel_tables_lem}
use os_workshop.Xos.Kernel.Isolation.{HasFramebuffer, Isolated, start-Isolated}

abbrev image : Image
image = record {
  text_start = 0xC0008000;
  rodata_start = 0xC000C000;
  data_start = 0xC000D000;
  image_end = 0xC0010000;
  memory_top = 0xC2000000;
}

abbrev before : Vmm
before = record { pa_bottom = 0; pa_top = 0; words = λ _. 7 }

image-IsKernelImage : IsKernelImage image
image-IsKernelImage = record {
  text_page = refl;
  rodata_page = refl;
  data_page = refl;
  image_page = refl;
  top_megapage = refl;
  high = omega arith;
  rodata_behind = omega arith;
  data_behind = omega arith;
  end_behind = omega arith;
  top_below = omega arith;
  room = omega arith;
}

image-HasFramebuffer : HasFramebuffer image
image-HasFramebuffer = record { image_below = omega arith; pages_above = omega arith }

kernel_tables_lem_example :
    (s' : Vmm) × (kernel_tables image before ≡ some (0x41FFD000 + kva_offset, s'))
    × KernelSpace image 0x41FFE000 0x41FFD000 s'
kernel_tables_lem_example = kernel_tables_lem image before image-IsKernelImage

start-Isolated_example :
    (stack_kva : ℕ) × (s' : Vmm) × (start image before
      ≡ some ((0x41FFD000 + kva_offset, stack_kva), s'))
    × Isolated image 0x41FFD000 stack_kva s'
start-Isolated_example = start-Isolated image before image-IsKernelImage image-HasFramebuffer
