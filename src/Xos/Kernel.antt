-- ===== src/Xos/Kernel.antt =====
-- xos/src/kernel.c: the address space of the kernel and of its program. `none` is a panic.
pub mod Range
pub mod Ranges
pub mod Overlay
pub mod Tables
pub mod NewPage
pub mod User
pub mod Isolation
use os_workshop.Base.{ℕ, zero, suc, ◌+◌, ◌-◌, ◌*◌, ◌/◌, Option, none, some}
use os_workshop.Xos.Vmm.{
  Vmm, page_size, kva_to_pa, vmm_init, ppage_alloc_z, kpage_alloc_z, vm_map_4k, vm_map_4m,
}

infixl 5 ◌>>=◌
abbrev pub ◌>>=◌ : {A B : Type 0} → Option A → (A → Option B) → Option B
none >>= k = none
some a >>= k = k a

-- The flags of xos/src/kernel.h.
abbrev pub user_rw : ℕ
user_rw = 0x80 + 0x40 + 0x10 + 0x02 + 0x04 + 0x01

abbrev pub user_rwx : ℕ
user_rwx = 0x80 + 0x40 + 0x10 + 0x02 + 0x04 + 0x08 + 0x01

abbrev pub kernel_ro : ℕ
kernel_ro = 0x80 + 0x40 + 0x02 + 0x01

abbrev pub kernel_rw : ℕ
kernel_rw = 0x80 + 0x40 + 0x02 + 0x04 + 0x01

abbrev pub kernel_rx : ℕ
kernel_rx = 0x80 + 0x40 + 0x02 + 0x08 + 0x01

abbrev pub framebuffer_base : ℕ
framebuffer_base = 0x40C00000

abbrev pub framebuffer_size : ℕ
framebuffer_size = 640 * 480 * 2

-- The loop of `map_framebuffer` from `n` on. No status is looked at.
unfoldable pub map_range : (pgdir va pa flags n count : ℕ) → Vmm → Option Vmm
map_range pgdir va pa flags n zero s = some s
map_range pgdir va pa flags n (suc count) s = vm_map_4k pgdir (va + n) (pa + n) flags s >>= λ r.
    map_range pgdir va pa flags (n + page_size) count r.1

unfoldable pub map_framebuffer : ℕ → Vmm → Option Vmm
unfolding map_range
map_framebuffer pgdir s =
    map_range pgdir 0x20000000 framebuffer_base user_rw 0 (framebuffer_size / page_size) s

-- `vm_map_4k(kpgdir, va, ppage_alloc_z(), flags);`
abbrev pub map_new_page : (pgdir va flags : ℕ) → Vmm → Option Vmm
map_new_page pgdir va flags s =
    ppage_alloc_z s >>= λ p. vm_map_4k pgdir va p.0 flags p.1 >>= λ r. some r.1

-- The pages of `start_user_program`: four for the program, one for its stack, the framebuffer, and
-- a kernel stack, whose address is returned.
unfoldable pub user_pages : ℕ → Vmm → Option (ℕ × Vmm)
unfolding map_framebuffer
user_pages pgdir s =
    map_new_page pgdir 0x10000000 user_rwx s
    >>= map_new_page pgdir (0x10000000 + 1 * page_size) user_rwx
    >>= map_new_page pgdir (0x10000000 + 2 * page_size) user_rwx
    >>= map_new_page pgdir (0x10000000 + 3 * page_size) user_rwx
    >>= map_new_page pgdir (0x10400000 - 1 * page_size) user_rw
    >>= map_framebuffer pgdir
    >>= kpage_alloc_z

-- The addresses that the linker gives.
pub record Image : Type 0 where
  pub text_start : ℕ
  pub rodata_start : ℕ
  pub data_start : ℕ
  pub image_end : ℕ
  pub memory_top : ℕ

-- `while (va < end) { vm_map_4k(kpgdir, va, kva_to_pa(va), flags); va += PAGE_SIZE; }` for its
-- `count` rounds, and where `va` is then.
unfoldable pub map_kernel_pages : (pgdir flags count va : ℕ) → Vmm → Option (ℕ × Vmm)
map_kernel_pages pgdir flags zero va s = some (va, s)
map_kernel_pages pgdir flags (suc count) va s = vm_map_4k pgdir va (kva_to_pa va) flags s >>= λ r.
    map_kernel_pages pgdir flags count (va + page_size) r.1

-- The same with `vm_map_4m`, which cannot panic.
unfoldable pub map_kernel_megapages : (pgdir flags count va : ℕ) → Vmm → Vmm
map_kernel_megapages pgdir flags zero va s = s
map_kernel_megapages pgdir flags (suc count) va s =
    map_kernel_megapages pgdir flags count (va + 0x400000)
      (vm_map_4m pgdir va (kva_to_pa va) flags s).1

-- How often a loop runs that adds `step` to `va` while it is below `end_`.
abbrev pub rounds : (step va end_ : ℕ) → ℕ
rounds step va end_ = (end_ - va + (step - 1)) / step

-- The tables that `start` builds, and the address of their directory.
unfoldable pub kernel_tables : Image → Vmm → Option (ℕ × Vmm)
unfolding map_kernel_pages map_kernel_megapages
kernel_tables im s =
    kpage_alloc_z (vmm_init (kva_to_pa im.image_end) (kva_to_pa im.memory_top - 2 * page_size) s)
    >>= λ dir.
        map_kernel_pages dir.0 kernel_rx (rounds page_size im.text_start im.rodata_start)
          im.text_start dir.1
        >>= λ text.
            map_kernel_pages dir.0 kernel_ro (rounds page_size text.0 im.data_start) text.0 text.1
            >>= λ rodata.
                let end_ = (im.image_end + 0x003FFFFF) / 0x400000 * 0x400000 in
                map_kernel_pages dir.0 kernel_rw (rounds page_size rodata.0 end_) rodata.0 rodata.1
                >>= λ data_.
                    let ram =
                      map_kernel_megapages dir.0 kernel_rw (rounds 0x400000 data_.0 im.memory_top)
                        data_.0 data_.1 in
                    some (dir.0, (vm_map_4m dir.0 0xF0000000 0xF0000000 kernel_rw ram).1)

-- `start` up to the entry of user mode, with kpgdir and the address of the kernel stack of the
-- program.
unfoldable pub start : Image → Vmm → Option ((ℕ × ℕ) × Vmm)
start im s = kernel_tables im s >>= λ t. user_pages t.0 t.1 >>= λ u. some ((t.0, u.0), u.1)
