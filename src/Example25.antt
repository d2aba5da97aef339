-- ===== src/Example25.antt =====
-- example/ex25-kernel.c: an earlier form of the kernel, whose page allocator has no lower bound and
-- whose mapping functions check no alignment. Entries, flags and addresses are those of Xos.Vmm.
pub mod SameTables
use os_workshop.Base.{
  ℕ, zero, suc, ◌+◌, ◌-◌, ◌*◌, ◌/◌, ◌%◌, ◌^◌, ◌==◌, if◌then◌else◌, Memory, u32, sub32,
}
use os_workshop.Xos.Vmm.{
  page_size, pa_to_kva, kva_to_pa, store, clear_page, is_valid, is_leaf, pte_pa, leaf_entry,
}
use os_workshop.Xos.Kernel.{user_rw, user_rwx, kernel_ro, kernel_rw, kernel_rx, Image, rounds}

-- ppage_next, and the memory as the kernel sees it.
pub record Pages : Type 0 where
  pub ppage_next : ℕ
  pub words : Memory

unfoldable pub alloc_ppage : Pages → ℕ × Pages
alloc_ppage s =
    let next = sub32 s.ppage_next page_size in
    (next, record { ppage_next = next; words = clear_page s.words (pa_to_kva next) })

-- -1
abbrev pub minus_one : ℕ
minus_one = 2 ^ 32 - 1

unfoldable pub map_entry : (ptbl idx0 pa flags : ℕ) → Pages → ℕ × Pages
map_entry ptbl idx0 pa flags s =
    if is_valid (s.words (ptbl + 4 * idx0))
    then (minus_one, s)
    else (0, record s { words = store s.words (ptbl + 4 * idx0) (leaf_entry pa flags) })

unfoldable pub map_page : (pdir va pa flags : ℕ) → Pages → ℕ × Pages
unfolding map_entry alloc_ppage
map_page pdir va pa flags s =
    let idx1 = va / 2 ^ 22 in
    let idx0 = va / 2 ^ 12 % 1024 in
    let pte = s.words (pdir + 4 * idx1) in
    if is_valid pte
    then (if is_leaf pte
        then (minus_one, s)
        else map_entry (pa_to_kva (pte_pa pte)) idx0 pa flags s)
    else (let (ptbl_pa, s) = alloc_ppage s in
        map_entry (pa_to_kva ptbl_pa) idx0 pa flags
          (record s { words = store s.words (pdir + 4 * idx1) (ptbl_pa / 4 + 1) }))

unfoldable pub map_page_4m : (pdir va pa flags : ℕ) → Pages → ℕ × Pages
map_page_4m pdir va pa flags s =
    let at = pdir + 4 * (va / 2 ^ 22) in
    if is_valid (s.words at)
    then (minus_one, s)
    else (0, record s { words = store s.words at (leaf_entry pa flags) })

-- `map_page(va, alloc_ppage(), flags);`
abbrev pub map_new : (pdir va flags : ℕ) → Pages → Pages
map_new pdir va flags s = let (pa, s) = alloc_ppage s in (map_page pdir va pa flags s).1

-- The pages of `start_user_program`, and the address of the frame on the kernel stack.
unfoldable pub start_user_program : (pdir : ℕ) → Pages → ℕ × Pages
unfolding map_page
start_user_program pdir s =
    let user_start : ℕ = 0x10000000 in
    let user_stack : ℕ = 0x10400000 in
    let s = map_new pdir (user_start + 0 * page_size) user_rwx s in
    let s = map_new pdir (user_start + 1 * page_size) user_rwx s in
    let s = map_new pdir (user_start + 2 * page_size) user_rwx s in
    let s = map_new pdir (user_start + 3 * page_size) user_rwx s in
    let s = map_new pdir (user_stack - 1 * page_size) user_rw s in
    let (stack, s) = alloc_ppage s in (pa_to_kva (u32 (stack + page_size - 128)), s)

-- `while (va < end) { map_page(va, kva_to_pa(va), flags); va += PAGE_SIZE; }` for its rounds.
unfoldable pub map_pages : (pdir flags count va : ℕ) → Pages → ℕ × Pages
map_pages pdir flags zero va s = (va, s)
map_pages pdir flags (suc count) va s =
    map_pages pdir flags count (va + page_size) (map_page pdir va (kva_to_pa va) flags s).1

unfoldable pub map_megapages : (pdir flags count va : ℕ) → Pages → Pages
map_megapages pdir flags zero va s = s
map_megapages pdir flags (suc count) va s =
    map_megapages pdir flags count (va + 0x400000) (map_page_4m pdir va (kva_to_pa va) flags s).1

-- What `start` maps, in the directory at `pdir`.
unfoldable pub map_image : Image → (pdir : ℕ) → Pages → Pages
map_image im pdir s =
    let (va, s) =
      map_pages pdir kernel_rx (rounds page_size im.text_start im.rodata_start) im.text_start s in
    let (va, s) = map_pages pdir kernel_ro (rounds page_size va im.data_start) va s in
    let end_ = (im.image_end + 0x003FFFFF) / 0x400000 * 0x400000 in
    let (va, s) = map_pages pdir kernel_rw (rounds page_size va end_) va s in
    let s = map_megapages pdir kernel_rw (rounds 0x400000 va im.memory_top) va s in
    (map_page_4m pdir 0xF0000000 0xF0000000 kernel_rw s).1

-- The tables that `start` builds, and the address of their directory.
unfoldable pub start_tables : Image → Memory → ℕ × Pages
start_tables im words =
    let s : Pages = record {
      ppage_next = kva_to_pa im.memory_top - 2 * page_size;
      words = words;
    } in
    let (dir, s) = alloc_ppage s in let pdir = pa_to_kva dir in (pdir, map_image im pdir s)
