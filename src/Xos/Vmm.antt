-- ===== src/Xos/Vmm.antt =====
-- xos/src/vmm.c: the page allocator and the page tables. The memory is one of words, at the byte
-- address of each. A mask of low bits is written as a remainder, a shift as a multiplication or a
-- division, and `|` of fields that do not overlap as a sum.
pub mod Sv32
pub mod Entries
pub mod Link
pub mod Alloc
pub mod Fresh
pub mod Maps
pub mod Mega
use os_workshop.Base.{
  ℕ, ◌+◌, ◌-◌, ◌*◌, ◌/◌, ◌%◌, ◌^◌, ◌==◌, leb, ltb, if◌then◌else◌, ◌&&◌, ◌||◌, not, Bool, Option,
  none, some, Memory, u32, sub32,
}

abbrev pub page_size : ℕ
page_size = 4096

-- KVA_BASE - KPA_BASE
abbrev pub kva_offset : ℕ
kva_offset = 0xC0000000 - 0x40000000

abbrev pub xos_ok : ℕ
xos_ok = 0

abbrev pub xos_err_bad_param : ℕ
xos_err_bad_param = 0x40

abbrev pub xos_err_conflict : ℕ
xos_err_conflict = 0x85

abbrev pub pa_to_kva : ℕ → ℕ
pa_to_kva pa = u32 (pa + kva_offset)

abbrev pub kva_to_pa : ℕ → ℕ
kva_to_pa kva = sub32 kva kva_offset

-- The two statics, and the memory as the kernel sees it.
pub record Vmm : Type 0 where
  pub pa_bottom : ℕ
  pub pa_top : ℕ
  pub words : Memory

abbrev pub vmm_init : (start end_ : ℕ) → Vmm → Vmm
vmm_init start end_ s = record s { pa_bottom = start; pa_top = end_ }

abbrev pub store : Memory → ℕ → ℕ → Memory
store m a v j = if j == a then v else m j

abbrev pub clear_page : Memory → ℕ → Memory
clear_page m a j = if leb a j && ltb j (a + page_size) then 0 else m j

-- `none` is the panic, which does not return.
unfoldable pub ppage_alloc_z : Vmm → Option (ℕ × Vmm)
ppage_alloc_z s =
    let top = sub32 s.pa_top page_size in
    if s.pa_top == s.pa_bottom
    then none
    else some (top, record s { pa_top = top; words = clear_page s.words (pa_to_kva top) })

unfoldable pub kpage_alloc_z : Vmm → Option (ℕ × Vmm)
unfolding ppage_alloc_z
kpage_alloc_z s = elim (ppage_alloc_z s) [ none ↦ none | some p ↦ some (pa_to_kva p.0, p.1) ]

-- `pte & PTE_V`
abbrev pub is_valid : ℕ → Bool
is_valid pte = pte % 2 == 1

-- `pte & (PTE_X|PTE_W|PTE_R)`
abbrev pub is_leaf : ℕ → Bool
is_leaf pte = not (pte / 2 % 8 == 0)

abbrev pub pte_pa : ℕ → ℕ
pte_pa pte = u32 (pte / 1024 * 1024 * 4)

abbrev pub leaf_entry : (pa flags : ℕ) → ℕ
leaf_entry pa flags = pa / 4096 * 4096 / 4 + flags % 1024

-- The entry of the page table at `ptbl`.
unfoldable pub fill_entry : (ptbl idx0 pa flags : ℕ) → Vmm → ℕ × Vmm
fill_entry ptbl idx0 pa flags s =
    if is_valid (s.words (ptbl + 4 * idx0))
    then (2 ^ 32 - 1, s)
    else (xos_ok, record s { words = store s.words (ptbl + 4 * idx0) (leaf_entry pa flags) })

unfoldable pub vm_map_4k : (pgdir va pa flags : ℕ) → Vmm → Option (ℕ × Vmm)
unfolding fill_entry ppage_alloc_z
vm_map_4k pgdir va pa flags s =
    let idx1 = va / 2 ^ 22 in
    let idx0 = va / 2 ^ 12 % 1024 in
    let pte = s.words (pgdir + 4 * idx1) in
    if not (va % 4096 == 0) || not (pa % 4096 == 0)
    then some (xos_err_bad_param, s)
    else if is_valid pte
    then (if is_leaf pte
        then some (xos_err_conflict, s)
        else some (fill_entry (pa_to_kva (pte_pa pte)) idx0 pa flags s))
    else elim (ppage_alloc_z s) [
      | none ↦ none
      | some p ↦
          let linked = record p.1 { words = store p.1.words (pgdir + 4 * idx1) (p.0 / 4 + 1) } in
          some (fill_entry (pa_to_kva p.0) idx0 pa flags linked)
    ]

unfoldable pub vm_map_4m : (pgdir va pa flags : ℕ) → Vmm → ℕ × Vmm
vm_map_4m pgdir va pa flags s =
    let at = pgdir + 4 * (va / 2 ^ 22) in
    if not (va % 0x400000 == 0) || not (pa % 0x400000 == 0)
    then (xos_err_bad_param, s)
    else if is_valid (s.words at)
    then (xos_err_conflict, s)
    else (xos_ok, record s { words = store s.words at (leaf_entry pa flags) })
