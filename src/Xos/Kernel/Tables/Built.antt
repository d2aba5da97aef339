-- ===== src/Xos/Kernel/Tables/Built.antt =====
-- What the tables of `start` of xos/src/kernel.c translate when they are built.
use os_workshop.Base.{
  ℕ, ◌+◌, ◌-◌, ◌/◌, ◌^◌, ◌≤◌, ◌<◌, ◌≡◌, ◌≢◌, false, Option, none, some, arith, ◌⊎◌, inl, inr, ◌∙◌,
  ap,
}
use os_workshop.Xos.Vmm.{Vmm, page_size, kva_offset, is_valid, vm_map_4m}
use os_workshop.Xos.Vmm.Sv32.{dir_entry, translate}
use os_workshop.Xos.Kernel.{
  ◌>>=◌, Image, rounds, kernel_rx, kernel_ro, kernel_rw, map_kernel_pages, map_kernel_megapages,
  kernel_tables,
}
use os_workshop.Xos.Kernel.Overlay.{overlay, AddsRange-overlay, AddsMegapages-overlay}
use os_workshop.Xos.Kernel.Tables.{
  end_, pool_top, root_of, IsKernelImage, KernelSpace, kernel_map, ordered,
}
use os_workshop.Xos.Kernel.Tables.Stages.{Stages, stages}

region :
    (a b c d e x : ℕ)
    → (x < a)
      ⊎ ((a ≤ x) × (x < b))
      ⊎ ((b ≤ x) × (x < c))
      ⊎ ((c ≤ x) × (x < d))
      ⊎ ((d ≤ x) × (x < e))
      ⊎ (e ≤ x)
region a b c d e x = ground arith

module _ (im : Image) (is : IsKernelImage im) (s : Vmm) (st : Stages im s) where
  open st use {t0, t1, t2, t3, text_added, rodata_added, data_added, mega_added, mmio_added}

  abbrev root : ℕ
  root = root_of im

  abbrev t4 : Vmm
  t4 =
      map_kernel_megapages (root + kva_offset) kernel_rw (rounds 0x400000 (end_ im) im.memory_top)
        (end_ im) t3

  abbrev t5 : Vmm
  t5 = (vm_map_4m (root + kva_offset) 0xF0000000 0xF0000000 kernel_rw t4).1

  -- `start` runs through these stages.
  built : kernel_tables im s ≡ some (root + kva_offset, t5)
  unfolding kernel_tables
  built =
      let last : ℕ → ℕ × Vmm → Option (ℕ × Vmm) = λ dir d. some (
        dir,
        (vm_map_4m dir 0xF0000000 0xF0000000 kernel_rw
            (map_kernel_megapages dir kernel_rw (rounds 0x400000 d.0 im.memory_top) d.0 d.1)).1,
      ) in
      let third : ℕ → ℕ × Vmm → Option (ℕ × Vmm) = λ dir r.
        map_kernel_pages dir kernel_rw (rounds page_size r.0 (end_ im)) r.0 r.1 >>= last dir in
      let second : ℕ → ℕ × Vmm → Option (ℕ × Vmm) = λ dir t.
        map_kernel_pages dir kernel_ro (rounds page_size t.0 im.data_start) t.0 t.1 >>= third dir in
      let first : ℕ × Vmm → Option (ℕ × Vmm) = λ dir.
        map_kernel_pages dir.0 kernel_rx (rounds page_size im.text_start im.rodata_start)
          im.text_start dir.1
        >>= second dir.0 in
      let pgdir = root + kva_offset in
      ap (λ (a : Option (ℕ × Vmm)). a >>= first) st.allocated
      ∙ ap (λ (a : Option (ℕ × Vmm)). a >>= second pgdir) st.text_ran
      ∙ ap (λ (a : Option (ℕ × Vmm)). a >>= third pgdir) st.rodata_ran
      ∙ ap (λ (a : Option (ℕ × Vmm)). a >>= last pgdir) st.data_ran

  -- What the stages lay over nothing.
  abbrev layers : ℕ → Option (ℕ × ℕ)
  layers = overlay (end_ im) (end_ im - kva_offset) (im.memory_top - end_ im) kernel_rw (
      overlay im.data_start (im.data_start - kva_offset) (end_ im - im.data_start) kernel_rw (
        overlay im.rodata_start (im.rodata_start - kva_offset) (im.data_start - im.rodata_start)
          kernel_ro
          (overlay im.text_start (im.text_start - kva_offset) (im.rodata_start - im.text_start)
            kernel_rx (λ _. none))))

  translate-layers : (va : ℕ) → va < 2 ^ 32 → translate t4.words root va ≡ layers va
  translate-layers =
      AddsMegapages-overlay root (end_ im) (end_ im - kva_offset) (im.memory_top - end_ im)
        kernel_rw t3 t4 _
        (AddsRange-overlay root im.data_start (im.data_start - kva_offset) (end_ im - im.data_start)
          kernel_rw t2 t3 _
          (AddsRange-overlay root im.rodata_start (im.rodata_start - kva_offset)
            (im.data_start - im.rodata_start) kernel_ro t1 t2 _
            (AddsRange-overlay root im.text_start (im.text_start - kva_offset)
              (im.rodata_start - im.text_start) kernel_rx t0 t1 (λ _. none) st.empty (pool_top im)
              text_added)
            (pool_top im) rodata_added)
          (pool_top im) data_added)
        (pool_top im) mega_added

  layers-kernel_map : (va : ℕ) → va / 2 ^ 22 ≢ 0xF0000000 / 2 ^ 22 → layers va ≡ kernel_map im va
  layers-kernel_map va ne =
      let o = ordered im is in
      elim (region im.text_start im.rodata_start im.data_start (end_ im) im.memory_top va) [
        | inl below ↦ ground arith
        | inr (inl in_text) ↦ ground arith
        | inr (inr (inl in_rodata)) ↦ ground arith
        | inr (inr (inr (inl in_data))) ↦ ground arith
        | inr (inr (inr (inr (inl in_mega)))) ↦ ground arith
        | inr (inr (inr (inr (inr above)))) ↦ ground arith
      ]

  -- The last stage, and where the parts lie.
  t5-kernel_map : (va : ℕ) → va < 2 ^ 32 → translate t5.words root va ≡ kernel_map im va
  t5-kernel_map va lt = elim (mmio_or_not (va / 2 ^ 22)) [
    | inl e ↦ let o = ordered im is in mmio_added.here va lt e ∙ ground arith
    | inr ne ↦ mmio_added.elsewhere va lt ne ∙ translate-layers va lt ∙ layers-kernel_map va ne
  ]
    where
      mmio_or_not : (i : ℕ) → (i ≡ 0xF0000000 / 2 ^ 22) ⊎ (i ≢ 0xF0000000 / 2 ^ 22)
      mmio_or_not i = ground arith

  t5_low : (j : ℕ) → j < 768 → is_valid (dir_entry t5.words root j) ≡ false
  t5_low j lt =
      let o = ordered im is in
      mmio_added.unlinked j (omega arith) (
        mega_added.unlinked j (inl (omega arith)) (
          data_added.unlinked j (omega arith) (inl (omega arith)) (
            rodata_added.unlinked j (omega arith) (inl (omega arith)) (
              text_added.unlinked j (omega arith) (inl (omega arith))
                (st.invalid j (omega arith))))))

  built-KernelSpace :
      (s' : Vmm) × (kernel_tables im s ≡ some (root + kva_offset, s'))
      × KernelSpace im (pool_top im) root s'
  built-KernelSpace = (
    t5,
    built,
    record {
      space = mmio_added.space;
      translation = t5-kernel_map;
      low_free = t5_low;
      memory =
          let m0 = st.memory in
          let m1 = text_added.memory in
          let m2 = rodata_added.memory in
          let m3 = data_added.memory in
          let m4 = mega_added.memory in
          let m5 = mmio_added.memory in
          let o = ordered im is in (m5.0 ∙ m4.0 ∙ m3.0 ∙ m2.0 ∙ m1.0 ∙ m0.0, omega arith);
    },
  )

-- For an image as the linker script lays it out, with a page of memory left for each page that is
-- mapped alone, `start` makes a directory in the topmost free page and maps the text for reading and
-- executing, the constants for reading, all other memory from the data up for reading and writing,
-- where the kernel is linked, the registers at their own addresses, and nothing else.
pub kernel_tables_lem :
    (im : Image) (s : Vmm)
    → IsKernelImage im
    → (s' : Vmm) × (kernel_tables im s ≡ some (root_of im + kva_offset, s'))
      × KernelSpace im (pool_top im) (root_of im) s'
kernel_tables_lem im s is = built-KernelSpace im is s (stages im is s)
