-- ===== src/Xos/Kernel/Tables/Stages.antt =====
-- The loops of `start` of xos/src/kernel.c, one after the other.
use os_workshop.Base.{
  ℕ, ◌+◌, ◌-◌, ◌*◌, ◌/◌, ◌%◌, ◌^◌, ◌≤◌, ◌<◌, ◌≡◌, false, none, some, arith, inl, inr, ◌∙◌, ap₂,
  refl,
}
use os_workshop.Xos.Vmm.{
  Vmm, page_size, kva_offset, kva_to_pa, is_valid, vm_map_4m, kpage_alloc_z, vmm_init,
}
use os_workshop.Xos.Vmm.Sv32.{dir_entry, translate, IsVacant}
use os_workshop.Xos.Vmm.Mega.{AddsMegapage, adds_4m}
use os_workshop.Xos.Kernel.{
  Image, rounds, kernel_rx, kernel_ro, kernel_rw, map_kernel_pages, map_kernel_megapages,
}
use os_workshop.Xos.Kernel.Range.{AddsRange}
use os_workshop.Xos.Kernel.Ranges.{AddsMegapages, section_lem, megasection_lem}
use os_workshop.Xos.Kernel.Tables.{end_, pool_top, root_of, IsKernelImage, ordered}
use os_workshop.Xos.Kernel.Tables.First.{
  first_space, first_invalid, first_alloc, first-IsSpace, first-translate,
}

-- The states between the loops, and what each adds.
pub record Stages (im : Image) (s : Vmm) : Type 0 where
  pub t0 : Vmm
  pub t1 : Vmm
  pub t2 : Vmm
  pub t3 : Vmm
  pub allocated :
      kpage_alloc_z (vmm_init (kva_to_pa im.image_end) (kva_to_pa im.memory_top - 2 * page_size) s)
      ≡ some (root_of im + kva_offset, t0)
  pub empty : (va : ℕ) → va < 2 ^ 32 → translate t0.words (root_of im) va ≡ none
  pub invalid : (j : ℕ) → j < 1024 → is_valid (dir_entry t0.words (root_of im) j) ≡ false
  pub memory : (t0.pa_bottom ≡ im.image_end - kva_offset) × (t0.pa_top ≡ root_of im)
  pub text_ran :
      map_kernel_pages
        (root_of im + kva_offset)
        kernel_rx
        (rounds page_size im.text_start im.rodata_start)
        im.text_start
        t0
      ≡ some (im.rodata_start, t1)
  pub text_added :
      AddsRange
        (pool_top im)
        (root_of im)
        im.text_start
        (im.text_start - kva_offset)
        (im.rodata_start - im.text_start)
        kernel_rx
        t0
        t1
  pub rodata_ran :
      map_kernel_pages
        (root_of im + kva_offset)
        kernel_ro
        (rounds page_size im.rodata_start im.data_start)
        im.rodata_start
        t1
      ≡ some (im.data_start, t2)
  pub rodata_added :
      AddsRange
        (pool_top im)
        (root_of im)
        im.rodata_start
        (im.rodata_start - kva_offset)
        (im.data_start - im.rodata_start)
        kernel_ro
        t1
        t2
  pub data_ran :
      map_kernel_pages
        (root_of im + kva_offset)
        kernel_rw
        (rounds page_size im.data_start (end_ im))
        im.data_start
        t2
      ≡ some (end_ im, t3)
  pub data_added :
      AddsRange
        (pool_top im)
        (root_of im)
        im.data_start
        (im.data_start - kva_offset)
        (end_ im - im.data_start)
        kernel_rw
        t2
        t3
  pub mega_added :
      AddsMegapages
        (pool_top im)
        (root_of im)
        (end_ im)
        (end_ im - kva_offset)
        (im.memory_top - end_ im)
        kernel_rw
        t3
        (map_kernel_megapages
          (root_of im + kva_offset)
          kernel_rw
          (rounds 0x400000 (end_ im) im.memory_top)
          (end_ im)
          t3)
  pub mmio_added :
      let t4 =
        map_kernel_megapages
          (root_of im + kva_offset)
          kernel_rw
          (rounds 0x400000 (end_ im) im.memory_top)
          (end_ im)
          t3 in
      AddsMegapage
        (pool_top im)
        (root_of im)
        0xF0000000
        0xF0000000
        kernel_rw
        t4
        (vm_map_4m (root_of im + kva_offset) 0xF0000000 0xF0000000 kernel_rw t4).1

module _ (im : Image) (is : IsKernelImage im) (s : Vmm) where
  abbrev hi : ℕ
  hi = pool_top im

  abbrev root : ℕ
  root = root_of im

  abbrev bottom : ℕ
  bottom = im.image_end - kva_offset

  aligned : (bottom % 4096 ≡ 0) × (hi % 4096 ≡ 0) × (bottom < hi) × (hi ≤ kva_offset)
  aligned = let o = ordered im is in let p = is.image_page in let q = is.top_megapage in omega arith

  abbrev t0 : Vmm
  t0 = first_space bottom hi s aligned.0 aligned.1 aligned.2 aligned.3

  t0_invalid : (i : ℕ) → i < 1024 → is_valid (dir_entry t0.words root i) ≡ false
  t0_invalid = first_invalid bottom hi s aligned.0 aligned.1 aligned.2 aligned.3

  IsVacant-t0 : (x : ℕ) → x < 2 ^ 32 → IsVacant t0.words root x
  IsVacant-t0 x lt = inl (t0_invalid (x / 2 ^ 22) (omega arith))

  text_stage :
      (t1 : Vmm) × (map_kernel_pages
          (root + kva_offset)
          kernel_rx
          (rounds page_size im.text_start im.rodata_start)
          im.text_start
          t0
        ≡ some (im.rodata_start, t1))
      × AddsRange hi root im.text_start
          (im.text_start - kva_offset)
          (im.rodata_start - im.text_start)
          kernel_rx
          t0
          t1
  text_stage =
      let o = ordered im is in
      section_lem hi root kernel_rx (refl, refl, refl) im.text_start im.rodata_start t0
        (omega arith) (omega arith) (omega arith)
        (first-IsSpace bottom hi s aligned.0 aligned.1 aligned.2 aligned.3) is.text_page
        is.rodata_page (λ x lo up. IsVacant-t0 x (omega arith)) (omega arith)

  abbrev t1 : Vmm
  t1 = text_stage.0

  rodata_stage :
      (t2 : Vmm) × (map_kernel_pages
          (root + kva_offset)
          kernel_ro
          (rounds page_size im.rodata_start im.data_start)
          im.rodata_start
          t1
        ≡ some (im.data_start, t2))
      × AddsRange hi root im.rodata_start
          (im.rodata_start - kva_offset)
          (im.data_start - im.rodata_start)
          kernel_ro
          t1
          t2
  rodata_stage =
      let o = ordered im is in
      let added = text_stage.2 in
      let m = added.memory in
      section_lem hi root kernel_ro (refl, refl, refl) im.rodata_start im.data_start t1
        (omega arith) (omega arith) (omega arith) added.space is.rodata_page is.data_page
        (λ x lo up. added.vacant x (omega arith) (inr (omega arith)) (IsVacant-t0 x (omega arith)))
        (omega arith)

  abbrev t2 : Vmm
  t2 = rodata_stage.0

  data_stage :
      (t3 : Vmm) × (map_kernel_pages
          (root + kva_offset)
          kernel_rw
          (rounds page_size im.data_start (end_ im))
          im.data_start
          t2
        ≡ some (end_ im, t3))
      × AddsRange hi root im.data_start
          (im.data_start - kva_offset)
          (end_ im - im.data_start)
          kernel_rw
          t2
          t3
  data_stage =
      let o = ordered im is in
      let added = text_stage.2 in
      let added' = rodata_stage.2 in
      let m = added.memory in
      let m' = added'.memory in
      section_lem hi root kernel_rw (refl, refl, refl) im.data_start (end_ im) t2 (omega arith)
        (omega arith) (omega arith) added'.space is.data_page (omega arith)
        (λ x lo up.
          added'.vacant x (omega arith) (inr (omega arith))
            (added.vacant x (omega arith) (inr (omega arith)) (IsVacant-t0 x (omega arith))))
        (omega arith)

  abbrev t3 : Vmm
  t3 = data_stage.0

  -- Behind the image the directory is still empty.
  t3_invalid :
      (j : ℕ) → j < 1024 → end_ im ≤ j * 2 ^ 22 → is_valid (dir_entry t3.words root j) ≡ false
  t3_invalid j lt le =
      let o = ordered im is in
      data_stage.2.unlinked j lt (inr (omega arith)) (
        rodata_stage.2.unlinked j lt (inr (omega arith))
          (text_stage.2.unlinked j lt (inr (omega arith)) (t0_invalid j lt)))

  abbrev t4 : Vmm
  t4 =
      map_kernel_megapages (root + kva_offset) kernel_rw (rounds 0x400000 (end_ im) im.memory_top)
        (end_ im) t3

  mega_stage :
      AddsMegapages hi root
        (end_ im)
        (end_ im - kva_offset)
        (im.memory_top - end_ im)
        kernel_rw
        t3
        t4
  mega_stage =
      let o = ordered im is in
      megasection_lem hi root kernel_rw (refl, refl, refl) (end_ im) im.memory_top t3 (omega arith)
        (omega arith) (omega arith) data_stage.2.space (omega arith) is.top_megapage
        (λ j lo up. t3_invalid j (omega arith) (omega arith))

  pub stages : Stages im s
  stages =
      let o = ordered im is in
      record {
        t0 = t0;
        t1 = t1;
        t2 = t2;
        t3 = t3;
        allocated =
            ap₂ (λ b t. kpage_alloc_z (vmm_init b t s)) (omega arith) (omega arith)
            ∙ first_alloc bottom hi s aligned.0 aligned.1 aligned.2 aligned.3;
        empty = first-translate bottom hi s aligned.0 aligned.1 aligned.2 aligned.3;
        invalid = t0_invalid;
        memory = (refl, refl);
        text_ran = text_stage.1;
        text_added = text_stage.2;
        rodata_ran = rodata_stage.1;
        rodata_added = rodata_stage.2;
        data_ran = data_stage.1;
        data_added = data_stage.2;
        mega_added = mega_stage;
        mmio_added =
            adds_4m hi root 0xF0000000 0xF0000000 kernel_rw t4 mega_stage.space (omega arith)
              (omega arith) (refl, refl, refl) refl refl
              (mega_stage.unlinked (0xF0000000 / 2 ^ 22) (inr (omega arith))
                (t3_invalid (0xF0000000 / 2 ^ 22) (omega arith) (omega arith)));
      }
