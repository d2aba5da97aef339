-- ===== src/Example25/SameTables.antt =====
-- The tables of example/ex25-kernel.c are those of xos/src/kernel.c.
use mathlib.Core.Option.{some-injective}
use os_workshop.Base.{
  ℕ, zero, suc, ◌+◌, ◌-◌, ◌*◌, ◌/◌, ◌%◌, ◌≤◌, ◌≡◌, inl, inr, Option, Option-cases, some, none,
  arith, refl, ap, ap₂, ◌∙◌,
}
use os_workshop.Xos.Vmm.{
  Vmm, page_size, pa_to_kva, kva_to_pa, ppage_alloc_z, kpage_alloc_z, vm_map_4k, vm_map_4m,
  vmm_init,
}
use os_workshop.Xos.Kernel.{
  Image, rounds, kernel_rx, kernel_ro, kernel_rw, map_kernel_pages, map_kernel_megapages,
  kernel_tables,
}
use os_workshop.Example25.{
  Pages, alloc_ppage, map_page, map_page_4m, map_pages, map_megapages, map_image, start_tables,
}

-- What the two kernels have in common.
abbrev pub pages_of : Vmm → Pages
pages_of s = record { ppage_next = s.pa_top; words = s.words }

-- The same page is mapped, or refused.
module _ (pdir va pa flags : ℕ) (s : Vmm) (aligned : va % 4096 ≡ 0)
    (pa_aligned : pa % 4096 ≡ 0) where
  map_page_lem :
      (r : ℕ) (s' : Vmm)
      → vm_map_4k pdir va pa flags s ≡ some (r, s')
      → (map_page pdir va pa flags (pages_of s)).1 ≡ pages_of s'
  unfolding vm_map_4k map_page
  map_page_lem r s' e = ground arith

module _ (pdir va pa flags : ℕ) (s : Vmm) (aligned : va % 0x400000 ≡ 0)
    (pa_aligned : pa % 0x400000 ≡ 0) where
  map_page_4m_lem :
      (map_page_4m pdir va pa flags (pages_of s)).1 ≡ pages_of (vm_map_4m pdir va pa flags s).1
  unfolding vm_map_4m map_page_4m
  map_page_4m_lem = ground arith

map_pages_lem :
    (pdir flags count va : ℕ) (s : Vmm) (va' : ℕ) (s' : Vmm)
    → va % 4096 ≡ 0
    → map_kernel_pages pdir flags count va s ≡ some (va', s')
    → (map_pages pdir flags count va (pages_of s) ≡ (va', pages_of s')) × (va' ≡ va + count * 4096)
unfolding map_kernel_pages map_pages
map_pages_lem pdir flags zero va s va' s' aligned e = (cc, last_va)
  where
    same : va ≡ va'
    same = ap (λ (o : Option (ℕ × Vmm)). elim o [ none ↦ va | some p ↦ p.0 ]) e

    last_va : va' ≡ va + 0 * 4096
    last_va = omega (arith, same)
map_pages_lem pdir flags (suc count) va s va' s' aligned e =
    elim (Option-cases (vm_map_4k pdir va (kva_to_pa va) flags s)) [
      | inl panics ↦ cc (rw panics at e)
      | inr ((r, t), ok) ↦
          let e' : map_kernel_pages pdir flags count (va + page_size) t ≡ some (va', s') =
            rw ok at e in
          let step = map_page_lem pdir va (kva_to_pa va) flags s aligned (omega arith) r t ok in
          let rest = map_pages_lem pdir flags count (va + page_size) t va' s' (omega arith) e' in
          (
            ap (λ p. map_pages pdir flags count (va + page_size) p) step ∙ rest.0,
            omega (arith, rest.1),
          )
    ]

map_megapages_lem :
    (pdir flags count va : ℕ) (s : Vmm)
    → va % 0x400000 ≡ 0
    → map_megapages pdir flags count va (pages_of s)
      ≡ pages_of (map_kernel_megapages pdir flags count va s)
unfolding map_kernel_megapages map_megapages
map_megapages_lem pdir flags zero va s aligned = refl
map_megapages_lem pdir flags (suc count) va s aligned =
    ap (λ p. map_megapages pdir flags count (va + 0x400000) p)
      (map_page_4m_lem pdir va (kva_to_pa va) flags s aligned (omega arith))
    ∙ map_megapages_lem pdir flags count (va + 0x400000)
        (vm_map_4m pdir va (kva_to_pa va) flags s).1 (omega arith)

alloc_ppage_lem :
    (s : Vmm) (kva : ℕ) (t : Vmm)
    → kpage_alloc_z s ≡ some (kva, t)
    → (pa_to_kva (alloc_ppage (pages_of s)).0 ≡ kva) × ((alloc_ppage (pages_of s)).1 ≡ pages_of t)
unfolding kpage_alloc_z ppage_alloc_z alloc_ppage
alloc_ppage_lem s kva t e = ground arith

-- The sections of the image begin at pages, in their order.
pub record IsLinked (im : Image) : Type 0 where
  pub text_page : im.text_start % 4096 ≡ 0
  pub rodata_page : im.rodata_start % 4096 ≡ 0
  pub data_page : im.data_start % 4096 ≡ 0
  pub rodata_behind : im.text_start ≤ im.rodata_start
  pub data_behind : im.rodata_start ≤ im.data_start
  pub end_behind : im.data_start ≤ im.image_end

-- The mappings of the two kernels, one after the other.
module _ (im : Image) (linked : IsLinked im) (dir : ℕ) where
  abbrev end_ : ℕ
  end_ = (im.image_end + 0x003FFFFF) / 0x400000 * 0x400000

  map_image_lem :
      (t0 : Vmm) (text rodata data_ : ℕ × Vmm)
      → map_kernel_pages dir kernel_rx
          (rounds page_size im.text_start im.rodata_start)
          im.text_start
          t0
        ≡ some text
      → map_kernel_pages dir kernel_ro (rounds page_size text.0 im.data_start) text.0 text.1
        ≡ some rodata
      → map_kernel_pages dir kernel_rw (rounds page_size rodata.0 end_) rodata.0 rodata.1
        ≡ some data_
      → map_image im dir (pages_of t0)
        ≡ pages_of
            (vm_map_4m dir 0xF0000000 0xF0000000 kernel_rw (
              map_kernel_megapages dir kernel_rw
                (rounds 0x400000 data_.0 im.memory_top)
                data_.0
                data_.1)).1
  unfolding map_image
  map_image_lem t0 (va1, t1) (va2, t2) (va3, t3) e1 e2 e3 =
      let l1 =
        map_pages_lem dir kernel_rx (rounds page_size im.text_start im.rodata_start) im.text_start
          t0 va1 t1 linked.text_page e1 in
      let a1 : va1 ≡ im.rodata_start =
        let p = linked.text_page in
        let q = linked.rodata_page in let r = linked.rodata_behind in omega (arith, l1.1) in
      let l2 =
        map_pages_lem dir kernel_ro (rounds page_size va1 im.data_start) va1 t1 va2 t2
          (let p = linked.rodata_page in omega arith) e2 in
      let a2 : va2 ≡ im.data_start =
        let p = linked.data_page in
        let q = linked.rodata_page in let r = linked.data_behind in omega (arith, l2.1, a1) in
      let l3 =
        map_pages_lem dir kernel_rw (rounds page_size va2 end_) va2 t2 va3 t3
          (let p = linked.data_page in omega arith) e3 in
      let a3 : va3 % 0x400000 ≡ 0 =
        let p = linked.data_page in let q = linked.end_behind in omega (arith, l3.1, a2) in
      rw
        (
          l1.0,
          map_image,
          l2.0,
          l3.0,
          map_megapages_lem dir kernel_rw (rounds 0x400000 va3 im.memory_top) va3 t3 a3,
        )
        (map_page_4m_lem dir 0xF0000000 0xF0000000 kernel_rw
          (map_kernel_megapages dir kernel_rw (rounds 0x400000 va3 im.memory_top) va3 t3) refl refl)

-- For an image whose sections begin at pages and follow one another, ex25 builds, word for word, the
-- tables that the kernel of xos builds, and keeps the same free pages, wherever that one does not run
-- out of pages.
pub start_tables_lem :
    (im : Image) (s : Vmm) (dir : ℕ) (s' : Vmm)
    → IsLinked im
    → kernel_tables im s ≡ some (dir, s')
    → (start_tables im s.words).0 ≡ dir × ((start_tables im s.words).1 ≡ pages_of s')
unfolding kernel_tables start_tables
start_tables_lem im s dir s' linked e =
    let s0 = vmm_init (kva_to_pa im.image_end) (kva_to_pa im.memory_top - 2 * page_size) s in
    elim (Option-cases (kpage_alloc_z s0)) [
      | inl panics ↦ cc (rw panics at e)
      | inr ((d, t0), a) ↦
          let n1 = rounds page_size im.text_start im.rodata_start in
          let e0 = rw a at e in
          elim (Option-cases (map_kernel_pages d kernel_rx n1 im.text_start t0)) [
            | inl panics ↦ cc (rw panics at e0)
            | inr (text, m1) ↦
                let n2 = rounds page_size text.0 im.data_start in
                let e1 = rw m1 at e0 in
                elim (Option-cases (map_kernel_pages d kernel_ro n2 text.0 text.1)) [
                  | inl panics ↦ cc (rw panics at e1)
                  | inr (rodata, m2) ↦
                      let n3 = rounds page_size rodata.0 (end_ im linked d) in
                      let e2 = rw m2 at e1 in
                      elim (Option-cases (map_kernel_pages d kernel_rw n3 rodata.0 rodata.1)) [
                        | inl panics ↦ cc (rw panics at e2)
                        | inr (data_, m3) ↦
                            let e3 = rw m3 at e2 in
                            let al = alloc_ppage_lem s0 d t0 a in
                            let mapped = map_image_lem im linked d t0 text rodata data_ m1 m2 m3 in
                            let built = some-injective _ _ e3 in
                            let same_dir = ap (λ (r : ℕ × Vmm). r.0) built in
                            (
                              al.0 ∙ same_dir,
                              ap₂ (λ pdir p. map_image im pdir p) al.0 al.1
                                  ∙ mapped
                                  ∙ ap (λ (r : ℕ × Vmm). pages_of r.1) built,
                            )
                      ]
                ]
          ]
    ]
