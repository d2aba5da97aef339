-- ===== src/Xos/Kernel/Tables/First.antt =====
-- The directory that `start` of xos/src/kernel.c takes first.
use os_workshop.Base.{ℕ, ◌+◌, ◌-◌, ◌/◌, ◌%◌, ◌^◌, ◌≤◌, ◌<◌, ◌≡◌, false, none, some, arith, ap, refl}
use os_workshop.Xos.Vmm.{Vmm, kva_offset, is_valid, kpage_alloc_z, vmm_init}
use os_workshop.Xos.Vmm.Sv32.{dir_entry, translate, IsSpace, IsTable}
use os_workshop.Xos.Vmm.Alloc.{taken, kpage_alloc_z-taken}

-- The first page is a directory without entries.
module _ (bottom top : ℕ) (s : Vmm) (bottom_page : bottom % 4096 ≡ 0) (top_page : top % 4096 ≡ 0)
    (left : bottom < top) (below : top ≤ kva_offset) where
  abbrev pub first_space : Vmm
  first_space = taken (vmm_init bottom top s)

  first_dir : (i : ℕ) → i < 1024 → dir_entry first_space.words (top - 4096) i ≡ 0
  first_dir i lt = ground arith

  pub first_invalid :
      (i : ℕ) → i < 1024 → is_valid (dir_entry first_space.words (top - 4096) i) ≡ false
  first_invalid i lt = ap is_valid (first_dir i lt)

  pub first_alloc :
      kpage_alloc_z (vmm_init bottom top s) ≡ some (top - 4096 + kva_offset, first_space)
  first_alloc =
      kpage_alloc_z-taken (vmm_init bottom top s)
        (record {
          bottom_page = bottom_page;
          top_page = top_page;
          ordered = omega arith;
          below = below;
        })
        left

  no_table : (i : ℕ) → i < 1024 → IsTable (dir_entry first_space.words (top - 4096) i) → ⊥
  no_table i lt t = let z = first_dir i lt in ground arith

  pub first-IsSpace : IsSpace top (top - 4096) first_space
  first-IsSpace = record {
    below = below;
    bottom_page = bottom_page;
    top_page = omega arith;
    ordered = omega arith;
    top_hi = omega arith;
    dir = (omega arith, omega arith, omega arith);
    tables = λ i lt t. absurd (no_table i lt t);
    apart = λ i j li lj ne ti tj. absurd (no_table i li ti);
  }

  pub first-translate : (va : ℕ) → va < 2 ^ 32 → translate first_space.words (top - 4096) va ≡ none
  unfolding translate
  first-translate va lt = rw (first_invalid (va / 2 ^ 22) (omega arith)) refl
