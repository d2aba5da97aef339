-- ===== src/Xos/Kernel/Range.antt =====
-- What `map_framebuffer` of xos/src/kernel.c maps.
use os_workshop.Base.{
  ℕ, zero, suc, ◌+◌, ◌-◌, ◌*◌, ◌/◌, ◌%◌, ◌^◌, ◌≤◌, ◌<◌, ◌≡◌, false, some, arith, ◌⊎◌, inl, inr, ◌∙◌,
  ap, refl,
}
use mathlib.Core.Path.{subst}
use os_workshop.Xos.Vmm.{Vmm, kva_offset, is_valid}
use os_workshop.Xos.Vmm.Sv32.{dir_entry, frame_of, translate, IsTable, IsSpace, IsVacant, HasRoom}
use os_workshop.Xos.Vmm.Maps.{AddsPage, LeafFlags, vm_map_4k_maps}
use os_workshop.Xos.Kernel.{
  ◌>>=◌, map_range, map_framebuffer, framebuffer_base, framebuffer_size, user_rw,
}

-- `size` bytes at `va` are at `pa` in `s'`, and every other address is where it was in `s`.
pub record AddsRange (hi root va pa size flags : ℕ) (s s' : Vmm) : Type 0 where
  pub space : IsSpace hi root s'
  pub here :
      (va' : ℕ)
      → va ≤ va'
      → va' < va + size
      → translate s'.words root va' ≡ some (pa + (va' - va), flags % 1024)
  pub elsewhere :
      (va' : ℕ)
      → va' < 2 ^ 32
      → (va' < va) ⊎ (va + size ≤ va')
      → translate s'.words root va' ≡ translate s.words root va'
  pub vacant :
      (va' : ℕ)
      → va' < 2 ^ 32
      → (va' < va) ⊎ (va + size ≤ va')
      → IsVacant s.words root va'
      → IsVacant s'.words root va'
  pub unlinked :
      (j : ℕ)
      → j < 1024
      → (j < va / 2 ^ 22) ⊎ (va + size ≤ j * 2 ^ 22)
      → is_valid (dir_entry s.words root j) ≡ false
      → is_valid (dir_entry s'.words root j) ≡ false
  pub tables :
      (j : ℕ)
      → j < 1024
      → IsTable (dir_entry s'.words root j)
      → (dir_entry s'.words root j ≡ dir_entry s.words root j)
        ⊎ (frame_of (dir_entry s'.words root j) + 4096 ≤ s.pa_top)
  pub memory : (s'.pa_bottom ≡ s.pa_bottom) × (s.pa_top ≤ s'.pa_top + size) × (s'.pa_top ≤ s.pa_top)

pub room_or_page :
    (s : Vmm) (root va : ℕ)
    → IsVacant s.words root va
    → s.pa_bottom < s.pa_top
    → HasRoom s.words root va
      ⊎ ((is_valid (dir_entry s.words root (va / 2 ^ 22)) ≡ false) × (s.pa_bottom < s.pa_top))
room_or_page s root va (inl free) left = inr (free, left)
room_or_page s root va (inr room) left = inl room

below_or_not : (a b : ℕ) → (a < b) ⊎ (b ≤ a)
below_or_not a b = ground arith

-- A page, and the range behind it.
page-AddsRange :
    (hi root va pa size flags : ℕ) (s s1 s' : Vmm)
    → va % 4096 ≡ 0
    → va + 4096 + size ≤ 2 ^ 32
    → AddsPage hi root va pa flags s s1
    → AddsRange hi root (va + 4096) (pa + 4096) size flags s1 s'
    → AddsRange hi root va pa (4096 + size) flags s s'
page-AddsRange hi root va pa size flags s s1 s' pv small first rest = record {
  space = rest.space;
  here = λ va' lo up. elim (below_or_not va' (va + 4096)) [
    | inl near ↦
        rest.elsewhere va' (omega arith) (inl (omega arith))
        ∙ first.here va' (omega arith) (omega arith)
        ∙ ap (λ a. some (a, flags % 1024)) (omega arith)
    | inr far ↦
        rest.here va' (omega arith) (omega arith) ∙ ap (λ a. some (a, flags % 1024)) (omega arith)
  ];
  elsewhere =
      λ va' hv' out. rest.elsewhere va' hv' (ground arith) ∙ first.elsewhere va' hv' (ground arith);
  vacant = λ va' hv' out empty.
      rest.vacant va' hv' (ground arith) (first.vacant va' hv' (ground arith) empty);
  unlinked = λ j lj out invalid.
      rest.unlinked j lj (ground arith) (first.unlinked j lj (ground arith) invalid);
  tables = λ j lj t. elim (rest.tables j lj t) [
    | inl same ↦ elim (first.tables j lj (subst IsTable same t)) [
      | inl old ↦ inl (same ∙ old)
      | inr new ↦ inr (rw same new)
    ]
    | inr low ↦ inr (let a = first.memory in omega arith)
  ];
  memory = let a = first.memory in let b = rest.memory in (b.0 ∙ a.0, omega arith, omega arith);
}

module _ (hi root va pa flags : ℕ) (pv : va % 4096 ≡ 0) (pp : pa % 4096 ≡ 0)
    (lf : LeafFlags flags) where
  pub range_from :
      (n count : ℕ) (s : Vmm)
      → n % 4096 ≡ 0
      → va + n + count * 4096 ≤ 2 ^ 32
      → pa + n + count * 4096 ≤ 2 ^ 32
      → IsSpace hi root s
      → ((k : ℕ) → k < count → IsVacant s.words root (va + n + k * 4096))
      → s.pa_bottom + count * 4096 ≤ s.pa_top
      → (s' : Vmm) × (map_range (root + kva_offset) va pa flags n count s ≡ some s')
        × AddsRange hi root (va + n) (pa + n) (count * 4096) flags s s'
  unfolding map_range
  range_from n zero s pn hv hp sp empty enough = (
    s,
    refl,
    record {
      space = sp;
      here = λ va' lo up. absurd (omega arith);
      elsewhere = λ va' hv' out. refl;
      vacant = λ va' hv' out empty. empty;
      unlinked = λ j lj out invalid. invalid;
      tables = λ j lj t. inl refl;
      memory = (refl, omega arith, omega arith);
    },
  )
  range_from n (suc count) s pn hv hp sp empty enough =
      let here : va + n + 0 * 4096 ≡ va + n = omega arith in
      let vacant = subst (IsVacant s.words root) here (empty 0 (omega arith)) in
      let first =
        vm_map_4k_maps hi root (va + n) (pa + n) flags s sp (omega arith) (omega arith)
          (omega arith) (omega arith) lf (room_or_page s root (va + n) vacant (omega arith)) in
      let added = first.2 in
      let rest =
        range_from (n + 4096) count first.0 (omega arith) (omega arith) (omega arith) added.space
          (λ k lt.
            let at : va + n + suc k * 4096 ≡ va + (n + 4096) + k * 4096 = omega arith in
            added.vacant (va + (n + 4096) + k * 4096) (omega arith) (omega arith)
              (subst (IsVacant s.words root) at (empty (suc k) (omega arith))))
          (let a = added.memory in omega arith) in
      let next : va + (n + 4096) ≡ va + n + 4096 = omega arith in
      let next' : pa + (n + 4096) ≡ pa + n + 4096 = omega arith in
      let behind : AddsRange hi root (va + n + 4096) (pa + n + 4096) (count * 4096) flags first.0
          rest.0 =
        subst (λ a. AddsRange hi root a (pa + n + 4096) (count * 4096) flags first.0 rest.0) next
          (subst (λ b. AddsRange hi root (va + (n + 4096)) b (count * 4096) flags first.0 rest.0)
            next' rest.2) in
      let size : 4096 + count * 4096 ≡ suc count * 4096 = omega arith in
      (
        rest.0,
        ap (λ r. r >>= λ r. map_range (root + kva_offset) va pa flags (n + 4096) count r.1) first.1
            ∙ rest.1,
        subst (λ size. AddsRange hi root (va + n) (pa + n) size flags s rest.0) size
            (page-AddsRange hi root (va + n) (pa + n) (count * 4096) flags s first.0 rest.0
              (omega arith) (omega arith) added behind),
      )

-- `map_framebuffer` maps the framebuffer at 0x20000000 for the program, and nothing else, if nothing
-- is mapped there and memory is left for a table for each of its pages.
pub map_framebuffer_lem :
    (hi root : ℕ) (s : Vmm)
    → IsSpace hi root s
    → ((k : ℕ) → k < 150 → IsVacant s.words root (0x20000000 + k * 4096))
    → s.pa_bottom + 150 * 4096 ≤ s.pa_top
    → (s' : Vmm) × (map_framebuffer (root + kva_offset) s ≡ some s')
      × AddsRange hi root 0x20000000 framebuffer_base framebuffer_size user_rw s s'
unfolding map_framebuffer
map_framebuffer_lem hi root s sp empty enough =
    range_from hi root 0x20000000 framebuffer_base user_rw refl refl (refl, refl, refl) 0 150 s refl
      (omega arith) (omega arith) sp empty enough
