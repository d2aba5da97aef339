-- ===== src/Xos/Kernel/Overlay.antt =====
-- A range of addresses laid over a translation.
use os_workshop.Base.{
  ℕ, ◌+◌, ◌-◌, ◌%◌, ◌^◌, ◌≤◌, ◌<◌, ◌≡◌, leb, ltb, ◌&&◌, if◌then◌else◌, true, false, Option, some,
  arith, ◌⊎◌, inl, inr, ◌∙◌, refl,
}
use os_workshop.Xos.Vmm.{Vmm}
use os_workshop.Xos.Vmm.Sv32.{translate}
use os_workshop.Xos.Kernel.Range.{AddsRange}
use os_workshop.Xos.Kernel.Ranges.{AddsMegapages}

-- What a range adds to a translation.
abbrev pub overlay : (va pa size flags : ℕ) → (ℕ → Option (ℕ × ℕ)) → ℕ → Option (ℕ × ℕ)
overlay va pa size flags below x =
    if leb va x && ltb x (va + size) then some (pa + (x - va), flags % 1024) else below x

inside_or_not : (va size x : ℕ) → ((va ≤ x) × (x < va + size)) ⊎ (x < va) ⊎ (va + size ≤ x)
inside_or_not va size x = ground arith

module _ (root va pa size flags : ℕ) (s s' : Vmm) (below : ℕ → Option (ℕ × ℕ))
    (was : (x : ℕ) → x < 2 ^ 32 → translate s.words root x ≡ below x) where
  pub overlay_lem :
      ((x : ℕ)
        → va ≤ x
        → x < va + size
        → translate s'.words root x ≡ some (pa + (x - va), flags % 1024))
      → ((x : ℕ)
          → x < 2 ^ 32
          → (x < va) ⊎ (va + size ≤ x)
          → translate s'.words root x ≡ translate s.words root x)
      → (x : ℕ) → x < 2 ^ 32
      → translate s'.words root x ≡ overlay va pa size flags below x
  overlay_lem here elsewhere x lt = elim (inside_or_not va size x) [
    | inl (lo, up) ↦
        let test : (leb va x && ltb x (va + size)) ≡ true = ground arith in
        here x lo up ∙ rw test refl
    | inr out ↦
        let test : (leb va x && ltb x (va + size)) ≡ false = ground arith in
        elsewhere x lt out ∙ was x lt ∙ rw test refl
  ]

  pub AddsRange-overlay :
      (hi : ℕ)
      → AddsRange hi root va pa size flags s s'
      → (x : ℕ) → x < 2 ^ 32
      → translate s'.words root x ≡ overlay va pa size flags below x
  AddsRange-overlay hi a = overlay_lem a.here a.elsewhere

  pub AddsMegapages-overlay :
      (hi : ℕ)
      → AddsMegapages hi root va pa size flags s s'
      → (x : ℕ) → x < 2 ^ 32
      → translate s'.words root x ≡ overlay va pa size flags below x
  AddsMegapages-overlay hi a = overlay_lem a.here a.elsewhere
