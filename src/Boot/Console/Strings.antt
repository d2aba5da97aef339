-- ===== src/Boot/Console/Strings.antt =====
-- Strings in a buffer, as boot/console.c reads them.
use os_workshop.Base.{
  ℕ, zero, suc, ◌+◌, ◌≤◌, ◌<◌, ◌≡◌, ◌==◌, List, [], ◌∷◌, length, Memory, arith, ap, ◌∙◌, false,
  Bool-cases, inl, inr,
}
use os_workshop.Boot.LineEditor.{string_at}

-- The string at an address, with the zero that ends it.
abbrev pub Spells : Memory → ℕ → List ℕ → Type 0
Spells m at [] = m at ≡ 0
Spells m at (c ∷ s) = (m at ≡ c) × (0 < c) × Spells m (at + 1) s

-- The characters at an address, whatever follows them.
abbrev pub Starts : Memory → ℕ → List ℕ → Type 0
Starts m at [] = Unit
Starts m at (c ∷ s) = (m at ≡ c) × (0 < c) × Starts m (at + 1) s

pub string_at-Spells :
    (m : Memory) (at size : ℕ) (s : List ℕ)
    → Spells m at s
    → length s < size
    → string_at m at size ≡ s
unfolding string_at
string_at-Spells m at zero s h lt = absurd (omega arith)
string_at-Spells m at (suc size) [] h lt = ground (arith, h)
string_at-Spells m at (suc size) (c ∷ s) h lt =
    let rest = string_at-Spells m (at + 1) size s h.2 (omega arith) in
    let some_ : (m at == 0) ≡ false = ground (arith, h.0, h.1) in
    rw some_ (ap (λ x. x ∷ string_at m (at + 1) size) h.0 ∙ ap (λ t. c ∷ t) rest)

pub Spells-frame :
    (m m' : Memory) (at : ℕ) (s : List ℕ)
    → ((j : ℕ) → at ≤ j → m' j ≡ m j)
    → Spells m at s
    → Spells m' at s
Spells-frame m m' at [] same h = same at (omega arith) ∙ h
Spells-frame m m' at (c ∷ s) same h = (
  same at (omega arith) ∙ h.0,
  h.1,
  Spells-frame m m' (at + 1) s (λ j le. same j (omega arith)) h.2,
)

pub Starts-frame :
    (m m' : Memory) (at : ℕ) (s : List ℕ)
    → ((j : ℕ) → j < at + length s → m' j ≡ m j)
    → Starts m at s
    → Starts m' at s
Starts-frame m m' at [] same h = tt
Starts-frame m m' at (c ∷ s) same h = (
  same at (omega arith) ∙ h.0,
  h.1,
  Starts-frame m m' (at + 1) s (λ j lt. same j (omega arith)) h.2,
)

-- Characters with a zero behind them are a string.
pub Starts-Spells :
    (m : Memory) (at : ℕ) (s : List ℕ) → Starts m at s → m (at + length s) ≡ 0 → Spells m at s
Starts-Spells m at [] h e = ap m (omega arith) ∙ e
Starts-Spells m at (c ∷ s) h e = (h.0, h.1, Starts-Spells m (at + 1) s h.2 (ap m (omega arith) ∙ e))

pub Spells-string_at :
    (m : Memory) (at size : ℕ) (s : List ℕ)
    → string_at m at size ≡ s
    → length s < size
    → Spells m at s
unfolding string_at
Spells-string_at m at zero s e lt = absurd (omega arith)
Spells-string_at m at (suc size) [] e lt = elim (Bool-cases (m at == 0)) [
  | inl end_ ↦ ground arith
  | inr more ↦ cc (rw more at e)
]
Spells-string_at m at (suc size) (c ∷ s) e lt = elim (Bool-cases (m at == 0)) [
  | inl end_ ↦ cc (rw end_ at e)
  | inr more ↦
      let e' : m at ∷ string_at m (at + 1) size ≡ c ∷ s = rw more at e in
      let first : m at ≡ c = cc in
      (first, ground arith, Spells-string_at m (at + 1) size s (cc) (omega arith))
]
