-- ===== src/Boot/Console/Scan.antt =====
-- The two inner loops of `console_line`.
use os_workshop.Base.{
  ℕ, zero, suc, ◌+◌, ◌≤◌, ◌<◌, ◌≡◌, inl, inr, ◌==◌, if◌then◌else◌, List, [], ◌∷◌, length, Memory,
  wr8, arith, refl, ap, ap₂, ◌∙◌, sym, true, false, Bool-cases,
}
use mathlib.Core.Path.{subst}
use os_workshop.Boot.Console.Defs.{skip_spaces, find_end, Stop, at_space, at_end}
use os_workshop.Boot.Console.Strings.{Spells, Starts, Spells-frame}

abbrev pub drop_spaces : List ℕ → List ℕ
drop_spaces [] = []
drop_spaces (c ∷ s) = if c == b' ' then drop_spaces s else c ∷ s

-- Up to the first space, and from there.
abbrev pub word : List ℕ → List ℕ
word [] = []
word (c ∷ s) = if c == b' ' then [] else c ∷ word s

abbrev pub after_word : List ℕ → List ℕ
after_word [] = []
after_word (c ∷ s) = if c == b' ' then c ∷ s else after_word s

pub length-drop_spaces : (s : List ℕ) → length (drop_spaces s) ≤ length s
length-drop_spaces [] = omega arith
length-drop_spaces (c ∷ s) = ground (arith, length-drop_spaces s)

pub length-after_word : (s : List ℕ) → length (word s) + length (after_word s) ≡ length s
length-after_word [] = omega arith
length-after_word (c ∷ s) = ground (arith, length-after_word s)

-- What `skip_spaces` leaves, of a string `s` at `at`.
pub record Skipped (m : Memory) (at : ℕ) (s : List ℕ) (m' : Memory) (start : ℕ) : Type 0 where
  pub spelled : Spells m' start (drop_spaces s)
  pub onward : at ≤ start
  pub below : (j : ℕ) → j < at → m' j ≡ m j
  pub cleared : m at ≡ b' ' → (at < start) × (m' at ≡ 0)

pub skip_spaces_lem :
    (fuel : ℕ) (m : Memory) (at : ℕ) (s : List ℕ)
    → Spells m at s
    → length s < fuel
    → Skipped m at s (skip_spaces fuel m at).0 (skip_spaces fuel m at).1
unfolding skip_spaces
skip_spaces_lem zero m at s h lt = absurd (omega arith)
skip_spaces_lem (suc fuel) m at [] h lt =
    let other : (m at == b' ') ≡ false = ground arith in
    rw other (record {
      spelled = h;
      onward = omega arith;
      below = λ j _. refl;
      cleared = λ space. absurd (ground arith);
    })
skip_spaces_lem (suc fuel) m at (c ∷ s) h lt = elim (Bool-cases (m at == b' ')) [
  | inl space ↦
      let c_space : (c == b' ') ≡ true = ground arith in
      let m1 = wr8 m at 0 in
      let next =
        skip_spaces_lem fuel m1 (at + 1) s (Spells-frame m m1 (at + 1) s (λ j le. ground arith) h.2)
          (omega arith) in
      let zeroed = next.below at (omega arith) in
      rw space (record {
        spelled = rw c_space next.spelled;
        onward = omega (arith, next.onward);
        below = λ j lt. next.below j (omega arith) ∙ ground arith;
        cleared = λ _. (omega (arith, next.onward), zeroed ∙ ground arith);
      })
  | inr other ↦
      let c_other : (c == b' ') ≡ false = ground arith in
      rw other (record {
        spelled = rw c_other h;
        onward = omega arith;
        below = λ j _. refl;
        cleared = λ space. absurd (ground arith);
      })
]

-- What `find_end` finds, of a string `s` at `at`.
pub record Ends (m : Memory) (at : ℕ) (s : List ℕ) : Type 0 where
  pub starts : Starts m at (word s)
  pub rest : Spells m (at + length (word s)) (after_word s)

pub Spells-Ends : (m : Memory) (at : ℕ) (s : List ℕ) → Spells m at s → Ends m at s
Spells-Ends m at [] h = record { starts = tt; rest = ap m (omega arith) ∙ h }
Spells-Ends m at (c ∷ s) h = elim (Bool-cases (c == b' ')) [
  | inl space ↦
      let same : at ≡ at + 0 = omega arith in
      record { starts = rw space tt; rest = rw space (subst (λ k. Spells m k (c ∷ s)) same h) }
  | inr other ↦
      let tail = Spells-Ends m (at + 1) s h.2 in
      let same : at + 1 + length (word s) ≡ at + suc (length (word s)) = omega arith in
      record {
        starts = rw other (h.0, h.1, tail.starts);
        rest = rw other (subst (λ k. Spells m k (after_word s)) same tail.rest);
      }
]

abbrev pub stop_of : (rest : List ℕ) → ℕ → Stop
stop_of [] at = at_end at
stop_of (c ∷ rest) at = at_space at

pub find_end_lem :
    (fuel : ℕ) (m : Memory) (at : ℕ) (s : List ℕ)
    → Spells m at s
    → length s < fuel
    → find_end fuel m at ≡ stop_of (after_word s) (at + length (word s))
unfolding find_end
find_end_lem zero m at s h lt = absurd (omega arith)
find_end_lem (suc fuel) m at [] h lt =
    let other : (m at == b' ') ≡ false = ground arith in
    let end_ : (m at == 0) ≡ true = ground arith in rw (other, end_) (ap at_end (omega arith))
find_end_lem (suc fuel) m at (c ∷ s) h lt = elim (Bool-cases (c == b' ')) [
  | inl space ↦
      let m_space : (m at == b' ') ≡ true = ground arith in
      let rest : after_word (c ∷ s) ≡ c ∷ s = rw space in
      let none_ : word (c ∷ s) ≡ [] = rw space in
      let here : at ≡ at + length (word (c ∷ s)) = omega (arith, ap length none_) in
      rw m_space (ap at_space here ∙ ap (λ r. stop_of r (at + length (word (c ∷ s)))) (sym rest))
  | inr other ↦
      let m_other : (m at == b' ') ≡ false = ground arith in
      let m_some : (m at == 0) ≡ false = ground arith in
      let rest : after_word (c ∷ s) ≡ after_word s = rw other in
      let more : word (c ∷ s) ≡ c ∷ word s = rw other in
      let here : at + 1 + length (word s) ≡ at + length (word (c ∷ s)) =
        omega (arith, ap length more) in
      rw (m_other, m_some)
        (find_end_lem fuel m (at + 1) s h.2 (omega arith) ∙ ap₂ stop_of (sym rest) here)
]

pub word_all : (s : List ℕ) → after_word s ≡ [] → word s ≡ s
word_all [] e = refl
word_all (c ∷ s) e = elim (Bool-cases (c == b' ')) [
  | inl space ↦ cc (rw space at e)
  | inr other ↦ rw other (ap (λ t. c ∷ t) (word_all s (rw other at e)))
]

-- After a word comes a space or nothing; what is left of spaces starts no space.
pub after_word-space : (s : List ℕ) (c : ℕ) (t : List ℕ) → after_word s ≡ c ∷ t → c ≡ b' '
after_word-space [] c t e = cc
after_word-space (d ∷ s) c t e = elim (Bool-cases (d == b' ')) [
  | inl space ↦ ground (arith, (rw space at e))
  | inr other ↦ after_word-space s c t (rw other at e)
]
