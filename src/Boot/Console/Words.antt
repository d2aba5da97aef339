-- ===== src/Boot/Console/Words.antt =====
-- The words of a line that `console_line` cuts, in place, against a function on lists.
use os_workshop.Base.{
  ℕ, zero, suc, ◌+◌, ◌≤◌, ◌<◌, ◌≡◌, ◌⊎◌, inl, inr, ◌==◌, if◌then◌else◌, List, [], ◌∷◌, length, map,
  Memory, wr8, arith, refl, ap, ap₂, ◌∙◌, true, false,
}
use mathlib.Core.Path.{subst}
use os_workshop.Boot.LineEditor.{string_at, cmdbuf_size}
use os_workshop.Boot.Console.Defs.{
  skip_spaces, find_end, at_space, at_end, tokenise, maxtok, run_words, console_line,
}
use os_workshop.Boot.Console.Strings.{Spells, Starts, Starts-frame, Starts-Spells, string_at-Spells}
use os_workshop.Boot.Console.Scan.{
  Skipped, drop_spaces, word, after_word, length-drop_spaces, length-after_word, skip_spaces_lem,
  Spells-Ends, find_end_lem, stop_of, after_word-space, word_all,
}

-- At most `room` words; the last that there is room for takes the rest of the line with it.
unfoldable pub cut : (room : ℕ) → List ℕ → List (List ℕ)
cut zero s = []
cut (suc zero) s = elim (drop_spaces s) [ [] ↦ [] | c ∷ t ↦ (c ∷ t) ∷ [] ]
cut (suc (suc room)) s = elim (drop_spaces s) [
  | [] ↦ []
  | c ∷ t ↦ word (c ∷ t) ∷ cut (suc room) (after_word (c ∷ t))
]

List-cases : (xs : List ℕ) → (xs ≡ []) ⊎ ((c : ℕ) × (t : List ℕ) × (xs ≡ c ∷ t))
List-cases [] = inl refl
List-cases (c ∷ t) = inr (c, t, refl)

-- Each address has the string, of less than `size` characters.
abbrev AllSpell : (size : ℕ) → Memory → List ℕ → List (List ℕ) → Type 0
AllSpell size m [] [] = Unit
AllSpell size m [] (w ∷ ws) = ⊥
AllSpell size m (at ∷ tokens) [] = ⊥
AllSpell size m (at ∷ tokens) (w ∷ ws) =
    Spells m at w × (length w < size) × AllSpell size m tokens ws

map-AllSpell :
    (size : ℕ) (m : Memory) (tokens : List ℕ) (ws : List (List ℕ))
    → AllSpell size m tokens ws
    → map (λ at. string_at m at size) tokens ≡ ws
map-AllSpell size m [] [] h = refl
map-AllSpell size m [] (w ∷ ws) h = elim h [ ]
map-AllSpell size m (at ∷ tokens) [] h = elim h [ ]
map-AllSpell size m (at ∷ tokens) (w ∷ ws) h =
    ap₂ ◌∷◌ (string_at-Spells m at size w h.0 h.1) (map-AllSpell size m tokens ws h.2)

-- What `tokenise` leaves, of a string `s` at `at`.
record Tokenised (fuel room : ℕ) (m : Memory) (at : ℕ) (s : List ℕ) (m' : Memory) (tokens : List ℕ)
    : Type 0 where
  pub spelled : AllSpell fuel m' tokens (cut room s)
  pub below : (j : ℕ) → j < at → m' j ≡ m j
  pub cleared : 0 < room → m at ≡ b' ' → m' at ≡ 0

cut-nil : (room : ℕ) → cut room [] ≡ []
unfolding cut
cut-nil zero = refl
cut-nil (suc zero) = refl
cut-nil (suc (suc room)) = refl

cut_none : (room : ℕ) (s : List ℕ) → drop_spaces s ≡ [] → cut (suc room) s ≡ []
unfolding cut
cut_none zero s e = rw (e, cut)
cut_none (suc room) s e = rw (e, cut)

-- A last word.
cut_last :
    (room : ℕ) (s : List ℕ) (c : ℕ) (t : List ℕ)
    → drop_spaces s ≡ c ∷ t
    → after_word (c ∷ t) ≡ []
    → cut (suc room) s ≡ (c ∷ t) ∷ []
unfolding cut
cut_last zero s c t e rest = rw (e, cut)
cut_last (suc room) s c t e rest =
    rw (e, cut) (ap₂ ◌∷◌ (word_all (c ∷ t) rest) (ap (cut (suc room)) rest ∙ cut-nil (suc room)))

module _ (fuel room : ℕ) (m : Memory) (at : ℕ) where
  abbrev skipped : Memory
  skipped = (skip_spaces fuel m at).0

  abbrev first : ℕ
  first = (skip_spaces fuel m at).1

  tokenise_space :
      (e : ℕ)
      → find_end fuel skipped first ≡ at_space e
      → tokenise fuel (suc room) m at
        ≡ ((tokenise fuel room skipped e).0, first ∷ (tokenise fuel room skipped e).1)
  unfolding tokenise
  tokenise_space e found = rw (found, tokenise)

  tokenise_end :
      (e : ℕ)
      → find_end fuel skipped first ≡ at_end e
      → tokenise fuel (suc room) m at
        ≡ (if first == e then (skipped, []) else (wr8 skipped e 0, first ∷ []))
  unfolding tokenise
  tokenise_end e found = rw (found, tokenise)

-- The cases of one round: nothing is left, a word that ends the line, a word with a space behind it.
module _ (fuel room : ℕ) (m : Memory) (at : ℕ) (s : List ℕ)
    (sk : Skipped m at s (skipped fuel room m at) (first fuel room m at)) where
  abbrev buf : Memory
  buf = skipped fuel room m at

  abbrev start : ℕ
  start = first fuel room m at

  abbrev Done : Memory × List ℕ → Type 0
  Done r = Tokenised fuel (suc room) m at s r.0 r.1

  none_left : drop_spaces s ≡ [] → Done (buf, [])
  none_left e = record {
    spelled = rw (cut_none room s e) tt;
    below = sk.below;
    cleared = λ _ space. (sk.cleared space).1;
  }

  last_word :
      (c : ℕ) (t : List ℕ)
      → drop_spaces s ≡ c ∷ t
      → length s < fuel
      → after_word (c ∷ t) ≡ []
      → Done (wr8 buf (start + length (word (c ∷ t))) 0, start ∷ [])
  last_word c t e lt rest =
      let e' = word_all (c ∷ t) rest in
      let size : length (word (c ∷ t)) ≡ suc (length t) = ap length e' in
      let line : Spells buf start (c ∷ t) = subst (Spells buf start) e sk.spelled in
      let end_ = start + length (word (c ∷ t)) in
      let starts = subst (Starts buf start) e' (Spells-Ends buf start (c ∷ t) line).starts in
      let short : suc (length t) ≤ length s = omega (arith, ap length e, length-drop_spaces s) in
      record {
        spelled = rw (cut_last room s c t e rest) (
          Starts-Spells (wr8 buf end_ 0) start (c ∷ t)
              (Starts-frame buf (wr8 buf end_ 0) start (c ∷ t) (λ j lt. ground arith) starts)
              (ground arith),
          omega arith,
          tt,
        );
        below = λ j lt. ground (arith, sk.below j, sk.onward);
        cleared = λ _ space. ground (arith, sk.cleared space);
      }

cut_more :
    (room : ℕ) (s : List ℕ) (c : ℕ) (t : List ℕ)
    → drop_spaces s ≡ c ∷ t
    → cut (suc (suc room)) s ≡ word (c ∷ t) ∷ cut (suc room) (after_word (c ∷ t))
unfolding cut
cut_more room s c t e = rw (e, cut)

cut_one : (s : List ℕ) (c : ℕ) (t : List ℕ) → drop_spaces s ≡ c ∷ t → cut 1 s ≡ (c ∷ t) ∷ []
unfolding cut
cut_one s c t e = rw (e, cut)

-- A word with a space behind it, from what the rest of the loop leaves.
spelled_more :
    (fuel room : ℕ) (m' buf : Memory) (start : ℕ) (tokens : List ℕ) (s : List ℕ) (c : ℕ)
    (t : List ℕ) (d : ℕ) (u : List ℕ)
    → drop_spaces s ≡ c ∷ t
    → Spells buf start (c ∷ t)
    → length (c ∷ t) < fuel
    → after_word (c ∷ t) ≡ d ∷ u
    → Tokenised fuel (suc room) buf (start + length (word (c ∷ t))) (after_word (c ∷ t)) m' tokens
    → AllSpell fuel m' (start ∷ tokens) (cut (suc (suc room)) s)
spelled_more fuel room m' buf start tokens s c t d u e line lt rest ih =
    let ends = Spells-Ends buf start (c ∷ t) line in
    let end_ = start + length (word (c ∷ t)) in
    let next : Spells buf end_ (d ∷ u) = subst (Spells buf end_) rest ends.rest in
    let space : buf end_ ≡ b' ' = next.0 ∙ after_word-space (c ∷ t) d u rest in
    rw (cut_more room s c t e) (
      Starts-Spells m' start (word (c ∷ t))
          (Starts-frame buf m' start (word (c ∷ t)) ih.below ends.starts)
          (ih.cleared (omega arith) space),
      omega (arith, length-after_word (c ∷ t)),
      ih.spelled,
    )

round :
    (fuel room : ℕ) (m : Memory) (at : ℕ) (s : List ℕ)
    → Skipped m at s (skipped fuel room m at) (first fuel room m at)
    → (c : ℕ) (t : List ℕ) (m' : Memory) (tokens : List ℕ)
    → AllSpell fuel m' (first fuel room m at ∷ tokens) (cut (suc room) s)
    → ((j : ℕ) → j < first fuel room m at + length (word (c ∷ t)) → m' j ≡ skipped fuel room m at j)
    → Tokenised fuel (suc room) m at s m' (first fuel room m at ∷ tokens)
round fuel room m at s sk c t m' tokens spelled below = record {
  spelled = spelled;
  below = λ j lt. below j (omega (arith, sk.onward)) ∙ sk.below j lt;
  cleared = λ _ space. let c' = sk.cleared space in below at (omega (arith, c'.0)) ∙ c'.1;
}

spelled_space :
    (fuel room : ℕ) (buf : Memory) (start : ℕ) (s : List ℕ) (c : ℕ) (t : List ℕ) (d : ℕ)
    (u : List ℕ)
    → drop_spaces s ≡ c ∷ t
    → Spells buf start (c ∷ t)
    → length (c ∷ t) < fuel
    → after_word (c ∷ t) ≡ d ∷ u
    → (let e = start + length (word (c ∷ t)) in
        let r = tokenise fuel room buf e in
        Tokenised fuel room buf e (after_word (c ∷ t)) r.0 r.1
        → AllSpell fuel r.0 (start ∷ r.1) (cut (suc room) s))
unfolding tokenise
spelled_space fuel zero buf start s c t d u e line lt rest ih = rw (cut_one s c t e) (line, lt, tt)
spelled_space fuel (suc room) buf start s c t d u e line lt rest ih =
    let r = tokenise fuel (suc room) buf (start + length (word (c ∷ t))) in
    spelled_more fuel room r.0 buf start r.1 s c t d u e line lt rest ih

tokenise_lem :
    (room fuel : ℕ) (m : Memory) (at : ℕ) (s : List ℕ)
    → Spells m at s
    → length s < fuel
    → Tokenised fuel room m at s (tokenise fuel room m at).0 (tokenise fuel room m at).1
tokenise_lem zero fuel m at s h lt =
    unfold tokenise cut in
    record { spelled = tt; below = λ j _. refl; cleared = λ some_ _. absurd (omega arith) }
tokenise_lem (suc room) fuel m at s h lt =
    let sk = skip_spaces_lem fuel m at s h lt in
    let short = length-drop_spaces s in
    let buf = skipped fuel room m at in
    let start = first fuel room m at in
    let found = find_end_lem fuel buf start (drop_spaces s) sk.spelled (omega arith) in
    elim (List-cases (drop_spaces s)) [
      | inl e ↦
          let ended : find_end fuel buf start ≡ at_end (start + 0) = rw e at found in
          let same : (start == start + 0) ≡ true = ground arith in
          rw (tokenise_end fuel room m at (start + 0) ended, same) (none_left fuel room m at s sk e)
      | inr (c, t, e) ↦
          let line : Spells buf start (c ∷ t) = subst (Spells buf start) e sk.spelled in
          let end_ = start + length (word (c ∷ t)) in
          let found' : find_end fuel buf start ≡ stop_of (after_word (c ∷ t)) end_ =
            rw e at found in
          elim (List-cases (after_word (c ∷ t))) [
            | inl rest ↦
                let ended : find_end fuel buf start ≡ at_end end_ = rw rest at found' in
                let size = ap length (word_all (c ∷ t) rest) in
                let other : (start == end_) ≡ false = ground arith in
                rw (tokenise_end fuel room m at end_ ended, other)
                  (last_word fuel room m at s sk c t e lt rest)
            | inr (d, u, rest) ↦
                let spaced : find_end fuel buf start ≡ at_space end_ = rw rest at found' in
                let ends = Spells-Ends buf start (c ∷ t) line in
                let len = ap length e in
                let ih =
                  tokenise_lem room fuel buf end_ (after_word (c ∷ t)) ends.rest
                    (omega (arith, length-after_word (c ∷ t))) in
                let r = tokenise fuel room buf end_ in
                rw (tokenise_space fuel room m at end_ spaced) (
                  round fuel room m at s sk c t r.0 r.1
                    (spelled_space fuel room buf start s c t d u e line (omega arith) rest ih)
                    ih.below)
          ]
    ]

-- A line of fewer than 128 characters does what its words do: those between its spaces, except that
-- the sixteenth takes the rest of the line with it. What stood in the buffer before and behind the
-- line has no part in it.
pub console_line_lem :
    (m : Memory) (line : ℕ) (s : List ℕ)
    → Spells m line s
    → length s < cmdbuf_size
    → (console_line m line).1 ≡ run_words (cut maxtok s)
unfolding console_line
console_line_lem m line s h lt =
    let t = tokenise_lem maxtok cmdbuf_size m line s h lt in
    ap run_words (
      map-AllSpell cmdbuf_size (tokenise cmdbuf_size maxtok m line).0
        (tokenise cmdbuf_size maxtok m line).1 (cut maxtok s) t.spelled)
