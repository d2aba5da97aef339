-- ===== src/Boot/Number/Value.antt =====
-- The number that `atox` of boot/console.c reads.
use os_workshop.Base.{
  ℕ, suc, ◌+◌, ◌*◌, ◌/◌, ◌^◌, ◌<◌, ◌≡◌, bit_or, List, [], ◌∷◌, Option-cases, none, some, u32,
  length, arith, ap, ◌∙◌, sym, inl, inr,
}
use native.Mathlib.Nat.{add-mul-mod_self_right, pow-succ'}
use os_workshop.Boot.Number.Digits.{bit_or-digit}
use os_workshop.Boot.Number.{hex_digit, atox_from, atox}

-- The values of the hexadecimal digits at the start of a string.
unfoldable pub leading_digits : List ℕ → List ℕ
leading_digits [] = []
leading_digits (c ∷ s) = elim (hex_digit c) [ none ↦ [] | some d ↦ d ∷ leading_digits s ]

-- What digits stand for, each at its own power of 16.
abbrev pub hex_value : List ℕ → ℕ
hex_value [] = 0
hex_value (d ∷ ds) = d * 16 ^ length ds + hex_value ds

hex_digit-small : (c d : ℕ) → hex_digit c ≡ some d → d < 16
unfolding hex_digit
hex_digit-small c d e = ground (arith, e)

shift_in : (n d : ℕ) → n < 2 ^ 32 → d < 16 → bit_or (u32 (n * 2 ^ 4)) d ≡ u32 (n * 16) + d
shift_in n d small digit = bit_or-digit (u32 (n * 16)) d (omega arith) digit

-- A carry out of the word does not change the value modulo the word.
carry : (n d p v : ℕ) → u32 ((u32 (n * 16) + d) * p + v) ≡ u32 (n * (16 * p) + (d * p + v))
carry n d p v =
    let q = n * 16 / 2 ^ 32 in
    let word : n * 16 ≡ u32 (n * 16) + q * 2 ^ 32 = omega arith in
    let split : n * (16 * p) + (d * p + v) ≡ ((u32 (n * 16) + d) * p + v) + (q * p) * 2 ^ 32 =
      grind (arith, ap (λ x. x * p) word) in
    sym (ap u32 split ∙ add-mul-mod_self_right ((u32 (n * 16) + d) * p + v) (q * p) (2 ^ 32))

atox_from_lem :
    (n : ℕ) (s : List ℕ)
    → n < 2 ^ 32
    → atox_from n s ≡ u32 (n * 16 ^ length (leading_digits s) + hex_value (leading_digits s))
unfolding atox_from leading_digits
atox_from_lem n [] small = omega arith
atox_from_lem n (c ∷ s) small = elim (Option-cases (hex_digit c)) [
  | inl e ↦ rw (e, atox_from, leading_digits) (omega arith)
  | inr (d, e) ↦
      let digit = hex_digit-small c d e in
      let ds = leading_digits s in
      let next : u32 (n * 16) + d < 2 ^ 32 = omega arith in
      rw (e, atox_from, leading_digits)
        (ap (λ k. atox_from k s) (shift_in n d small digit)
          ∙ atox_from_lem (u32 (n * 16) + d) s next
          ∙ carry n d (16 ^ length ds) (hex_value ds)
          ∙ ap (λ p. u32 (n * p + (d * 16 ^ length ds + hex_value ds))) (higher (length ds)))
]
  where
    higher : (k : ℕ) → 16 * 16 ^ k ≡ 16 ^ suc k
    higher k = sym (pow-succ' 16 k)

-- `atox` returns the number that the hexadecimal digits at the start of the string stand for, as
-- long as it is below 2 ^ 32, and else that number modulo 2 ^ 32.
atox_lem : (s : List ℕ) → atox s ≡ u32 (hex_value (leading_digits s))
unfolding atox
atox_lem s = atox_from_lem 0 s (omega arith) ∙ ap u32 (omega arith)
