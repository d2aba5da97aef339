-- ===== src/Boot/Number/Digits.antt =====
-- The `n << 4 | c` of boot/console.c as arithmetic.
use os_workshop.Base.{ℕ, zero, suc, ◌+◌, ◌/◌, ◌%◌, ◌≤◌, ◌<◌, ◌≡◌, bit_or, arith, ◌∙◌}
use Prim.Native.Nat.{digits, bit_or-bitwise, max}

or_digits : (n a b : ℕ) → ℕ
or_digits n a b = digits (λ y. y) max n a b

or_1 : (n a b : ℕ) → a ≤ n → b < 1 → or_digits n a b ≡ a + b
unfolding or_digits
or_1 zero a b fits small = ground arith
or_1 (suc n) zero b fits small = omega arith
or_1 (suc n) (suc a) b fits small =
    let rest = or_1 n (suc a / 2) (b / 2) (omega arith) (omega arith) in ground (arith, rest)

or_2 : (n a b : ℕ) → a ≤ n → a % 2 ≡ 0 → b < 2 → or_digits n a b ≡ a + b
unfolding or_digits
or_2 zero a b fits even small = ground arith
or_2 (suc n) zero b fits even small = omega arith
or_2 (suc n) (suc a) b fits even small =
    let rest = or_1 n (suc a / 2) (b / 2) (omega arith) (omega arith) in ground (arith, rest)

or_4 : (n a b : ℕ) → a ≤ n → a % 4 ≡ 0 → b < 4 → or_digits n a b ≡ a + b
unfolding or_digits
or_4 zero a b fits even small = ground arith
or_4 (suc n) zero b fits even small = omega arith
or_4 (suc n) (suc a) b fits even small =
    let rest = or_2 n (suc a / 2) (b / 2) (omega arith) (omega arith) (omega arith) in
    ground (arith, rest)

or_8 : (n a b : ℕ) → a ≤ n → a % 8 ≡ 0 → b < 8 → or_digits n a b ≡ a + b
unfolding or_digits
or_8 zero a b fits even small = ground arith
or_8 (suc n) zero b fits even small = omega arith
or_8 (suc n) (suc a) b fits even small =
    let rest = or_4 n (suc a / 2) (b / 2) (omega arith) (omega arith) (omega arith) in
    ground (arith, rest)

or_16 : (n a b : ℕ) → a ≤ n → a % 16 ≡ 0 → b < 16 → or_digits n a b ≡ a + b
unfolding or_digits
or_16 zero a b fits even small = ground arith
or_16 (suc n) zero b fits even small = omega arith
or_16 (suc n) (suc a) b fits even small =
    let rest = or_8 n (suc a / 2) (b / 2) (omega arith) (omega arith) (omega arith) in
    ground (arith, rest)

pub bit_or-digit : (a b : ℕ) → a % 16 ≡ 0 → b < 16 → bit_or a b ≡ a + b
unfolding or_digits
bit_or-digit a b even small = (λ i. bit_or-bitwise a b i) ∙ or_16 a a b (omega arith) even small
