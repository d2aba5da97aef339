-- ===== src/Boot/Number.antt =====
-- `atox` and `atoi` of boot/console.c, which read a hexadecimal and a decimal number. A string is the list of its
-- characters, without the zero that ends it.
mod Digits
pub mod Value
use os_workshop.Base.{
  ℕ, zero, suc, ◌+◌, ◌-◌, ◌*◌, ◌/◌, ◌%◌, ◌^◌, ◌==◌, leb, bit_or, if◌then◌else◌, ◌||◌, ◌&&◌, List,
  [], ◌∷◌, Option, none, some, u32,
}

-- The switch of `atox`: the value of a digit.
unfoldable pub hex_digit : ℕ → Option ℕ
hex_digit c =
    if leb b'a' c && leb c b'f'
    then some (c - b'a' + 10)
    else if leb b'A' c && leb c b'F'
    then some (c - b'A' + 10)
    else if leb b'0' c && leb c b'9'
    then some (c - b'0')
    else none

-- The loop of `atox`, from its `n`.
unfoldable pub atox_from : (n : ℕ) → (s : List ℕ) → ℕ
unfolding hex_digit
atox_from n [] = n
atox_from n (c ∷ s) = elim (hex_digit c) [
  | none ↦ n
  | some d ↦ atox_from (bit_or (u32 (n * 2 ^ 4)) d) s
]

unfoldable pub atox : List ℕ → ℕ
unfolding atox_from
atox s = atox_from 0 s

-- The loop of `atoi`, from its `n`; the sum is unsigned, and kept modulo 2 ^ 32 in the `int`.
unfoldable pub atoi_from : (n : ℕ) → (s : List ℕ) → ℕ
atoi_from n [] = n
atoi_from n (c ∷ s) =
    let rest = atoi_from (u32 (n * 10 + (c - b'0'))) s in
    if leb b'0' c && leb c b'9' then rest else n

unfoldable pub atoi : List ℕ → ℕ
unfolding atoi_from
atoi s = atoi_from 0 s
