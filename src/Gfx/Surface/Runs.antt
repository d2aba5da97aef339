-- ===== src/Gfx/Surface/Runs.antt =====
-- What the loops over cells leave in memory.
use os_workshop.Base.{
  ℕ, zero, suc, ◌+◌, ◌-◌, ◌*◌, ◌/◌, ◌%◌, ◌^◌, ◌≤◌, ◌<◌, ◌≡◌, ◌==◌, ltb, leb, if◌then◌else◌, ◌&&◌,
  ◌⊎◌, ◌∙◌, refl, ap, Memory, u16, u32, arith,
}
use os_workshop.Gfx.Surface.{poke, run, row_of_bits, rows_of_bits}

pub run_lem :
    (m : Memory) (a n pxl j : ℕ)
    → run m a n pxl j ≡ (if leb a j && ltb j (a + n) then u16 pxl else m j)
unfolding run
run_lem m a zero pxl j = ground arith
run_lem m a (suc n) pxl j = ground (arith, run_lem (poke m a pxl) (a + 1) n pxl j)

-- The cell of column `k` of a row of a glyph, the leftmost from the top bit.
abbrev pub bit_at : ℕ → ℕ → ℕ
bit_at bits k = bits / 2 ^ (7 - k) % 2

abbrev pub glyph_cell : (fg bg bits k : ℕ) → ℕ
glyph_cell fg bg bits k = u16 (if bit_at bits k == 1 then fg else bg)

pub row_of_bits_out :
    (m : Memory) (a bits fg bg n j : ℕ)
    → (j < a) ⊎ (a + n ≤ j)
    → row_of_bits m a bits fg bg n j ≡ m j
unfolding row_of_bits
row_of_bits_out m a bits fg bg zero j out = refl
row_of_bits_out m a bits fg bg (suc n) j out = ground (
  arith,
  row_of_bits_out (poke m a (if bits / 128 % 2 == 1 then fg else bg)) (a + 1) (u32 (bits * 2)) fg bg
      n j,
)

-- The bit that the inner loop tests in round `k`.
abbrev shifted_bit : ℕ → ℕ → ℕ
shifted_bit bits zero = bits / 128 % 2
shifted_bit bits (suc k) = shifted_bit (u32 (bits * 2)) k

shifted_bit-bit_at : (bits k : ℕ) → bits < 256 → k < 8 → shifted_bit bits k ≡ bit_at bits k
shifted_bit-bit_at bits zero small lt = omega arith
shifted_bit-bit_at bits (suc zero) small lt = omega arith
shifted_bit-bit_at bits (suc (suc zero)) small lt = omega arith
shifted_bit-bit_at bits (suc (suc (suc zero))) small lt = omega arith
shifted_bit-bit_at bits (suc (suc (suc (suc zero)))) small lt = omega arith
shifted_bit-bit_at bits (suc (suc (suc (suc (suc zero))))) small lt = omega arith
shifted_bit-bit_at bits (suc (suc (suc (suc (suc (suc zero)))))) small lt = omega arith
shifted_bit-bit_at bits (suc (suc (suc (suc (suc (suc (suc zero))))))) small lt = omega arith
shifted_bit-bit_at bits (suc (suc (suc (suc (suc (suc (suc (suc k)))))))) small lt =
    absurd (omega arith)

row_of_bits_cell :
    (m : Memory) (a bits fg bg n k : ℕ)
    → k < n
    → row_of_bits m a bits fg bg n (a + k) ≡ u16 (if shifted_bit bits k == 1 then fg else bg)
unfolding row_of_bits
row_of_bits_cell m a bits fg bg zero k lt = absurd (omega arith)
row_of_bits_cell m a bits fg bg (suc n) zero lt =
    let m' = poke m a (if bits / 128 % 2 == 1 then fg else bg) in
    ground (arith, row_of_bits_out m' (a + 1) (u32 (bits * 2)) fg bg n (a + 0))
row_of_bits_cell m a bits fg bg (suc n) (suc k) lt =
    let m' = poke m a (if bits / 128 % 2 == 1 then fg else bg) in
    let at : a + suc k ≡ a + 1 + k = omega arith in
    rw at (row_of_bits_cell m' (a + 1) (u32 (bits * 2)) fg bg n k (omega arith))

pub row_of_bits_in :
    (m : Memory) (a bits fg bg k : ℕ)
    → bits < 256
    → k < 8
    → row_of_bits m a bits fg bg 8 (a + k) ≡ glyph_cell fg bg bits k
row_of_bits_in m a bits fg bg k small lt =
    row_of_bits_cell m a bits fg bg 8 k lt
    ∙ ap (λ bit. u16 (if bit == 1 then fg else bg)) (shifted_bit-bit_at bits k small lt)

module _ (rom : Memory) (stride fg bg : ℕ) (wide : 8 ≤ stride) where
  pub rows_of_bits_out :
      (m : Memory) (a ch n j : ℕ)
      → ((i : ℕ) → i < n → (j < a + i * stride) ⊎ (a + i * stride + 8 ≤ j))
      → rows_of_bits rom m a ch (stride - 8) fg bg n j ≡ m j
  unfolding rows_of_bits
  rows_of_bits_out m a ch zero j out = refl
  rows_of_bits_out m a ch (suc n) j out =
      rows_of_bits_out (row_of_bits m a (rom ch) fg bg 8) (a + 8 + (stride - 8)) (ch + 1) n j
        (λ i lt. grind (arith, out (suc i)))
      ∙ row_of_bits_out m a (rom ch) fg bg 8 j (grind (arith, out 0))

  pub rows_of_bits_in :
      (m : Memory) (a ch n i k : ℕ)
      → ((c : ℕ) → rom c < 256)
      → i < n
      → k < 8
      → rows_of_bits rom m a ch (stride - 8) fg bg n (a + i * stride + k)
        ≡ glyph_cell fg bg (rom (ch + i)) k
  unfolding rows_of_bits
  rows_of_bits_in m a ch zero i k bytes lt lk = absurd (omega arith)
  rows_of_bits_in m a ch (suc n) zero k bytes lt lk =
      let row = row_of_bits m a (rom ch) fg bg 8 in
      let at : a + 0 * stride + k ≡ a + k = grind arith in
      let first : ch + 0 ≡ ch = omega arith in
      rw (at, first)
        (rows_of_bits_out row (a + 8 + (stride - 8)) (ch + 1) n (a + k) (λ i lt. grind arith)
          ∙ row_of_bits_in m a (rom ch) fg bg k (bytes ch) lk)
  rows_of_bits_in m a ch (suc n) (suc i) k bytes lt lk =
      let row = row_of_bits m a (rom ch) fg bg 8 in
      let at : a + suc i * stride + k ≡ a + 8 + (stride - 8) + i * stride + k = grind arith in
      let next : ch + suc i ≡ ch + 1 + i = omega arith in
      rw (at, next)
        (rows_of_bits_in row (a + 8 + (stride - 8)) (ch + 1) n i k bytes (omega arith) lk)
