-- ===== src/Gfx/Surface/Glyph.antt =====
-- `putc16` of libgfx/src/gfx.c, pixel by pixel.
use os_workshop.Base.{
  ℕ, ◌+◌, ◌-◌, ◌*◌, ◌%◌, ◌^◌, ◌≤◌, ◌<◌, ◌≡◌, ltb, leb, ◌||◌, true, false, ◌⊎◌, sym, inl, inr, refl,
  Memory, IsBytes, u32, sub32, arith,
}
use os_workshop.Gfx.Surface.{Surface, putc16, rows_of_bits}
use os_workshop.Gfx.Surface.Rows.{row_le, row_lt}
use os_workshop.Gfx.Surface.Runs.{glyph_cell, rows_of_bits_out, rows_of_bits_in}

-- The lines lie behind each other, in fewer than 2 ^ 32 cells, and the sizes are no larger.
pub record IsSurface (gs : Surface) : Type 0 where
  pub wide : gs.width ≤ gs.stride
  pub cells : gs.height * gs.stride ≤ 2 ^ 32
  pub columns : gs.width + 8 ≤ 2 ^ 32
  pub lines : gs.height + 16 ≤ 2 ^ 32

-- `m'` is `m` with the glyph of `ch` at `x` and `y`, and nothing else changed.
pub record DrawsGlyph (rom : Memory) (gs : Surface) (x y ch : ℕ) (m' : Memory) : Type 0 where
  pub inside :
      (i k : ℕ)
      → i < 16
      → k < 8
      → m' (x + k + (y + i) * gs.stride)
        ≡ glyph_cell gs.fgcolor gs.bgcolor (rom (ch % 256 * 16 + i)) k
  pub outside :
      (px py : ℕ)
      → px < gs.stride
      → (px < x) ⊎ (x + 8 ≤ px) ⊎ (py < y) ⊎ (y + 16 ≤ py)
      → m' (px + py * gs.stride) ≡ gs.pixels (px + py * gs.stride)

pub row_start :
    (y height stride : ℕ) → y < height → 0 < stride → height * stride ≤ 2 ^ 32 → y * stride < 2 ^ 32
row_start y height stride lt pos fits = omega (arith, row_lt stride y height lt)

off_row :
    (stride x y px py i : ℕ)
    → x + 8 ≤ stride
    → px < stride
    → i < 16
    → (px < x) ⊎ (x + 8 ≤ px) ⊎ (py < y) ⊎ (y + 16 ≤ py)
    → (px + py * stride < x + y * stride + i * stride)
      ⊎ (x + y * stride + i * stride + 8 ≤ px + py * stride)
off_row stride x y px py i wide lt li out =
    let sum = row_le y i stride in
    elim (trichotomy py (y + i)) [
      | inl above ↦ let h = row_lt stride py (y + i) above in inl (omega arith)
      | inr (inl below) ↦ let h = row_lt stride (y + i) py below in inr (omega arith)
      | inr (inr same) ↦
          let h : py * stride ≡ y * stride + i * stride = rw same (sym sum) in ground arith
    ]
  where
    trichotomy : (a b : ℕ) → (a < b) ⊎ (b < a) ⊎ (a ≡ b)
    trichotomy a b = ground arith

module _ (rom : Memory) (gs : Surface) (s : IsSurface gs) (x y ch : ℕ) where
  abbrev drawn : Memory
  drawn =
      rows_of_bits rom gs.pixels (x + y * gs.stride) (ch % 256 * 16) (gs.stride - 8) gs.fgcolor
        gs.bgcolor 16

  putc16-inside :
      x + 8 ≤ gs.width → y + 16 ≤ gs.height → putc16 rom gs x y ch ≡ record gs { pixels = drawn }
  unfolding putc16
  putc16-inside fx fy =
      let a = s.wide in
      let b = s.columns in
      let c = s.lines in
      let start = row_start y gs.height gs.stride (omega arith) (omega arith) s.cells in
      let test : (leb gs.width x
            || ltb gs.width (u32 (x + 8))
            || leb gs.height y
            || ltb gs.height (u32 (y + 16)))
          ≡ false =
        ground arith in
      let row : u32 (y * gs.stride) ≡ y * gs.stride = omega arith in
      let skip : sub32 gs.stride 8 ≡ gs.stride - 8 =
        omega (arith, row_lt gs.stride 0 gs.height (omega arith), s.cells) in
      rw (test, row, skip) refl

  pub putc16-outside :
      x < 2 ^ 32
      → y < 2 ^ 32
      → (gs.width < x + 8) ⊎ (gs.height < y + 16)
      → putc16 rom gs x y ch ≡ gs
  unfolding putc16
  putc16-outside hx hy out =
      let b = s.columns in
      let c = s.lines in
      let test : (leb gs.width x
            || ltb gs.width (u32 (x + 8))
            || leb gs.height y
            || ltb gs.height (u32 (y + 16)))
          ≡ true =
        ground arith in
      rw test refl

  drawn-DrawsGlyph : IsBytes rom → x + 8 ≤ gs.width → DrawsGlyph rom gs x y ch drawn
  drawn-DrawsGlyph bytes fx =
      let wide : x + 8 ≤ gs.stride = let a = s.wide in omega arith in
      record {
        inside = λ i k li lk.
            let at : x + k + (y + i) * gs.stride ≡ x + y * gs.stride + i * gs.stride + k =
              grind arith in
            rw at (
              rows_of_bits_in rom gs.stride gs.fgcolor gs.bgcolor (omega arith) gs.pixels
                (x + y * gs.stride) (ch % 256 * 16) 16 i k bytes li lk);
        outside = λ px py lt out.
            rows_of_bits_out rom gs.stride gs.fgcolor gs.bgcolor (omega arith) gs.pixels
              (x + y * gs.stride) (ch % 256 * 16) 16 (px + py * gs.stride)
              (λ i li. off_row gs.stride x y px py i wide lt li out);
      }

  pub putc16-DrawsGlyph :
      IsBytes rom
      → x + 8 ≤ gs.width
      → y + 16 ≤ gs.height
      → (m' : Memory) × (putc16 rom gs x y ch ≡ record gs { pixels = m' })
        × DrawsGlyph rom gs x y ch m'
  putc16-DrawsGlyph bytes fx fy = (drawn, putc16-inside fx fy, drawn-DrawsGlyph bytes fx)

  -- A glyph that fits is drawn at its place, each pixel of the font's bit, and changes no other
  -- cell; one that does not fit is not drawn at all. The coordinates are 32-bit numbers.
  pub putc16_lem :
      IsBytes rom
      → x < 2 ^ 32
      → y < 2 ^ 32
      → ((x + 8 ≤ gs.width)
          × (y + 16 ≤ gs.height)
          × (m' : Memory) × (putc16 rom gs x y ch ≡ record gs { pixels = m' })
          × DrawsGlyph rom gs x y ch m')
        ⊎ ((gs.width < x + 8) ⊎ (gs.height < y + 16)) × (putc16 rom gs x y ch ≡ gs)
  putc16_lem bytes hx hy = elim (fits (x + 8) (y + 16) gs.width gs.height) [
    | inl (fx, fy) ↦ inl (fx, fy, drawn, putc16-inside fx fy, drawn-DrawsGlyph bytes fx)
    | inr out ↦ inr (out, putc16-outside hx hy out)
  ]
    where
      fits : (a b w h : ℕ) → ((a ≤ w) × (b ≤ h)) ⊎ (w < a) ⊎ (h < b)
      fits a b w h = ground arith
