-- ===== src/Gfx/Surface/Rect.antt =====
-- `hline16`, `gfx_fill` and `gfx_clear` of libgfx/src/gfx.c, pixel by pixel.
use os_workshop.Base.{
  ℕ, zero, suc, ◌+◌, ◌-◌, ◌*◌, ◌≤◌, ◌<◌, ◌≡◌, ltb, leb, if◌then◌else◌, Bool, Bool-cases, ◌&&◌, ◌||◌,
  ◌⊎◌, ◌∙◌, ap, inl, inr, refl, Memory, u16, u32, arith,
}
use os_workshop.Gfx.Surface.{Surface, routines0, routines16, run, hline16, hline, lines, gfx_fill}
use os_workshop.Gfx.Surface.Rows.{row_lt}
use os_workshop.Gfx.Surface.Runs.{run_lem}
use os_workshop.Gfx.Surface.Glyph.{IsSurface, row_start}

-- Whether a pixel of the surface lies in a rectangle, whose last column and line do not belong to it.
abbrev pub in_rect : Surface → (x0 y0 x1 y1 px py : ℕ) → Bool
in_rect gs x0 y0 x1 y1 px py =
    leb x0 px && ltb px x1 && ltb px gs.width && leb y0 py && ltb py y1 && ltb py gs.height

-- `m'` is `m` with the rectangle in the colour `pxl`.
abbrev pub FillsRect : Surface → (x0 y0 x1 y1 pxl : ℕ) → (m m' : Memory) → Type 0
FillsRect gs x0 y0 x1 y1 pxl m m' =
    (px py : ℕ)
    → px < gs.stride
    → m' (px + py * gs.stride)
      ≡ (if in_rect gs x0 y0 x1 y1 px py then u16 pxl else m (px + py * gs.stride))

in_run :
    (stride x0 end_ y px py : ℕ)
    → x0 < end_
    → end_ ≤ stride
    → px < stride
    → (leb (x0 + y * stride) (px + py * stride)
        && ltb (px + py * stride) (x0 + y * stride + (end_ - x0)))
      ≡ (leb x0 px && ltb px end_ && leb y py && ltb py (y + 1))
in_run stride x0 end_ y px py some_ wide lt = elim (trichotomy py y) [
  | inl above ↦ let h = row_lt stride py y above in ground arith
  | inr (inl below) ↦ let h = row_lt stride y py below in ground arith
  | inr (inr same) ↦ rw same (ground arith)
]
  where
    trichotomy : (a b : ℕ) → (a < b) ⊎ (b < a) ⊎ (a ≡ b)
    trichotomy a b = ground arith

module _ (gs : Surface) (s : IsSurface gs) (hr : gs.routines ≡ routines16) (x0 x1 pxl : ℕ) where
  hline-hline16 :
      (m : Memory) (y : ℕ)
      → hline (record gs { pixels = m }) x0 y x1 pxl
        ≡ hline16 (record gs { pixels = m }) x0 y x1 pxl
  unfolding hline
  hline-hline16 m y =
      ap
        (λ r. elim r [
          | routines0 ↦ record gs { pixels = m }
          | routines16 ↦ hline16 (record gs { pixels = m }) x0 y x1 pxl
        ])
        hr

  hline_lem :
      (m : Memory) (y : ℕ)
      → (m' : Memory) × (hline (record gs { pixels = m }) x0 y x1 pxl ≡ record gs { pixels = m' })
        × FillsRect gs x0 y x1 (y + 1) pxl m m'
  unfolding hline16
  hline_lem m y = elim (Bool-cases (leb gs.width x0 || leb gs.height y || leb x1 x0)) [
    | inl e ↦ (m, hline-hline16 m y ∙ rw e refl, λ px py lt. ground arith)
    | inr e ↦
        let end_ = if ltb gs.width x1 then gs.width else x1 in
        let wide = s.wide in
        let inside : (x0 < end_) × (end_ ≤ gs.width) × (y < gs.height) = ground arith in
        let start = row_start y gs.height gs.stride inside.2 (omega arith) s.cells in
        let row : u32 (y * gs.stride) ≡ y * gs.stride = omega arith in
        (
          run m (x0 + y * gs.stride) (end_ - x0) pxl,
          hline-hline16 m y ∙ rw (e, row) refl,
          λ px py lt.
              run_lem m (x0 + y * gs.stride) (end_ - x0) pxl (px + py * gs.stride)
              ∙ ap (λ b. if b then u16 pxl else m (px + py * gs.stride))
                  (in_run gs.stride x0 end_ y px py inside.0 (omega arith) lt ∙ ground arith),
        )
  ]

  lines_lem :
      (m : Memory) (y n : ℕ)
      → (m' : Memory) × (lines (record gs { pixels = m }) x0 y x1 pxl n ≡ record gs { pixels = m' })
        × FillsRect gs x0 y x1 (y + n) pxl m m'
  unfolding lines
  lines_lem m y zero = (m, refl, λ px py lt. ground arith)
  lines_lem m y (suc n) =
      let first = hline_lem m y in
      let rest = lines_lem first.0 (y + 1) n in
      (
        rest.0,
        ap (λ g. lines g x0 (y + 1) x1 pxl n) first.1 ∙ rest.1,
        λ px py lt. rest.2 px py lt ∙ ground (arith, first.2 px py lt),
      )

  -- `gfx_fill` colours exactly the pixels of the rectangle that lie on the surface, and changes no
  -- other cell; the surface has 16-bit pixels.
  pub gfx_fill_lem :
      (y0 y1 : ℕ)
      → (m' : Memory) × (gfx_fill gs x0 y0 x1 y1 pxl ≡ record gs { pixels = m' })
        × FillsRect gs x0 y0 x1 y1 pxl gs.pixels m'
  unfolding gfx_fill
  gfx_fill_lem y0 y1 =
      let all = lines_lem gs.pixels y0 (y1 - y0) in
      (
        all.0,
        all.1,
        λ px py lt.
            all.2 px py lt
            ∙ ap (λ b. if b then u16 pxl else gs.pixels (px + py * gs.stride)) (ground arith),
      )
