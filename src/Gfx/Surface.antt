-- ===== src/Gfx/Surface.antt =====
-- libgfx/src/gfx.c and libgfx/inc/gfx/gfx.h. The pixels of a surface are a memory of 16-bit cells;
-- `rom` is the font `vga_rom_16` of external/vgafonts.c. The four function pointers of a surface
-- are set together, so they are one field.
pub mod Rows
pub mod Runs
pub mod Glyph
pub mod Rect
use os_workshop.Base.{
  ℕ, zero, suc, ◌+◌, ◌-◌, ◌*◌, ◌/◌, ◌%◌, ◌^◌, ◌==◌, ltb, leb, if◌then◌else◌, ◌||◌, Memory, u16, u32,
  sub32, List, [], ◌∷◌,
}

abbrev pub pixfmt_rgb565 : ℕ
pixfmt_rgb565 = 0x03000565

abbrev pub c_black : ℕ
c_black = 0

abbrev pub c_white : ℕ
c_white = 0x00ffffff

abbrev pub ch_width : ℕ
ch_width = 8

abbrev pub ch_height : ℕ
ch_height = 16

-- plot0, hline0, putc0 and color0, or plot16, hline16, putc16 and color16.
pub data Routines : Type 0 where
  routines0 routines16 : Routines

pub record Surface : Type 0 where
  pub width : ℕ
  pub height : ℕ
  pub stride : ℕ
  pub pixels : Memory
  pub pixfmt : ℕ
  pub fgcolor : ℕ
  pub bgcolor : ℕ
  pub routines : Routines

-- `*p = v` for a `uint16_t *p`.
abbrev pub poke : Memory → ℕ → ℕ → Memory
poke m a v j = if j == a then u16 v else m j

-- A mask of low bits is a remainder, and `|` of fields that do not overlap a sum.
abbrev pub color16 : ℕ → ℕ
color16 c = c / 8 % 32 + c / 1024 % 64 * 32 + c / 524288 % 32 * 2048

abbrev pub gfx_color : Routines → ℕ → ℕ
gfx_color routines0 c = 0
gfx_color routines16 c = color16 c

-- `x + y * gs->stride` in 32 bits.
abbrev pub cell : ℕ → (x y : ℕ) → ℕ
cell stride x y = u32 (x + u32 (y * stride))

unfoldable pub plot16 : Surface → (x y pxl : ℕ) → Surface
plot16 gs x y pxl =
    if leb gs.width x || leb gs.height y
    then gs
    else record gs { pixels = poke gs.pixels (cell gs.stride x y) pxl }

-- The loop of `hline16`: `n` cells from `a` on.
unfoldable pub run : Memory → (a n pxl : ℕ) → Memory
run m a zero pxl = m
run m a (suc n) pxl = run (poke m a pxl) (a + 1) n pxl

unfoldable pub hline16 : Surface → (x0 y x1 pxl : ℕ) → Surface
unfolding run
hline16 gs x0 y x1 pxl =
    if leb gs.width x0 || leb gs.height y || leb x1 x0
    then gs
    else (let end_ = if ltb gs.width x1 then gs.width else x1 in
        record gs { pixels = run gs.pixels (x0 + u32 (y * gs.stride)) (end_ - x0) pxl })

-- The inner loop of `putc16`: the top bit of a byte decides, and it is shifted.
unfoldable pub row_of_bits : Memory → (a bits fg bg n : ℕ) → Memory
row_of_bits m a bits fg bg zero = m
row_of_bits m a bits fg bg (suc n) =
    row_of_bits (poke m a (if bits / 128 % 2 == 1 then fg else bg)) (a + 1) (u32 (bits * 2)) fg bg n

-- The outer loop: `ch` walks through the font, and `skip` is added behind each row.
unfoldable pub rows_of_bits : (rom : Memory) → Memory → (a ch skip fg bg n : ℕ) → Memory
unfolding row_of_bits
rows_of_bits rom m a ch skip fg bg zero = m
rows_of_bits rom m a ch skip fg bg (suc n) =
    rows_of_bits rom (row_of_bits m a (rom ch) fg bg ch_width) (a + ch_width + skip) (ch + 1) skip
      fg bg n

unfoldable pub putc16 : (rom : Memory) → Surface → (x y ch : ℕ) → Surface
unfolding rows_of_bits
putc16 rom gs x y ch =
    if leb gs.width x
      || ltb gs.width (u32 (x + ch_width))
      || leb gs.height y
      || ltb gs.height (u32 (y + ch_height))
    then gs
    else record gs {
      pixels =
          rows_of_bits rom gs.pixels (x + u32 (y * gs.stride)) (ch % 256 * ch_height)
            (sub32 gs.stride ch_width) gs.fgcolor gs.bgcolor ch_height;
    }

unfoldable pub gfx_plot : Surface → (x y : ℕ) → Surface
unfolding plot16
gfx_plot gs x y = elim gs.routines [ routines0 ↦ gs | routines16 ↦ plot16 gs x y gs.fgcolor ]

-- `gs->hline(gs, ...)`
unfoldable pub hline : Surface → (x0 y x1 pxl : ℕ) → Surface
unfolding hline16
hline gs x0 y x1 pxl = elim gs.routines [ routines0 ↦ gs | routines16 ↦ hline16 gs x0 y x1 pxl ]

unfoldable pub gfx_hline : Surface → (x0 y x1 : ℕ) → Surface
unfolding hline
gfx_hline gs x0 y x1 = hline gs x0 y x1 gs.fgcolor

unfoldable pub gfx_putc : (rom : Memory) → Surface → (x y ch : ℕ) → Surface
unfolding putc16
gfx_putc rom gs x y ch = elim gs.routines [ routines0 ↦ gs | routines16 ↦ putc16 rom gs x y ch ]

abbrev pub gfx_init : Surface → Surface
gfx_init gs = record gs { routines = if gs.pixfmt == pixfmt_rgb565 then routines16 else routines0 }

abbrev pub gfx_setcolor : Surface → (fg bg : ℕ) → Surface
gfx_setcolor gs fg bg = record gs {
  fgcolor = gfx_color gs.routines fg;
  bgcolor = gfx_color gs.routines bg;
}

-- The cells stand for the memory at FRAMEBUFFER_BASE.
abbrev pub gfx_init_display : Surface → Surface
gfx_init_display gs =
    gfx_setcolor
      (gfx_init (record gs { width = 640; height = 480; stride = 640; pixfmt = pixfmt_rgb565 }))
      c_white c_black

-- The loop of `gfx_fill`, `n` lines from `y` on.
unfoldable pub lines : Surface → (x0 y x1 pxl n : ℕ) → Surface
unfolding hline
lines gs x0 y x1 pxl zero = gs
lines gs x0 y x1 pxl (suc n) = lines (hline gs x0 y x1 pxl) x0 (y + 1) x1 pxl n

unfoldable pub gfx_fill : Surface → (x0 y0 x1 y1 pxl : ℕ) → Surface
unfolding lines
gfx_fill gs x0 y0 x1 y1 pxl = lines gs x0 y0 x1 pxl (y1 - y0)

unfoldable pub gfx_clear : Surface → ℕ → Surface
unfolding gfx_fill
gfx_clear gs pxl = gfx_fill gs 0 0 gs.width gs.height pxl

unfoldable pub gfx_puts : (rom : Memory) → Surface → (x y : ℕ) → List ℕ → Surface
unfolding gfx_putc
gfx_puts rom gs x y [] = gs
gfx_puts rom gs x y (c ∷ cs) = gfx_puts rom (gfx_putc rom gs x y c) (u32 (x + ch_width)) y cs
