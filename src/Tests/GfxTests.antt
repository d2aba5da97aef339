-- ===== src/Tests/GfxTests.antt =====
-- The graphics library on a surface of 32 x 32 pixels, and on the display.
use os_workshop.Base.{◌+◌, ◌≡◌, ◌<◌, ◌≤◌, ◌⊎◌, refl, arith, Memory, IsBytes, [], ◌∷◌}
use os_workshop.Gfx.Surface.{Surface, routines0, routines16, putc16, gfx_fill, gfx_init_display}
use os_workshop.Gfx.Surface.Glyph.{IsSurface, DrawsGlyph, putc16_lem}
use os_workshop.Gfx.Surface.Rect.{FillsRect, gfx_fill_lem}
use os_workshop.Gfx.Text.{Text, txt_init, txt_goto, txt_putc, txt_puts}
use os_workshop.Gfx.Text.Cursor.{IsText, txt_puts-IsText, txt_goto_off}

abbrev small : Surface
small = record {
  width = 32;
  height = 32;
  stride = 40;
  pixels = λ _. 0;
  pixfmt = 0x03000565;
  fgcolor = 0xffff;
  bgcolor = 0;
  routines = routines16;
}

abbrev stripes : Memory
stripes _ = 0xaa

stripes-IsBytes : IsBytes stripes
stripes-IsBytes j = omega arith

small-IsSurface : IsSurface small
small-IsSurface = record {
  wide = omega arith;
  cells = omega arith;
  columns = omega arith;
  lines = omega arith;
}

putc16_lem_example :
    ((8 + 8 ≤ small.width)
      × (16 + 16 ≤ small.height)
      × (m' : Memory) × (putc16 stripes small 8 16 65 ≡ record small { pixels = m' })
      × DrawsGlyph stripes small 8 16 65 m')
    ⊎ ((small.width < 8 + 8) ⊎ (small.height < 16 + 16)) × (putc16 stripes small 8 16 65 ≡ small)
putc16_lem_example =
    putc16_lem stripes small small-IsSurface 8 16 65 stripes-IsBytes (omega arith) (omega arith)

gfx_fill_lem_example :
    (m' : Memory) × (gfx_fill small 4 5 100 9 0x1f ≡ record small { pixels = m' })
    × FillsRect small 4 5 100 9 0x1f small.pixels m'
gfx_fill_lem_example = gfx_fill_lem small small-IsSurface refl 4 100 0x1f 5 9

abbrev screen : Text
screen = txt_init (gfx_init_display (record small { routines = routines0 }))

screen-IsText : IsText screen
screen-IsText = record {
  surface = record {
    wide = omega arith;
    cells = omega arith;
    columns = omega arith;
    lines = omega arith;
  };
  routines = refl;
  columns = omega arith;
  lines = omega arith;
  column = omega arith;
  line = omega arith;
}

txt_puts-IsText_example : IsText (txt_puts stripes screen (72 ∷ 105 ∷ 10 ∷ []))
txt_puts-IsText_example =
    txt_puts-IsText stripes stripes-IsBytes screen (72 ∷ 105 ∷ 10 ∷ []) screen-IsText

txt_goto_off_example : (txt_putc stripes (txt_goto screen 3 30) 65).gs ≡ screen.gs
txt_goto_off_example =
    txt_goto_off stripes stripes-IsBytes screen 3 30 65 screen-IsText (omega arith) (omega arith)
      (omega arith) (omega arith) (omega arith)
