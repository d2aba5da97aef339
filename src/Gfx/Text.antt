-- ===== src/Gfx/Text.antt =====
-- libgfx/src/txt.c: a text cursor on a surface. `gs` is the surface that the cursor points to.
pub mod Cursor
use os_workshop.Base.{
  ℕ, ◌+◌, ◌-◌, ◌*◌, ◌/◌, ◌==◌, leb, if◌then◌else◌, ◌||◌, Memory, u32, sub32, List, [], ◌∷◌,
}
use os_workshop.Gfx.Surface.{Surface, ch_width, ch_height, gfx_putc}

pub record Text : Type 0 where
  pub gs : Surface
  pub cw : ℕ
  pub ch : ℕ
  pub cx : ℕ
  pub cy : ℕ

abbrev pub txt_init : Surface → Text
txt_init gs = record {
  gs = gs;
  cw = gs.width / ch_width;
  ch = gs.height / ch_height;
  cx = 0;
  cy = 0;
}

-- The second test assigns `cx`, as the source does.
unfoldable pub txt_goto : Text → (cx cy : ℕ) → Text
txt_goto ts cx cy =
    let cx = if leb ts.cw cx then sub32 ts.cw 1 else cx in
    let cx = if leb ts.ch cy then sub32 ts.ch 1 else cx in record ts { cx = cx; cy = cy }

-- The label `newline`.
abbrev pub newline : Text → Text
newline ts = let cy = u32 (ts.cy + 1) in record ts { cx = 0; cy = if leb ts.ch cy then 0 else cy }

module _ (rom : Memory) where
  unfoldable pub txt_putc : Text → ℕ → Text
  txt_putc ts c =
      if (c == b'\r') || (c == b'\n')
      then newline ts
      else (let drawn = record ts {
        gs = gfx_putc rom ts.gs (u32 (ts.cx * ch_width)) (u32 (ts.cy * ch_height)) c;
        cx = u32 (ts.cx + 1);
      } in
          if leb drawn.cw drawn.cx then newline drawn else drawn)

  unfoldable pub txt_puts : Text → List ℕ → Text
  unfolding txt_putc
  txt_puts ts [] = ts
  txt_puts ts (c ∷ cs) = txt_puts (txt_putc ts c) cs
