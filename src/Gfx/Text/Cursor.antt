-- ===== src/Gfx/Text/Cursor.antt =====
-- The cursor of libgfx/src/txt.c stays on its surface, unless `txt_goto` takes it off.
use os_workshop.Base.{
  ℕ, ◌+◌, ◌-◌, ◌*◌, ◌^◌, ◌≤◌, ◌<◌, ◌≡◌, ◌≢◌, ◌==◌, ltb, leb, if◌then◌else◌, ◌||◌, true, false,
  Bool-cases, ◌⊎◌, ◌∙◌, ap, ap₂, sym, inl, inr, refl, Memory, IsBytes, u32, arith, List, [], ◌∷◌,
}
use mathlib.Core.Path.{subst}
use os_workshop.Gfx.Surface.{Surface, routines0, routines16, putc16, gfx_putc}
use os_workshop.Gfx.Surface.Glyph.{IsSurface, DrawsGlyph, putc16-DrawsGlyph, putc16-outside}
use os_workshop.Gfx.Text.{Text, txt_goto, newline, txt_putc, txt_puts}

-- The cells of the text fit on the surface, and the cursor is at one of them.
pub record IsText (ts : Text) : Type 0 where
  pub surface : IsSurface ts.gs
  pub routines : ts.gs.routines ≡ routines16
  pub columns : ts.cw * 8 ≤ ts.gs.width
  pub lines : ts.ch * 16 ≤ ts.gs.height
  pub column : ts.cx < ts.cw
  pub line : ts.cy < ts.ch

-- The place behind a cell: the next column, or the start of the next line, or the top.
abbrev pub next_cell : Text → ℕ × ℕ
next_cell ts =
    if ltb (ts.cx + 1) ts.cw
    then (ts.cx + 1, ts.cy)
    else (0, if ltb (ts.cy + 1) ts.ch then ts.cy + 1 else 0)

module _ (rom : Memory) (bytes : IsBytes rom) where
  gfx_putc-putc16 :
      (gs : Surface) (x y c : ℕ)
      → gs.routines ≡ routines16
      → gfx_putc rom gs x y c ≡ putc16 rom gs x y c
  unfolding gfx_putc
  gfx_putc-putc16 gs x y c e =
      ap (λ r. elim r [ routines0 ↦ gs | routines16 ↦ putc16 rom gs x y c ]) e

  drawn_at :
      (ts : Text) (c : ℕ)
      → IsText ts
      → (m' : Memory) × (gfx_putc rom ts.gs (u32 (ts.cx * 8)) (u32 (ts.cy * 16)) c
          ≡ record (ts.gs) { pixels = m' })
        × DrawsGlyph rom ts.gs (ts.cx * 8) (ts.cy * 16) c m'
  drawn_at ts c t =
      let a = t.columns in
      let b = t.lines in
      let d = t.column in
      let e = t.line in
      let w = t.surface.columns in
      let v = t.surface.lines in
      let x : u32 (ts.cx * 8) ≡ ts.cx * 8 = omega arith in
      let y : u32 (ts.cy * 16) ≡ ts.cy * 16 = omega arith in
      let glyph =
        putc16-DrawsGlyph rom ts.gs t.surface (ts.cx * 8) (ts.cy * 16) c bytes (omega arith)
          (omega arith) in
      (
        glyph.0,
        ap₂ (λ x y. gfx_putc rom ts.gs x y c) x y
            ∙ gfx_putc-putc16 ts.gs (ts.cx * 8) (ts.cy * 16) c t.routines
            ∙ glyph.1,
        glyph.2,
      )

  -- A character that is no line end is drawn at the cursor's cell, changes no other pixel, and
  -- moves the cursor to the next cell.
  txt_putc_lem :
      (ts : Text) (c : ℕ)
      → IsText ts
      → c ≢ b'\r'
      → c ≢ b'\n'
      → (m' : Memory) × (txt_putc rom ts c ≡ record ts {
        gs = record (ts.gs) { pixels = m' };
        cx = (next_cell ts).0;
        cy = (next_cell ts).1;
      })
        × DrawsGlyph rom ts.gs (ts.cx * 8) (ts.cy * 16) c m'
  unfolding txt_putc
  txt_putc_lem ts c t r n =
      let drawn = drawn_at ts c t in
      let other : ((c == b'\r') || (c == b'\n')) ≡ false = ground arith in
      let a = t.columns in
      let b = t.lines in
      let d = t.column in
      let e = t.line in
      let w = t.surface.columns in
      let v = t.surface.lines in (drawn.0, rw (other, drawn.1) (ground arith), drawn.2)

  next_cell-lt : (ts : Text) → IsText ts → ((next_cell ts).0 < ts.cw) × ((next_cell ts).1 < ts.ch)
  next_cell-lt ts t = let d = t.column in let e = t.line in ground arith

  moved-IsText :
      (ts : Text) (m' : Memory) (cx cy : ℕ)
      → IsText ts
      → cx < ts.cw
      → cy < ts.ch
      → IsText (record ts { gs = record (ts.gs) { pixels = m' }; cx = cx; cy = cy })
  moved-IsText ts m' cx cy t lx ly = record {
    surface = record {
      wide = t.surface.wide;
      cells = t.surface.cells;
      columns = t.surface.columns;
      lines = t.surface.lines;
    };
    routines = t.routines;
    columns = t.columns;
    lines = t.lines;
    column = lx;
    line = ly;
  }

  newline-IsText : (ts : Text) → IsText ts → IsText (newline ts)
  newline-IsText ts t =
      let d = t.column in
      let e = t.line in
      let b = t.lines in
      let v = t.surface.lines in
      moved-IsText ts ts.gs.pixels 0 (newline ts).cy t (omega arith) (ground arith)

  txt_putc-newline :
      (ts : Text) (c : ℕ) → (c == b'\r') || (c == b'\n') ≡ true → txt_putc rom ts c ≡ newline ts
  unfolding txt_putc
  txt_putc-newline ts c e = rw e refl

  -- Whatever is written, the cursor stays on the surface, and the surface keeps its size.
  pub txt_putc-IsText : (ts : Text) (c : ℕ) → IsText ts → IsText (txt_putc rom ts c)
  txt_putc-IsText ts c t = elim (line_end c) [
    | inl e ↦ subst IsText (sym (txt_putc-newline ts c e)) (newline-IsText ts t)
    | inr ne ↦
        let drawn = txt_putc_lem ts c t ne.0 ne.1 in
        let next = next_cell-lt ts t in
        subst IsText (sym drawn.1)
          (moved-IsText ts drawn.0 (next_cell ts).0 (next_cell ts).1 t next.0 next.1)
  ]
    where
      line_end : (c : ℕ) → ((c == b'\r') || (c == b'\n') ≡ true) ⊎ ((c ≢ b'\r') × (c ≢ b'\n'))
      line_end c = ground arith

  -- So it does with every string.
  pub txt_puts-IsText : (ts : Text) (cs : List ℕ) → IsText ts → IsText (txt_puts rom ts cs)
  unfolding txt_puts
  txt_puts-IsText ts [] t = t
  txt_puts-IsText ts (c ∷ cs) t = txt_puts-IsText (txt_putc rom ts c) cs (txt_putc-IsText ts c t)

  -- `txt_goto` to a line of the surface puts the cursor there, in the last column if the column is
  -- too large.
  pub txt_goto-IsText :
      (ts : Text) (cx cy : ℕ)
      → IsText ts
      → cy < ts.ch
      → (txt_goto ts cx cy ≡ record ts { cx = if ltb cx ts.cw then cx else ts.cw - 1; cy = cy })
        × IsText (txt_goto ts cx cy)
  unfolding txt_goto
  txt_goto-IsText ts cx cy t lt =
      let a = t.columns in
      let d = t.column in
      let w = t.surface.columns in
      let cx' = if ltb cx ts.cw then cx else ts.cw - 1 in
      let e : txt_goto ts cx cy ≡ record ts { cx = cx'; cy = cy } = ground arith in
      (e, subst IsText (sym e) (moved-IsText ts ts.gs.pixels cx' cy t (ground arith) lt))

  txt_putc-gs :
      (ts : Text) (c : ℕ)
      → c ≢ b'\r'
      → c ≢ b'\n'
      → (txt_putc rom ts c).gs ≡ gfx_putc rom ts.gs (u32 (ts.cx * 8)) (u32 (ts.cy * 16)) c
  unfolding txt_putc
  txt_putc-gs ts c r n =
      let other : ((c == b'\r') || (c == b'\n')) ≡ false = ground arith in
      rw other
        (elim (Bool-cases (leb ts.cw (u32 (ts.cx + 1)))) [ inl e ↦ rw e refl | inr e ↦ rw e refl ])

  -- With a line beyond the last one, `txt_goto` leaves the cursor off the surface: the next
  -- character is not drawn. (The lines fill the surface, and no product overflows.)
  pub txt_goto_off :
      (ts : Text) (cx cy c : ℕ)
      → IsText ts
      → ts.gs.height < ts.ch * 16 + 16
      → ts.ch ≤ cy
      → cy < 2 ^ 28
      → c ≢ b'\r'
      → c ≢ b'\n'
      → (txt_putc rom (txt_goto ts cx cy) c).gs ≡ ts.gs
  unfolding txt_goto
  txt_goto_off ts cx cy c t full off small r n =
      let to = txt_goto ts cx cy in
      txt_putc-gs to c r n
      ∙ gfx_putc-putc16 ts.gs (u32 (to.cx * 8)) (u32 (cy * 16)) c t.routines
      ∙ putc16-outside rom ts.gs t.surface (u32 (to.cx * 8)) (u32 (cy * 16)) c (omega arith)
          (omega arith) (inr (omega arith))
