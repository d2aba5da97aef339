-- ===== src/Gfx.antt =====
-- libgfx/: the drawing routines and the text cursor.
pub mod Surface
pub mod Text
