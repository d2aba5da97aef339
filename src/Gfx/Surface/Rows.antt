-- ===== src/Gfx/Surface/Rows.antt =====
-- Cells of different rows.
use os_workshop.Base.{ℕ, ◌+◌, ◌*◌, ◌≤◌, ◌<◌, ◌≡◌, arith}

pub row_le : (y n w : ℕ) → y * w + n * w ≡ (y + n) * w
row_le y n w = grind arith

-- A later row starts behind an earlier one.
pub row_lt : (w y y' : ℕ) → y < y' → y * w + w ≤ y' * w
row_lt w y y' h = grind arith
