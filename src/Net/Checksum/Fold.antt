-- ===== src/Net/Checksum/Fold.antt =====
-- The folding of the carries.
use os_workshop.Base.{ℕ, ◌%◌, ◌^◌, ◌≤◌, ◌<◌, ◌≡◌, arith}
use os_workshop.Net.Checksum.{fold_carries}

-- Two rounds are enough for 32 bits: the loop has ended by its own test.
pub fold-le : (s : ℕ) → s < 2 ^ 32 → fold_carries 3 s ≤ 0xffff
unfolding fold_carries
fold-le s h = ground arith

pub fold-mod : (s : ℕ) → s < 2 ^ 32 → fold_carries 3 s % 65535 ≡ s % 65535
unfolding fold_carries
fold-mod s h = ground arith
