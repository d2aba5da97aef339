-- ===== src/Base/Mem.antt =====
-- Byte memories, as functions from addresses; little-endian words, `memcpy`, `memset`, `memcmp`.
use Prim.Native.Nat.{ℕ, zero, suc, ◌+◌, ◌-◌, ◌*◌, ◌/◌, ◌%◌, ◌≤◌, ◌<◌}
use mathlib.Core.Path.{◌≡◌, refl, ap, ap₂}
use mathlib.Core.Logic.{◌⊎◌}
use mathlib.Core.Bool.{Bool, true, ◌&&◌}
use mathlib.Core.List.{List, [], ◌∷◌, ◌++◌}
use native.Mathlib.Omega.{arith}
use native.Mathlib.Nat.{zero-add, suc-add}
use os_workshop.Base.Tests.{ltb, leb, ◌==◌, if◌then◌else◌}
use os_workshop.Base.Lists.{length, get_or}

abbrev pub Memory : Type 0
Memory = ℕ → ℕ

-- Every cell holds a byte.
abbrev pub IsBytes : Memory → Type 0
IsBytes m = (a : ℕ) → m a < 256

-- An array with these first bytes, and 0 behind them.
abbrev pub of_list : List ℕ → Memory
of_list xs i = get_or xs i 0

abbrev pub AllBytes : List ℕ → Type 0
AllBytes [] = Unit
AllBytes (x ∷ xs) = (x < 256) × AllBytes xs

abbrev pub wr8 : Memory → ℕ → ℕ → Memory
wr8 m a v j = if j == a then v % 256 else m j

abbrev pub wr16 : Memory → ℕ → ℕ → Memory
wr16 m a v = wr8 (wr8 m a v) (a + 1) (v / 256)

abbrev pub wr32 : Memory → ℕ → ℕ → Memory
wr32 m a v =
    wr8 (wr8 (wr8 (wr8 m a v) (a + 1) (v / 256)) (a + 2) (v / 65536)) (a + 3) (v / 16777216)

abbrev pub rd16 : Memory → ℕ → ℕ
rd16 m a = m a + 256 * m (a + 1)

abbrev pub rd32 : Memory → ℕ → ℕ
rd32 m a = m a + 256 * m (a + 1) + 65536 * m (a + 2) + 16777216 * m (a + 3)

-- `memcpy(m + a, s + b, n)` between two memories.
abbrev pub memcpy : Memory → ℕ → Memory → ℕ → ℕ → Memory
memcpy m a s b n j = if leb a j && ltb j (a + n) then s (b + (j - a)) else m j

-- `memset(m + a, v, n)`.
abbrev pub memset : Memory → ℕ → ℕ → ℕ → Memory
memset m a v n j = if leb a j && ltb j (a + n) then v % 256 else m j

-- `memcmp(m + a, s + b, n) == 0`.
unfoldable pub memeq : Memory → ℕ → Memory → ℕ → ℕ → Bool
memeq m a s b zero = true
memeq m a s b (suc n) = (m a == s b) && memeq m (a + 1) s (b + 1) n

-- The `n` bytes from `a` on.
abbrev pub slice : Memory → ℕ → ℕ → List ℕ
slice m a zero = []
slice m a (suc n) = m a ∷ slice m (a + 1) n

-- The two memories agree on the `n` bytes from `a` and from `b` on.
abbrev pub SameBytes : Memory → ℕ → Memory → ℕ → ℕ → Type 0
SameBytes m a s b n = (i : ℕ) → i < n → m (a + i) ≡ s (b + i)

pub length-slice : (m : Memory) (a n : ℕ) → length (slice m a n) ≡ n
length-slice m a zero = refl
length-slice m a (suc n) = omega (arith, length-slice m (a + 1) n)

pub slice-eq_of_SameBytes :
    (m s : Memory) (a b n : ℕ) → SameBytes m a s b n → slice m a n ≡ slice s b n
slice-eq_of_SameBytes m s a b zero h = refl
slice-eq_of_SameBytes m s a b (suc n) h =
    ap₂ ◌∷◌ (ground (arith, h 0)) (slice-eq_of_SameBytes m s (a + 1) (b + 1) n tail)
  where
    tail : SameBytes m (a + 1) s (b + 1) n
    tail i lt = ground (arith, h (suc i))

pub get_or-slice : (m : Memory) (a n i d : ℕ) → i < n → get_or (slice m a n) i d ≡ m (a + i)
get_or-slice m a zero i d h = absurd (omega arith)
get_or-slice m a (suc n) zero d h = ground arith
get_or-slice m a (suc n) (suc i) d h = ground (arith, get_or-slice m (a + 1) n i d)

-- `memcmp` is 0 exactly when the bytes agree.
pub memeq→SameBytes : (m s : Memory) (a b n : ℕ) → memeq m a s b n ≡ true → SameBytes m a s b n
unfolding memeq
memeq→SameBytes m s a b zero h i lt = absurd (omega arith)
memeq→SameBytes m s a b (suc n) h zero lt = ground arith
memeq→SameBytes m s a b (suc n) h (suc i) lt =
    ground (arith, memeq→SameBytes m s (a + 1) (b + 1) n (ground arith) i)

pub SameBytes→memeq : (m s : Memory) (a b n : ℕ) → SameBytes m a s b n → memeq m a s b n ≡ true
unfolding memeq
SameBytes→memeq m s a b zero h = refl
SameBytes→memeq m s a b (suc n) h = ground (arith, h 0, SameBytes→memeq m s (a + 1) (b + 1) n tail)
  where
    tail : SameBytes m (a + 1) s (b + 1) n
    tail i lt = ground (arith, h (suc i))

-- Writes keep a memory of bytes.
pub wr8-IsBytes : (m : Memory) (a v : ℕ) → IsBytes m → IsBytes (wr8 m a v)
wr8-IsBytes m a v h j = ground (arith, h j)

pub wr16-IsBytes : (m : Memory) (a v : ℕ) → IsBytes m → IsBytes (wr16 m a v)
wr16-IsBytes m a v h j = ground (arith, h j)

pub wr32-IsBytes : (m : Memory) (a v : ℕ) → IsBytes m → IsBytes (wr32 m a v)
wr32-IsBytes m a v h j = ground (arith, h j)

pub memcpy-IsBytes :
    (m : Memory) (a : ℕ) (s : Memory) (b n : ℕ) → IsBytes m → IsBytes s → IsBytes (memcpy m a s b n)
memcpy-IsBytes m a s b n h k j = ground (arith, h j, k (b + (j - a)))

pub of_list-IsBytes : (xs : List ℕ) → AllBytes xs → IsBytes (of_list xs)
of_list-IsBytes [] h j = omega arith
of_list-IsBytes (x ∷ xs) h zero = h.0
of_list-IsBytes (x ∷ xs) h (suc j) = of_list-IsBytes xs h.1 j

pub slice-add :
    (m : Memory) (a n k b : ℕ) → b ≡ a + n → slice m a (n + k) ≡ slice m a n ++ slice m b k
slice-add m a zero k b e = let e' : b ≡ a = omega arith in rw (e', zero-add)
slice-add m a (suc n) k b e = rw suc-add (ap (◌∷◌ (m a)) (slice-add m (a + 1) n k b (omega arith)))

-- A word as it stands in memory.
abbrev pub le32 : ℕ → List ℕ
le32 v = (v % 256) ∷ (v / 256 % 256) ∷ (v / 65536 % 256) ∷ (v / 16777216 % 256) ∷ []

pub slice-wr32_self : (m : Memory) (a v : ℕ) → slice (wr32 m a v) a 4 ≡ le32 v
slice-wr32_self m a v = ground arith

pub slice-wr32_ne :
    (m : Memory) (a v b n : ℕ) → (a + 4 ≤ b) ⊎ (b + n ≤ a) → slice (wr32 m a v) b n ≡ slice m b n
slice-wr32_ne m a v b n apart = slice-eq_of_SameBytes (wr32 m a v) m b b n (λ j lt. ground arith)

pub slice-of_list :
    (xs : List ℕ) (m : Memory) (a : ℕ)
    → SameBytes m a (of_list xs) 0 (length xs)
    → slice m a (length xs) ≡ xs
slice-of_list [] m a h = refl
slice-of_list (x ∷ xs) m a h = ap₂ ◌∷◌ (ground (arith, h 0)) (slice-of_list xs m (a + 1) tail)
  where
    tail : SameBytes m (a + 1) (of_list xs) 0 (length xs)
    tail i lt = ground (arith, h (suc i))
