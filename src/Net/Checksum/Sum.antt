-- ===== src/Net/Checksum/Sum.antt =====
-- The sum over the words, without its wrap.
use os_workshop.Base.{
  ℕ, zero, suc, ◌+◌, ◌*◌, ◌%◌, ◌≤◌, ◌<◌, ◌^◌, ◌≡◌, refl, arith, Memory, IsBytes, SameBytes, rd16,
  wr16,
}
use os_workshop.Net.Checksum.{sum_words}

-- The plain sum of the little-endian words, and of the last byte.
unfoldable pub word_sum : Memory → ℕ → ℕ → ℕ
word_sum m a zero = 0
word_sum m a (suc zero) = m a
word_sum m a (suc (suc len)) = rd16 m a + word_sum m (a + 2) len

pub word_sum-le : (m : Memory) (a len : ℕ) → IsBytes m → word_sum m a len ≤ 65535 * len
unfolding word_sum
word_sum-le m a zero h = omega arith
word_sum-le m a (suc zero) h = omega (arith, h a)
word_sum-le m a (suc (suc len)) h = omega (arith, h a, h (a + 1), word_sum-le m (a + 2) len h)

-- While 32 bits suffice, the loop computes the plain sum.
pub sum_words-eq-word_sum :
    (m : Memory) (a len s : ℕ)
    → IsBytes m
    → s + 65535 * len < 2 ^ 32
    → sum_words m a len s ≡ s + word_sum m a len
unfolding word_sum sum_words
sum_words-eq-word_sum m a zero s h b = omega arith
sum_words-eq-word_sum m a (suc zero) s h b = omega (arith, h a)
sum_words-eq-word_sum m a (suc (suc len)) s h b =
    let ha = h a in
    let hb = h (a + 1) in
    omega (arith, sum_words-eq-word_sum m (a + 2) len ((s + rd16 m a) % 2 ^ 32) h (omega arith))

pub word_sum_ext :
    (m n : Memory) (a b len : ℕ) → SameBytes m a n b len → word_sum m a len ≡ word_sum n b len
unfolding word_sum
word_sum_ext m n a b zero h = refl
word_sum_ext m n a b (suc zero) h = ground (arith, h 0)
word_sum_ext m n a b (suc (suc len)) h = ground (
  arith,
  h 0,
  h 1,
  word_sum_ext m n (a + 2) (b + 2) len (λ i lt. ground (arith, h (suc (suc i)))),
)

-- Filling in a word that was zero, at an even distance, adds that word.
pub word_sum-wr16 :
    (m : Memory) (at c a k len : ℕ)
    → at ≡ a + 2 * k
    → 2 * k + 2 ≤ len
    → m at ≡ 0
    → m (at + 1) ≡ 0
    → word_sum (wr16 m at c) a len ≡ word_sum m a len + c % 2 ^ 16
unfolding word_sum
word_sum-wr16 m at c a k zero e b z z' = absurd (omega arith)
word_sum-wr16 m at c a k (suc zero) e b z z' = absurd (omega arith)
word_sum-wr16 m at c a zero (suc (suc len)) e b z z' =
    ground (arith, word_sum_ext (wr16 m at c) m (a + 2) (a + 2) len (λ i lt. ground arith))
word_sum-wr16 m at c a (suc k) (suc (suc len)) e b z z' =
    ground (arith, word_sum-wr16 m at c (a + 2) k len (omega arith) (omega arith) z z')
