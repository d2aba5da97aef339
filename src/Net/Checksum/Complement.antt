-- ===== src/Net/Checksum/Complement.antt =====
-- The value of `checksum_ip6` completes the sum to the all-ones word of RFC 1071.
use os_workshop.Base.{
  ℕ, ◌+◌, ◌*◌, ◌%◌, ◌^◌, ◌≤◌, ◌<◌, ◌≡◌, arith, Memory, IsBytes, bswap16, wr16, List, of_list, slice,
  length, get_or-slice, length-slice, ◌-◌,
}
use os_workshop.Net.Checksum.{sum_words, checksum, checksum_ip6}
use os_workshop.Net.Checksum.Sum.{
  word_sum, word_sum-le, sum_words-eq-word_sum, word_sum-wr16, word_sum_ext,
}
use os_workshop.Net.Checksum.Fold.{fold-le, fold-mod}

-- The words that the checksum of a packet covers: the pseudo-header and `len` bytes behind the
-- IPv6 header at `hdr`.
unfoldable pub covered_sum : Memory → (hdr len : ℕ) → ℕ
unfolding word_sum
covered_sum m hdr len =
    bswap16 (m (hdr + 6)) + word_sum m (hdr + 4) 2 + word_sum m (hdr + 8) (len + 32)

-- One call of `checksum`, as ones' complement arithmetic.
pub checksum_lem :
    (m : Memory) (a len s : ℕ)
    → IsBytes m
    → s + 65535 * len < 2 ^ 32
    → (checksum m a len s ≤ 0xffff) × (checksum m a len s % 65535 ≡ (s + word_sum m a len) % 65535)
unfolding checksum
checksum_lem m a len s h b =
    let e = sum_words-eq-word_sum m a len s h b in
    let lt : sum_words m a len s < 2 ^ 32 = omega (arith, e, word_sum-le m a len h) in
    (fold-le _ lt, omega (arith, fold-mod (sum_words m a len s) lt))

-- With its checksum added, what is covered is a multiple of 0xffff, and the checksum is not 0.
pub checksum_ip6_complement :
    (m : Memory) (hdr len : ℕ)
    → IsBytes m
    → len ≤ 1536
    → ((covered_sum m hdr len + checksum_ip6 m hdr len % 2 ^ 16) % 65535 ≡ 0)
      × (0 < checksum_ip6 m hdr len % 2 ^ 16)
unfolding covered_sum checksum_ip6
checksum_ip6_complement m hdr len h b =
    let hb = h (hdr + 6) in
    let one = checksum_lem m (hdr + 4) 2 (bswap16 (m (hdr + 6))) h (omega arith) in
    let two =
      checksum_lem m (hdr + 8) (len + 32) (checksum m (hdr + 4) 2 (bswap16 (m (hdr + 6)))) h
        (omega arith) in
    ground arith

-- Filling in a zero word of what is covered adds that word.
pub covered_sum-wr16 :
    (m : Memory) (hdr len at c k : ℕ)
    → at ≡ hdr + 8 + 2 * k
    → 2 * k + 2 ≤ len + 32
    → m at ≡ 0
    → m (at + 1) ≡ 0
    → covered_sum (wr16 m at c) hdr len ≡ covered_sum m hdr len + c % 2 ^ 16
unfolding covered_sum
covered_sum-wr16 m hdr len at c k e b z z' =
    let far = word_sum-wr16 m at c (hdr + 8) k (len + 32) e b z z' in
    let near = word_sum_ext (wr16 m at c) m (hdr + 4) (hdr + 4) 2 (λ i lt. ground arith) in
    ground arith

-- A received frame starts with the destination address, so its IPv6 header is at 14. It is in
-- order if what its checksum covers adds up to a multiple of 0xffff.
abbrev pub Verifies : List ℕ → Type 0
Verifies frame = covered_sum (of_list frame) 14 (length frame - 54) % 65535 ≡ 0

-- The sum over a packet in its buffer is the sum over the frame that is sent.
pub covered_sum-slice :
    (m : Memory) (len : ℕ)
    → covered_sum (of_list (slice m 2 (54 + len))) 14 len ≡ covered_sum m 16 len
unfolding covered_sum
covered_sum-slice m len =
    let f = of_list (slice m 2 (54 + len)) in
    ground (
      arith,
      word_sum_ext f m 18 20 2 (λ i lt. ground (arith, get_or-slice m 2 (54 + len) (18 + i) 0)),
      word_sum_ext f m 22 24 (len + 32)
          (λ i lt. ground (arith, get_or-slice m 2 (54 + len) (22 + i) 0)),
      get_or-slice m 2 (54 + len) 20 0,
    )

pub Verifies-slice :
    (m : Memory) (len : ℕ) → covered_sum m 16 len % 65535 ≡ 0 → Verifies (slice m 2 (54 + len))
Verifies-slice m len h = rw (length-slice) (ground (arith, covered_sum-slice m len))
