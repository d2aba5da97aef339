-- ===== src/Net/Checksum.antt =====
-- `checksum` and `checksum_ip6` of net/ipv6.c.
pub mod Sum
pub mod Fold
pub mod Complement
use os_workshop.Base.{
  ℕ, zero, suc, ◌+◌, ◌-◌, ◌*◌, ◌/◌, ◌%◌, ◌^◌, ◌==◌, ltb, if◌then◌else◌, Memory, rd16, u32, not32,
  bswap16,
}

-- The loop over the words, and the last byte of a buffer of odd length.
unfoldable pub sum_words : Memory → ℕ → ℕ → ℕ → ℕ
sum_words m a zero sum = sum
sum_words m a (suc zero) sum = u32 (sum + m a)
sum_words m a (suc (suc len)) sum = sum_words m (a + 2) len (u32 (sum + rd16 m a))

-- The loop that adds the upper half to the lower one.
unfoldable pub fold_carries : ℕ → ℕ → ℕ
fold_carries zero sum = sum
fold_carries (suc fuel) sum =
    let next = fold_carries fuel (u32 (sum % 2 ^ 16 + sum / 2 ^ 16)) in
    if ltb 0xffff sum then next else sum

-- Two rounds are always enough; the third is what the test of the loop would refuse.
unfoldable pub checksum : Memory → ℕ → ℕ → ℕ → ℕ
unfolding sum_words fold_carries
checksum m a len sum = fold_carries 3 (sum_words m a len sum)

-- `hdr` is where the IPv6 header starts.
unfoldable pub checksum_ip6 : Memory → ℕ → ℕ → ℕ
checksum_ip6 m hdr len =
    let sum = checksum m (hdr + 4) 2 (bswap16 (m (hdr + 6))) in
    let sum = checksum m (hdr + 8) (len + 32) sum in if sum == 0xffff then sum else not32 sum
