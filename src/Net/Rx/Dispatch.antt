-- ===== src/Net/Rx/Dispatch.antt =====
-- Which packets reach the program's callback, and with which arguments.
use os_workshop.Base.{
  ℕ, ◌+◌, ◌-◌, ◌^◌, ◌≤◌, ◌<◌, ◌≡◌, ltb, Bool, true, false, rd16, bswap16, sub32, arith, Bool-cases,
  inl, inr,
}
use os_workshop.Net.Host.{Host, Flow}
use os_workshop.Net.Rx.{net_rx_udp6, net_rx_ip6, net_rx_eth}

-- The two callbacks do the same with every payload inside the bytes from `lo` up to `hi`.
abbrev pub AgreeWithin :
    {W : Type 0} (d d' : (base len port : ℕ) → Bool → W → Flow W) → W → (lo hi : ℕ) → Type 0
AgreeWithin d d' w lo hi =
    (at n port : ℕ) (mcast : Bool)
    → lo ≤ at
    → at + n ≤ hi
    → port < 2 ^ 16
    → d at n port mcast w ≡ d' at n port mcast w

module _ {W : Type 0} (h : Host W) (d d' : (base len port : ℕ) → Bool → W → Flow W) (w : W) where
  udp6_within :
      (base dlen : ℕ) (mcast : Bool)
      → AgreeWithin d d' w (base + 8) (base + dlen)
      → net_rx_udp6 h d base dlen mcast w ≡ net_rx_udp6 h d' base dlen mcast w
  unfolding net_rx_udp6
  udp6_within base dlen mcast agree =
      let port = bswap16 (rd16 (h.rx w) (base + 2)) in
      let len = bswap16 (rd16 (h.rx w) (base + 4)) in
      ground (arith, agree (base + 8) (len - 8) port mcast)

  ip6_within :
      (base len : ℕ) (mcast : Bool)
      → 40 ≤ len
      → len < 2 ^ 32
      → AgreeWithin d d' w (base + 48) (base + len)
      → net_rx_ip6 h d base len mcast w ≡ net_rx_ip6 h d' base len mcast w
  unfolding net_rx_ip6
  ip6_within base len mcast lo hi agree =
      let same =
        udp6_within (base + 40) (sub32 len 40) mcast
          (λ at n port m p q r. agree at n port m (omega arith) (omega arith) r) in
      ground arith

  -- The callback is only ever handed a payload that lies behind the headers and inside the frame
  -- that was received: two callbacks that agree on those behave the same.
  pub net_rx_eth_within :
      (base len : ℕ)
      → len < 2 ^ 32
      → AgreeWithin d d' w (base + 64) (base + len)
      → net_rx_eth h d base len w ≡ net_rx_eth h d' base len w
  unfolding net_rx_eth
  net_rx_eth_within base len hi agree = elim (Bool-cases (ltb len 60)) [
    | inl short ↦ rw short
    | inr long ↦
        let same = λ (mcast : Bool).
          ip6_within (base + 16) (len - 16) mcast (ground arith) (ground arith)
            (λ at n port m p q r. agree at n port m (omega arith) (ground arith) r) in
        ground (arith, same true, same false)
  ]
