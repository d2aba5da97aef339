-- ===== src/Net/Rx/Delivery.antt =====
-- Exactly which frames of net/ipv6.c reach the callback, against a flat description.
use os_workshop.Base.{
  ℕ, ◌+◌, ◌-◌, ◌*◌, ◌^◌, ◌<◌, ◌≡◌, ◌==◌, leb, if◌then◌else◌, Bool, true, false, ◌&&◌, ◌||◌, Option,
  some, none, Memory, IsBytes, rd32, memeq, arith, of_list-IsBytes, [], ◌∷◌,
}
use os_workshop.Net.Wire.{Ifc, mcast_ll_ip6, m_ll_mac, ip_hdr_udp}
use os_workshop.Net.Host.{Host, Flow}
use os_workshop.Net.Rx.{match_words, net_rx_udp6, net_rx_ip6, net_rx_eth}

word_eq-bytes :
    (a b c d a' b' c' d' : ℕ)
    → (a < 256) × (b < 256) × (c < 256) × (d < 256)
    → (a' < 256) × (b' < 256) × (c' < 256) × (d' < 256)
    → (a + 256 * b + 65536 * c + 16777216 * d == a' + 256 * b' + 65536 * c' + 16777216 * d')
      ≡ ((a == a') && ((b == b') && ((c == c') && (d == d'))))
word_eq-bytes a b c d a' b' c' d' h h' = ground arith

rd32-memeq :
    (m : Memory) (a : ℕ) (n : Memory) (b : ℕ)
    → IsBytes m
    → IsBytes n
    → (rd32 m a == rd32 n b) ≡ (
        (m a == n b)
        && ((m (a + 1) == n (b + 1)) && ((m (a + 2) == n (b + 2)) && (m (a + 3) == n (b + 3)))))
rd32-memeq m a n b hm hn =
    word_eq-bytes (m a) (m (a + 1)) (m (a + 2)) (m (a + 3)) (n b) (n (b + 1)) (n (b + 2))
      (n (b + 3)) (hm a, hm (a + 1), hm (a + 2), hm (a + 3))
      (hn b, hn (b + 1), hn (b + 2), hn (b + 3))

memeq_eight :
    (m : Memory) (a : ℕ) (n : Memory)
    → memeq m a n 0 8 ≡ (
        ((m a == n 0) && ((m (a + 1) == n 1) && ((m (a + 2) == n 2) && (m (a + 3) == n 3))))
        && ((m (a + 4) == n 4)
            && ((m (a + 4 + 1) == n 5) && ((m (a + 4 + 2) == n 6) && (m (a + 4 + 3) == n 7)))))
unfolding memeq
memeq_eight m a n = ground arith

-- The comparison by words is a comparison of the eight bytes.
pub match_words-memeq :
    (rx : Memory) (base : ℕ) (m : Memory)
    → IsBytes rx
    → IsBytes m
    → match_words rx base m ≡ memeq rx base m 0 8
unfolding match_words
match_words-memeq rx base m hr hm =
    rw (memeq_eight rx base m, rd32-memeq rx base m 0 hr hm, rd32-memeq rx (base + 4) m 4 hr hm)

-- Whether a frame's destination is this host, and if so whether by multicast: the Ethernet and the
-- IPv6 destination must both be its own, or both one of its groups.
unfoldable pub destination : Ifc → Memory → ℕ → Option Bool
destination i rx base =
    if memeq rx base i.m_ifc_mac 0 8
    then (if memeq rx (base + 40) i.ifc_ll_ip6 0 16 then some false else none)
    else if memeq rx base i.m_ns_mac 0 8 || memeq rx base m_ll_mac 0 8
    then (if memeq rx (base + 40) mcast_ll_ip6 0 16 || memeq rx (base + 40) i.mcast_ns_ip6 0 16
        then some true
        else none)
    else none

-- The same, if besides the frame is a whole IPv6 frame with a whole UDP datagram in it.
unfoldable pub datagram : Ifc → Memory → (base len : ℕ) → Option Bool
unfolding destination
datagram i rx base len =
    let size = rx (base + 60) * 256 + rx (base + 61) in
    if leb 60 len
      && (rx (base + 14) == 0x86)
      && (rx (base + 15) == 0xdd)
      && (rx (base + 22) == ip_hdr_udp)
      && leb 8 size
      && leb (size + 56) len
    then destination i rx base
    else none

pub m_ll_mac-IsBytes : IsBytes m_ll_mac
m_ll_mac-IsBytes = of_list-IsBytes (0 ∷ 0 ∷ 0x33 ∷ 0x33 ∷ 0 ∷ 0 ∷ 0 ∷ 0x01 ∷ []) (omega arith)

module _ {W : Type 0} (h : Host W) (d : (base len port : ℕ) → Bool → W → Flow W) (w : W)
    (base len : ℕ) (small : len < 2 ^ 32) (hr : IsBytes (h.rx w)) (hm : IsBytes (h.ifc w).m_ifc_mac)
    (hn : IsBytes (h.ifc w).m_ns_mac) where
  -- A frame that `datagram` accepts calls the callback once, on the UDP payload, with the
  -- destination port in host order; the condition is on frames shorter than 2 ^ 32 bytes.
  pub net_rx_eth_delivers :
      (mcast : Bool)
      → datagram (h.ifc w) (h.rx w) base len ≡ some mcast
      → net_rx_eth h d base len w
        ≡ d
            (base + 64)
            (h.rx w (base + 60) * 256 + h.rx w (base + 61) - 8)
            (h.rx w (base + 58) * 256 + h.rx w (base + 59))
            mcast
            w
  unfolding net_rx_eth datagram net_rx_ip6 net_rx_udp6
  net_rx_eth_delivers mcast e = ground (
    arith,
    match_words-memeq (h.rx w) base (h.ifc w).m_ifc_mac hr hm,
    match_words-memeq (h.rx w) base (h.ifc w).m_ns_mac hr hn,
    match_words-memeq (h.rx w) base m_ll_mac hr m_ll_mac-IsBytes,
    hr (base + 14),
    hr (base + 15),
    hr (base + 58),
    hr (base + 59),
    hr (base + 60),
    hr (base + 61),
  )

  -- A frame that `datagram` refuses never calls the callback: any two behave the same.
  pub net_rx_eth_withholds :
      (d' : (base len port : ℕ) → Bool → W → Flow W)
      → datagram (h.ifc w) (h.rx w) base len ≡ none
      → net_rx_eth h d base len w ≡ net_rx_eth h d' base len w
  unfolding net_rx_eth datagram net_rx_ip6 net_rx_udp6
  net_rx_eth_withholds d' e = ground (
    arith,
    match_words-memeq (h.rx w) base (h.ifc w).m_ifc_mac hr hm,
    match_words-memeq (h.rx w) base (h.ifc w).m_ns_mac hr hn,
    match_words-memeq (h.rx w) base m_ll_mac hr m_ll_mac-IsBytes,
    hr (base + 14),
    hr (base + 15),
    hr (base + 58),
    hr (base + 59),
    hr (base + 60),
    hr (base + 61),
  )
