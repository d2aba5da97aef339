-- ===== src/Net/Rx/Icmp.antt =====
-- Which frames of net/ipv6.c reach `net_rx_icmp6`.
use os_workshop.Base.{ℕ, ◌+◌, ◌-◌, ◌≤◌, ◌≡◌, Bool, some, Memory, IsBytes, arith}
use os_workshop.Net.Wire.{Ifc, m_ll_mac, ip_hdr_icmp}
use os_workshop.Net.Host.{Host, Flow}
use os_workshop.Net.Rx.{net_rx_icmp6, net_rx_ip6, net_rx_eth}
use os_workshop.Net.Rx.Delivery.{destination, match_words-memeq, m_ll_mac-IsBytes}

-- A whole IPv6 frame for this host that carries ICMPv6.
pub record IsIcmp (i : Ifc) (rx : Memory) (base len : ℕ) (mcast : Bool) : Type 0 where
  pub whole : 60 ≤ len
  pub fits : len ≤ 1536
  pub type_hi : rx (base + 14) ≡ 0x86
  pub type_lo : rx (base + 15) ≡ 0xdd
  pub for_us : destination i rx base ≡ some mcast
  pub next : rx (base + 22) ≡ ip_hdr_icmp

module _ {W : Type 0} (h : Host W) (d : (base len port : ℕ) → Bool → W → Flow W) (w : W)
    (base len : ℕ) (hr : IsBytes (h.rx w)) (hm : IsBytes (h.ifc w).m_ifc_mac)
    (hn : IsBytes (h.ifc w).m_ns_mac) where
  pub net_rx_eth-icmp6 :
      (mcast : Bool)
      → IsIcmp (h.ifc w) (h.rx w) base len mcast
      → net_rx_eth h d base len w ≡ net_rx_icmp6 h (base + 56) (len - 56) mcast w
  unfolding net_rx_eth net_rx_ip6 destination
  net_rx_eth-icmp6 mcast is = ground (
    arith,
    match_words-memeq (h.rx w) base (h.ifc w).m_ifc_mac hr hm,
    match_words-memeq (h.rx w) base (h.ifc w).m_ns_mac hr hn,
    match_words-memeq (h.rx w) base m_ll_mac hr m_ll_mac-IsBytes,
  )
