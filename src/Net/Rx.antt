-- ===== src/Net/Rx.antt =====
-- The receiving half of net/ipv6.c. `base` is where the packet starts in the receive memory, and
-- `pkt_rx_udp` is the program's callback. A multicast flag is a Boolean.
pub mod Dispatch
pub mod Delivery
pub mod Invariant
pub mod Icmp
pub mod Echo
pub mod Neighbour
use os_workshop.Base.{
  ℕ, ◌+◌, ◌-◌, ◌==◌, ltb, leb, if◌then◌else◌, Bool, true, false, not, ◌&&◌, ◌||◌, Memory, wr8, wr16,
  wr32, rd16, rd32, memcpy, memeq, slice, bswap16, sub32,
}
use os_workshop.Net.Wire.{
  Ifc, eth_hdr_size, ip6_hdr_len, udp_hdr_len, icmp_hdr_len, ndp_hdr_len, eth_type_ip6, ip_hdr_udp,
  ip_hdr_icmp, icmp_echo_request, icmp_echo_reply, icmp_ndp_n_solicit, icmp_ndp_n_advertise,
  ndp_n_tgt_ll_addr, mcast_ll_ip6, m_ll_mac,
}
use os_workshop.Net.Host.{
  Host, Flow, returns, udp_runt, icmp_runt, eth_runt, udp_badlen, icmp_unknown, ip6_multicast,
  ip6_unicast, ip6_header, eth_unknown,
}
use os_workshop.Net.Tx.{net_tx_ip6_reply}

-- The `reply` of a neighbour solicitation: 32 bytes, 0 where nothing is assigned.
unfoldable pub ndp_reply : Ifc → Memory
ndp_reply i =
    let p = wr8 (wr8 (λ _. 0) 0 icmp_ndp_n_advertise) 1 0 in
    let p = wr32 (wr16 p 2 0) 4 0x60 in
    let p = wr8 (wr8 p 24 ndp_n_tgt_ll_addr) 25 1 in
    let p = memcpy p 8 i.ifc_ll_ip6 0 16 in memcpy p 26 i.ifc_mac 0 6

-- `(w[0] == m.w[0]) && (w[1] == m.w[1])`.
unfoldable pub match_words : Memory → ℕ → Memory → Bool
match_words rx base m = (rd32 rx base == rd32 m 0) && (rd32 rx (base + 4) == rd32 m 4)

module _ {W : Type 0} (h : Host W) where
  unfoldable pub net_rx_icmp6 : (base dlen : ℕ) → Bool → W → Flow W
  net_rx_icmp6 base dlen mcast w =
      let rx = h.rx w in
      let i = h.ifc w in
      if ltb dlen icmp_hdr_len
      then returns (h.xprintf icmp_runt w)
      else if rx base == icmp_ndp_n_solicit
      then (if ltb dlen ndp_hdr_len || not (rx (base + 1) == 0)
          then returns w
          else if not (memeq rx (base + 8) i.ifc_ll_ip6 0 16)
          then returns w
          else net_tx_ip6_reply h base (ndp_reply i) 0 32 ip_hdr_icmp 2 w)
      else if rx base == icmp_echo_request
      then (if ltb dlen icmp_hdr_len
          then returns w
          else (let rx' = wr16 (wr8 rx base icmp_echo_reply) (base + 2) 0 in
              net_tx_ip6_reply h base rx' base dlen ip_hdr_icmp 2 (h.set_rx rx' w)))
      else returns (h.xprintf (icmp_unknown (rx base) (rx (base + 1)) mcast) w)

  module _ (pkt_rx_udp : (base len port : ℕ) → Bool → W → Flow W) where
    unfoldable pub net_rx_udp6 : (base dlen : ℕ) → Bool → W → Flow W
    net_rx_udp6 base dlen mcast w =
        if ltb dlen udp_hdr_len
        then returns (h.xprintf udp_runt w)
        else (let port = bswap16 (rd16 (h.rx w) (base + 2)) in
            let len = bswap16 (rd16 (h.rx w) (base + 4)) in
            if ltb len udp_hdr_len || ltb dlen len
            then returns (h.xprintf (udp_badlen len dlen) w)
            else pkt_rx_udp (base + udp_hdr_len) (len - udp_hdr_len) port mcast w)

    ip6_payload : (base len : ℕ) → Bool → W → Flow W
    ip6_payload base len mcast w =
        let next = h.rx w (base + 6) in
        if next == ip_hdr_icmp
        then net_rx_icmp6 (base + ip6_hdr_len) (sub32 len ip6_hdr_len) mcast w
        else if next == ip_hdr_udp
        then net_rx_udp6 (base + ip6_hdr_len) (sub32 len ip6_hdr_len) mcast w
        else returns (h.xprintf (ip6_header next) w)

    unfoldable pub net_rx_ip6 : (base len : ℕ) → Bool → W → Flow W
    unfolding ip6_payload
    net_rx_ip6 base len mcast w =
        let rx = h.rx w in
        let i = h.ifc w in
        if mcast
        then (if not (memeq rx (base + 24) mcast_ll_ip6 0 16)
              && not (memeq rx (base + 24) i.mcast_ns_ip6 0 16)
            then returns (h.xprintf ip6_multicast w)
            else ip6_payload base len mcast w)
        else if not (memeq rx (base + 24) i.ifc_ll_ip6 0 16)
        then returns (h.xprintf ip6_unicast w)
        else ip6_payload base len mcast w

    unfoldable pub net_rx_eth : (base len : ℕ) → W → Flow W
    net_rx_eth base len w =
        let rx = h.rx w in
        let i = h.ifc w in
        let at = base + eth_hdr_size in
        let rest = len - eth_hdr_size in
        if ltb len 60
        then returns (h.xprintf eth_runt w)
        else if not (rd16 rx (base + 14) == bswap16 eth_type_ip6)
        then returns w
        else if match_words rx base i.m_ifc_mac
        then net_rx_ip6 at rest false w
        else if match_words rx base i.m_ns_mac
        then net_rx_ip6 at rest true w
        else if match_words rx base m_ll_mac
        then net_rx_ip6 at rest true w
        else returns (h.xprintf (eth_unknown (slice rx (base + 2) 6)) w)
