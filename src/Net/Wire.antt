-- ===== src/Net/Wire.antt =====
-- The constants and structures of net/inc/net/ipv6.h, and the interface addresses of net/ipv6.c.
-- A structure is a place in a byte memory; the offsets below are those that the static
-- assertions of the header fix.
use os_workshop.Base.{ℕ, ◌+◌, [], ◌∷◌, Memory, of_list, wr8, wr32, memcpy, bit_xor}

abbrev pub eth_hdr_size : ℕ
eth_hdr_size = 16

abbrev pub ip6_hdr_len : ℕ
ip6_hdr_len = 40

abbrev pub udp_hdr_len : ℕ
udp_hdr_len = 8

abbrev pub icmp_hdr_len : ℕ
icmp_hdr_len = 4

abbrev pub ndp_hdr_len : ℕ
ndp_hdr_len = 24

-- ETH_HDR_LEN, which leaves out the two bytes of padding.
abbrev pub eth_hdr_len : ℕ
eth_hdr_len = 14

abbrev pub netbuf_max : ℕ
netbuf_max = 1536

abbrev pub eth_type_ip6 : ℕ
eth_type_ip6 = 0x86dd

abbrev pub ip_hdr_udp : ℕ
ip_hdr_udp = 17

abbrev pub ip_hdr_icmp : ℕ
ip_hdr_icmp = 58

abbrev pub icmp_echo_request : ℕ
icmp_echo_request = 128

abbrev pub icmp_echo_reply : ℕ
icmp_echo_reply = 129

abbrev pub icmp_ndp_n_solicit : ℕ
icmp_ndp_n_solicit = 135

abbrev pub icmp_ndp_n_advertise : ℕ
icmp_ndp_n_advertise = 136

abbrev pub ndp_n_tgt_ll_addr : ℕ
ndp_n_tgt_ll_addr = 2

-- `ip6_addr_copy` moves four words and `eth_addr_copy` three half words.
unfoldable pub ip6_addr_copy : Memory → ℕ → Memory → ℕ → Memory
ip6_addr_copy m dst s src =
    memcpy (memcpy (memcpy (memcpy m dst s src 4) (dst + 4) s (src + 4) 4) (dst + 8) s (src + 8) 4)
      (dst + 12) s (src + 12) 4

unfoldable pub eth_addr_copy : Memory → ℕ → Memory → ℕ → Memory
eth_addr_copy m dst s src =
    memcpy (memcpy (memcpy m dst s src 2) (dst + 2) s (src + 2) 2) (dst + 4) s (src + 4) 2

-- The link local address of an Ethernet address.
unfoldable pub ip6lla_from_ethmac : Memory → Memory → Memory
ip6lla_from_ethmac ip mac =
    let m = wr32 (wr32 ip 0 0) 4 0 in
    let m = wr8 (wr8 m 0 0xfe) 1 0x80 in
    let m = wr8 (wr8 (wr8 m 8 (bit_xor (mac 0) 2)) 9 (mac 1)) 10 (mac 2) in
    let m = wr8 (wr8 m 11 0xff) 12 0xfe in wr8 (wr8 (wr8 m 13 (mac 3)) 14 (mac 4)) 15 (mac 5)

-- The solicited-node multicast address of an Ethernet address.
unfoldable pub ip6ns_from_ethmac : Memory → Memory → Memory
ip6ns_from_ethmac ip mac =
    let m = wr32 (wr32 (wr32 ip 0 0) 4 0) 8 0 in
    let m = wr8 (wr8 m 0 0xff) 1 0x02 in
    let m = wr8 (wr8 m 11 0x01) 12 0xff in wr8 (wr8 (wr8 m 13 (mac 3)) 14 (mac 4)) 15 (mac 5)

-- The Ethernet multicast address of an IPv6 one; `mac` is written from `at` on.
unfoldable pub ethmac_from_ip6mc : Memory → ℕ → Memory → Memory
ethmac_from_ip6mc mac at ip =
    let m = wr8 (wr8 mac at 0x33) (at + 1) 0x33 in
    let m = wr8 (wr8 m (at + 2) (ip 12)) (at + 3) (ip 13) in
    wr8 (wr8 m (at + 4) (ip 14)) (at + 5) (ip 15)

-- The static variables of net/ipv6.c.
pub record Ifc : Type 0 where
  pub ifc_mac : Memory
  pub ifc_ll_ip6 : Memory
  pub mcast_ns_ip6 : Memory
  pub m_ifc_mac : Memory
  pub m_ns_mac : Memory

-- Their initial values.
abbrev pub boot_ifc : Ifc
boot_ifc = record {
  ifc_mac = of_list (0x72 ∷ 0x72 ∷ 0xaa ∷ 0xbb ∷ 0xcc ∷ 0xdd ∷ []);
  ifc_ll_ip6 = of_list (
      0xfe ∷ 0x80 ∷ 0 ∷ 0 ∷ 0 ∷ 0 ∷ 0 ∷ 0 ∷ 0x70 ∷ 0x72 ∷ 0xaa ∷ 0xff ∷ 0xfe ∷ 0xbb ∷ 0xcc ∷ 0xdd
      ∷ []);
  mcast_ns_ip6 =
      of_list
        (0xff ∷ 0x02 ∷ 0 ∷ 0 ∷ 0 ∷ 0 ∷ 0 ∷ 0 ∷ 0 ∷ 0 ∷ 0 ∷ 0x01 ∷ 0xff ∷ 0xbb ∷ 0xcc ∷ 0xdd ∷ []);
  m_ifc_mac = of_list (0 ∷ 0 ∷ 0x72 ∷ 0x72 ∷ 0xaa ∷ 0xbb ∷ 0xcc ∷ 0xdd ∷ []);
  m_ns_mac = of_list (0 ∷ 0 ∷ 0x33 ∷ 0x33 ∷ 0xff ∷ 0xbb ∷ 0xcc ∷ 0xdd ∷ []);
}

-- All nodes on the link.
abbrev pub mcast_ll_ip6 : Memory
mcast_ll_ip6 = of_list (0xff ∷ 0x02 ∷ 0 ∷ 0 ∷ 0 ∷ 0 ∷ 0 ∷ 0 ∷ 0 ∷ 0 ∷ 0 ∷ 0 ∷ 0 ∷ 0 ∷ 0 ∷ 0x01 ∷ [])

abbrev pub m_ll_mac : Memory
m_ll_mac = of_list (0 ∷ 0 ∷ 0x33 ∷ 0x33 ∷ 0 ∷ 0 ∷ 0 ∷ 0x01 ∷ [])

unfoldable pub net_init : Memory → Ifc → Ifc
unfolding ip6lla_from_ethmac ip6ns_from_ethmac ethmac_from_ip6mc
net_init mac i =
    let ns = ip6ns_from_ethmac i.mcast_ns_ip6 mac in
    record {
      ifc_mac = memcpy i.ifc_mac 0 mac 0 6;
      ifc_ll_ip6 = ip6lla_from_ethmac i.ifc_ll_ip6 mac;
      mcast_ns_ip6 = ns;
      m_ifc_mac = memcpy i.m_ifc_mac 2 mac 0 6;
      m_ns_mac = ethmac_from_ip6mc i.m_ns_mac 2 ns;
    }
