-- ===== src/Net/Tx.antt =====
-- `net_tx_ip6_reply` and `net_tx_udp_reply` of net/ipv6.c.
use os_workshop.Base.{
  ℕ, ◌+◌, ◌-◌, ltb, if◌then◌else◌, Memory, wr8, wr16, wr32, rd16, memcpy, slice, bswap16,
}
use os_workshop.Net.Wire.{
  Ifc, eth_hdr_len, ip6_hdr_len, udp_hdr_len, eth_type_ip6, ip_hdr_udp, ip6_addr_copy,
  eth_addr_copy,
}
use os_workshop.Net.Checksum.{checksum_ip6}
use os_workshop.Net.Host.{Host, Flow, returns}

-- `sizeof(ip6_pkt_t)` and `sizeof(udp6_pkt_t)`.
abbrev pub ip6_pkt_size : ℕ
ip6_pkt_size = 56

abbrev pub udp6_pkt_size : ℕ
udp6_pkt_size = 64

abbrev pub max_ip6_payload : ℕ
max_ip6_payload = 1480

abbrev pub max_udp_payload : ℕ
max_udp_payload = 1472

-- The Ethernet and the IPv6 header of a reply to the packet that starts at `from` of `rx`;
-- `stack` is what the packet's buffer held before.
unfoldable pub reply_headers : Ifc → Memory → Memory → (from len type : ℕ) → Memory
unfolding ip6_addr_copy eth_addr_copy
reply_headers i stack rx from len type =
    let p = eth_addr_copy stack 2 rx (from + 8) in
    let p = eth_addr_copy p 8 i.ifc_mac 0 in
    let p = wr16 p 14 (bswap16 eth_type_ip6) in
    let p = wr32 p 16 0x00000060 in
    let p = wr16 p 20 (bswap16 len) in
    let p = wr8 p 22 type in
    let p = wr8 p 23 255 in
    let p = ip6_addr_copy p 24 i.ifc_ll_ip6 0 in ip6_addr_copy p 40 rx (from + 24)

-- The packet of `net_tx_ip6_reply` before its checksum, with `len` bytes copied from `at` of `src`.
unfoldable pub ip6_body : Ifc → Memory → Memory → (from : ℕ) → Memory → (at len type : ℕ) → Memory
ip6_body i stack rx from src at len type =
    memcpy (reply_headers i stack rx from len type) 56 src at len

unfoldable pub ip6_reply :
    Ifc → Memory → Memory → (from : ℕ) → Memory → (at len type chk_off : ℕ) → Memory
unfolding ip6_body
ip6_reply i stack rx from src at len type chk_off =
    let p = ip6_body i stack rx from src at len type in
    wr16 p (56 + chk_off) (checksum_ip6 p 16 len)

-- The packet of `net_tx_udp_reply` before its checksum.
unfoldable pub udp_body : Ifc → Memory → Memory → (from : ℕ) → Memory → (at len port : ℕ) → Memory
udp_body i stack rx from src at len port =
    let p = reply_headers i stack rx from (udp_hdr_len + len) ip_hdr_udp in
    let p = wr16 p 56 (bswap16 port) in
    let p = wr16 p 58 (rd16 rx (from + 56)) in
    let p = wr16 p 60 (bswap16 (len + udp_hdr_len)) in let p = wr16 p 62 0 in memcpy p 64 src at len

unfoldable pub udp_reply : Ifc → Memory → Memory → (from : ℕ) → Memory → (at len port : ℕ) → Memory
unfolding udp_body
udp_reply i stack rx from src at len port =
    let p = udp_body i stack rx from src at len port in
    wr16 p 62 (checksum_ip6 p 16 (len + udp_hdr_len))

module _ {W : Type 0} (h : Host W) where
  unfoldable pub net_tx_ip6_reply : ℕ → Memory → (at len type chk_off : ℕ) → W → Flow W
  net_tx_ip6_reply replyto src at len type chk_off w =
      if ltb max_ip6_payload len
      then returns w
      else (let from = replyto - ip6_pkt_size in
          let p = ip6_reply (h.ifc w) (h.stack w) (h.rx w) from src at len type chk_off in
          h.eth_tx (slice p 2 (eth_hdr_len + ip6_hdr_len + len)) w)

  unfoldable pub net_tx_udp_reply : ℕ → Memory → (at len port : ℕ) → W → Flow W
  net_tx_udp_reply replyto src at len port w =
      if ltb max_udp_payload len
      then returns w
      else (let from = replyto - udp6_pkt_size in
          let p = udp_reply (h.ifc w) (h.stack w) (h.rx w) from src at len port in
          h.eth_tx (slice p 2 (eth_hdr_len + ip6_hdr_len + udp_hdr_len + len)) w)
