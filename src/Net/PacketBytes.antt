-- ===== src/Net/PacketBytes.antt =====
-- The headers of a reply are bytes, if what they are copied from is.
use os_workshop.Base.{
  ℕ, ◌+◌, arith, Memory, IsBytes, bswap16, wr8, wr16, wr32, memcpy, wr8-IsBytes, wr16-IsBytes,
  wr32-IsBytes, memcpy-IsBytes, rd16,
}
use os_workshop.Net.Wire.{Ifc, ip_hdr_udp, udp_hdr_len, eth_type_ip6, ip6_addr_copy, eth_addr_copy}
use os_workshop.Net.Tx.{reply_headers, ip6_body, udp_body}

pub record HoldsBytes (i : Ifc) : Type 0 where
  pub mac : IsBytes i.ifc_mac
  pub ll_ip6 : IsBytes i.ifc_ll_ip6

pub eth_addr_copy-IsBytes :
    (m : Memory) (a : ℕ) (s : Memory) (b : ℕ)
    → IsBytes m
    → IsBytes s
    → IsBytes (eth_addr_copy m a s b)
unfolding eth_addr_copy
eth_addr_copy-IsBytes m a s b h k j = ground (
  arith,
  memcpy-IsBytes (memcpy (memcpy m a s b 2) (a + 2) s (b + 2) 2) (a + 4) s (b + 4) 2
      (memcpy-IsBytes _ (a + 2) s (b + 2) 2 (memcpy-IsBytes m a s b 2 h k) k) k j,
)

pub ip6_addr_copy-IsBytes :
    (m : Memory) (a : ℕ) (s : Memory) (b : ℕ)
    → IsBytes m
    → IsBytes s
    → IsBytes (ip6_addr_copy m a s b)
unfolding ip6_addr_copy
ip6_addr_copy-IsBytes m a s b h k =
    memcpy-IsBytes _ (a + 12) s (b + 12) 4
      (memcpy-IsBytes _ (a + 8) s (b + 8) 4
        (memcpy-IsBytes _ (a + 4) s (b + 4) 4 (memcpy-IsBytes m a s b 4 h k) k) k)
      k

pub reply_headers-IsBytes :
    (i : Ifc) (stack rx : Memory) (from len type : ℕ)
    → HoldsBytes i
    → IsBytes stack
    → IsBytes rx
    → IsBytes (reply_headers i stack rx from len type)
unfolding reply_headers
reply_headers-IsBytes i stack rx from len type hi hs hr =
    let p1 = eth_addr_copy stack 2 rx (from + 8) in
    let h1 = eth_addr_copy-IsBytes stack 2 rx (from + 8) hs hr in
    let p2 = eth_addr_copy p1 8 i.ifc_mac 0 in
    let h2 = eth_addr_copy-IsBytes p1 8 i.ifc_mac 0 h1 hi.mac in
    let p3 = wr16 p2 14 (bswap16 eth_type_ip6) in
    let h3 = wr16-IsBytes p2 14 (bswap16 eth_type_ip6) h2 in
    let p4 = wr32 p3 16 0x00000060 in
    let h4 = wr32-IsBytes p3 16 0x00000060 h3 in
    let p5 = wr16 p4 20 (bswap16 len) in
    let h5 = wr16-IsBytes p4 20 (bswap16 len) h4 in
    let p6 = wr8 p5 22 type in
    let h6 = wr8-IsBytes p5 22 type h5 in
    let p7 = wr8 p6 23 255 in
    let h7 = wr8-IsBytes p6 23 255 h6 in
    let p8 = ip6_addr_copy p7 24 i.ifc_ll_ip6 0 in
    let h8 = ip6_addr_copy-IsBytes p7 24 i.ifc_ll_ip6 0 h7 hi.ll_ip6 in
    ip6_addr_copy-IsBytes p8 40 rx (from + 24) h8 hr

module _ (i : Ifc) (stack rx : Memory) (from : ℕ) (src : Memory) (at len : ℕ) (hi : HoldsBytes i)
    (hs : IsBytes stack) (hr : IsBytes rx) (hd : IsBytes src) where
  pub ip6_body-IsBytes : (type : ℕ) → IsBytes (ip6_body i stack rx from src at len type)
  unfolding ip6_body
  ip6_body-IsBytes type =
      memcpy-IsBytes _ 56 src at len (reply_headers-IsBytes i stack rx from len type hi hs hr) hd

  pub udp_body-IsBytes : (port : ℕ) → IsBytes (udp_body i stack rx from src at len port)
  unfolding udp_body
  udp_body-IsBytes port =
      let p = reply_headers i stack rx from (udp_hdr_len + len) ip_hdr_udp in
      let h = reply_headers-IsBytes i stack rx from (udp_hdr_len + len) ip_hdr_udp hi hs hr in
      let p1 = wr16 p 56 (bswap16 port) in
      let h1 = wr16-IsBytes p 56 (bswap16 port) h in
      let p2 = wr16 p1 58 (rd16 rx (from + 56)) in
      let h2 = wr16-IsBytes p1 58 (rd16 rx (from + 56)) h1 in
      let p3 = wr16 p2 60 (bswap16 (len + udp_hdr_len)) in
      let h3 = wr16-IsBytes p2 60 (bswap16 (len + udp_hdr_len)) h2 in
      let p4 = wr16 p3 62 0 in memcpy-IsBytes p4 64 src at len (wr16-IsBytes p3 62 0 h3) hd
