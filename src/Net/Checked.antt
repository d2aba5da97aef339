-- ===== src/Net/Checked.antt =====
-- The checksums of the packets that net/ipv6.c builds, in their buffers. The checksum field of an
-- ICMPv6 message lies at an even place inside it and is 0 before.
use os_workshop.Base.{ℕ, ◌+◌, ◌*◌, ◌%◌, ◌≤◌, ◌<◌, ◌≡◌, refl, arith, Memory, IsBytes, rd16}
use os_workshop.Net.Wire.{Ifc, udp_hdr_len}
use os_workshop.Net.Tx.{ip6_body, udp_body, ip6_reply, udp_reply, max_udp_payload, max_ip6_payload}
use os_workshop.Net.Checksum.{checksum_ip6}
use os_workshop.Net.Checksum.Complement.{covered_sum, checksum_ip6_complement, covered_sum-wr16}
use os_workshop.Net.PacketBytes.{HoldsBytes, ip6_body-IsBytes, udp_body-IsBytes}

module _ (i : Ifc) (stack rx : Memory) (from : ℕ) (src : Memory) (at len : ℕ) (hi : HoldsBytes i)
    (hs : IsBytes stack) (hr : IsBytes rx) (hd : IsBytes src) where
  pub udp_reply_verifies :
      (port : ℕ)
      → len ≤ max_udp_payload
      → (covered_sum (udp_reply i stack rx from src at len port) 16 (len + udp_hdr_len) % 65535 ≡ 0)
        × (0 < rd16 (udp_reply i stack rx from src at len port) 62)
  unfolding udp_reply
  udp_reply_verifies port b =
      let p = udp_body i stack rx from src at len port in
      let h = udp_body-IsBytes i stack rx from src at len hi hs hr hd port in
      let c = checksum_ip6_complement p 16 (len + udp_hdr_len) h (omega arith) in
      let e =
        covered_sum-wr16 p 16 (len + udp_hdr_len) 62 (checksum_ip6 p 16 (len + udp_hdr_len)) 19 refl
          (omega arith) refl refl in
      ground arith

  pub ip6_reply_verifies :
      (type half : ℕ)
      → len ≤ max_ip6_payload
      → 2 * half + 2 ≤ len
      → src (at + 2 * half) ≡ 0
      → src (at + 2 * half + 1) ≡ 0
      → (covered_sum (ip6_reply i stack rx from src at len type (2 * half)) 16 len % 65535 ≡ 0)
        × (0 < rd16 (ip6_reply i stack rx from src at len type (2 * half)) (56 + 2 * half))
  unfolding ip6_reply
  ip6_reply_verifies type half b inside z z' =
      let p = ip6_body i stack rx from src at len type in
      let h = ip6_body-IsBytes i stack rx from src at len hi hs hr hd type in
      let c = checksum_ip6_complement p 16 len h (omega arith) in
      let e =
        covered_sum-wr16 p 16 len (56 + 2 * half) (checksum_ip6 p 16 len) (16 + half) (omega arith)
          (omega arith) (ground arith) (ground arith) in
      ground arith
