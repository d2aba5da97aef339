-- ===== src/Net/Layout.antt =====
-- What stands where in the frames that net/ipv6.c sends, as lists of bytes.
use os_workshop.Base.{
  ℕ, ◌+◌, ◌/◌, ◌%◌, ◌^◌, ◌≤◌, ◌<◌, ◌≡◌, refl, arith, IsBytes, ◌∙◌, List, [], ◌∷◌, ◌++◌, Memory,
  slice, slice-add, slice-eq_of_SameBytes, ap, ap₂, wr16,
}
use os_workshop.Net.Wire.{Ifc, ip_hdr_udp, udp_hdr_len}
use os_workshop.Net.Tx.{
  reply_headers, ip6_body, ip6_reply, udp_reply, max_udp_payload, max_ip6_payload,
}
use os_workshop.Net.Checksum.{checksum_ip6}

-- A number below 2 ^ 16 in network order.
abbrev pub be16 : ℕ → List ℕ
be16 v = (v / 256) ∷ (v % 256) ∷ []

-- An Ethernet and an IPv6 header: no traffic class, no flow label, hop limit 255.
unfoldable pub headers : (to_mac own_mac own_ip to_ip : List ℕ) (len type : ℕ) → List ℕ
headers to_mac own_mac own_ip to_ip len type =
    to_mac
    ++ own_mac
    ++ (0x86 ∷ 0xdd ∷ 0x60 ∷ 0 ∷ 0 ∷ 0 ∷ [])
    ++ be16 len
    ++ (type ∷ 255 ∷ [])
    ++ own_ip
    ++ to_ip

-- Those of a reply to the packet that starts at `from` of `rx`.
abbrev pub reply_heads : Ifc → Memory → (from len type : ℕ) → List ℕ
reply_heads i rx from len type =
    headers (slice rx (from + 8) 6) (slice i.ifc_mac 0 6) (slice i.ifc_ll_ip6 0 16)
      (slice rx (from + 24) 16) len type

-- A UDP datagram from `port` to the half word `to_port`, with its checksum and its payload.
unfoldable pub udp_datagram :
    (heads : List ℕ) (port : ℕ) (to_port check payload : List ℕ) → (len : ℕ) → List ℕ
udp_datagram heads port to_port check payload len =
    heads ++ be16 port ++ to_port ++ be16 len ++ check ++ payload

module _ (i : Ifc) (stack rx : Memory) (from : ℕ) (src : Memory) (at len : ℕ)
    (hr : IsBytes rx) where
  udp_front :
      (port : ℕ)
      → len ≤ max_udp_payload
      → port < 2 ^ 16
      → slice (udp_reply i stack rx from src at len port) 2 60
        ≡ reply_heads i rx from (len + udp_hdr_len) ip_hdr_udp
          ++ be16 port
          ++ slice rx (from + 56) 2
          ++ be16 (len + udp_hdr_len)
  unfolding udp_reply reply_headers headers
  udp_front port hl hp = ground (arith, hr (from + 56), hr (from + 57))

  ip6_body_front :
      (type : ℕ)
      → len ≤ max_ip6_payload
      → type < 256
      → slice (ip6_body i stack rx from src at len type) 2 54 ≡ reply_heads i rx from len type
  unfolding ip6_body reply_headers headers
  ip6_body_front type hl ht = ground arith

  ip6_front :
      (type chk_off : ℕ)
      → slice (ip6_reply i stack rx from src at len type chk_off) 2 54
        ≡ slice (ip6_body i stack rx from src at len type) 2 54
  unfolding ip6_reply
  ip6_front type chk_off =
      slice-eq_of_SameBytes (ip6_reply i stack rx from src at len type chk_off)
        (ip6_body i stack rx from src at len type) 2 2 54 (λ j lt. ground arith)

  udp_payload :
      (port : ℕ) → slice (udp_reply i stack rx from src at len port) 64 len ≡ slice src at len
  unfolding udp_reply
  udp_payload port =
      slice-eq_of_SameBytes (udp_reply i stack rx from src at len port) src 64 at len
        (λ j lt. ground arith)

  -- The whole frame of a UDP reply.
  pub udp_reply_frame :
      (port : ℕ)
      → len ≤ max_udp_payload
      → port < 2 ^ 16
      → slice (udp_reply i stack rx from src at len port) 2 (62 + len)
        ≡ udp_datagram
            (reply_heads i rx from (len + udp_hdr_len) ip_hdr_udp)
            port
            (slice rx (from + 56) 2)
            (slice (udp_reply i stack rx from src at len port) 62 2)
            (slice src at len)
            (len + udp_hdr_len)
  unfolding udp_datagram
  udp_reply_frame port hl hp =
      let p = udp_reply i stack rx from src at len port in
      slice-add p 2 62 len 64 refl
      ∙ ap₂ ◌++◌ (slice-add p 2 60 2 62 refl ∙ ap (λ xs. xs ++ slice p 62 2) (udp_front port hl hp))
          (udp_payload port)

  -- The frame of an ICMPv6 reply: the message comes as it is, but for its checksum.
  pub ip6_reply_frame :
      (type chk_off : ℕ)
      → len ≤ max_ip6_payload
      → type < 256
      → let c = checksum_ip6 (ip6_body i stack rx from src at len type) 16 len in
        slice (ip6_reply i stack rx from src at len type chk_off) 2 (54 + len)
        ≡ reply_heads i rx from len type ++ slice (wr16 src (at + chk_off) c) at len
  unfolding ip6_reply
  ip6_reply_frame type chk_off hl ht =
      let p = ip6_reply i stack rx from src at len type chk_off in
      let c = checksum_ip6 (ip6_body i stack rx from src at len type) 16 len in
      slice-add p 2 54 len 56 refl
      ∙ ap₂ ◌++◌ (ip6_front type chk_off ∙ ip6_body_front type hl ht)
          (slice-eq_of_SameBytes p (wr16 src (at + chk_off) c) 56 at len (λ j lt. ground arith))
