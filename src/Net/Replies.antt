-- ===== src/Net/Replies.antt =====
-- What `net_tx_udp_reply` and `net_tx_ip6_reply` hand to the driver.
use os_workshop.Base.{
  ℕ, ◌+◌, ◌-◌, ◌*◌, ◌/◌, ◌%◌, ◌^◌, ◌≤◌, ◌<◌, ◌≡◌, arith, ◌∙◌, List, [], ◌∷◌, ◌++◌, Memory, IsBytes,
  slice, wr16, rd16, ltb-false, ap, fun_ext,
}
use mathlib.Core.Path.{subst}
use os_workshop.Net.Wire.{Ifc}
use os_workshop.Net.Host.{Host}
use os_workshop.Net.Tx.{
  ip6_body, ip6_reply, udp_reply, max_udp_payload, max_ip6_payload, net_tx_ip6_reply,
  net_tx_udp_reply,
}
use os_workshop.Net.Checksum.{checksum_ip6}
use os_workshop.Net.Checksum.Complement.{Verifies, Verifies-slice}
use os_workshop.Net.PacketBytes.{HoldsBytes}
use os_workshop.Net.Checked.{udp_reply_verifies, ip6_reply_verifies}
use os_workshop.Net.Layout.{reply_heads, udp_datagram, udp_reply_frame, ip6_reply_frame}

-- A word as it stands in memory.
abbrev pub le16 : ℕ → List ℕ
le16 v = (v % 256) ∷ (v / 256) ∷ []

module _ (i : Ifc) (stack rx : Memory) (from : ℕ) (src : Memory) (at len : ℕ) where
  udp_check :
      (port : ℕ)
      → let p = udp_reply i stack rx from src at len port in
        (slice p 62 2 ≡ le16 (rd16 p 62)) × (rd16 p 62 < 2 ^ 16)
  unfolding udp_reply
  udp_check port = ground arith

  ip6_check :
      (type half : ℕ)
      → let p = ip6_reply i stack rx from src at len type (2 * half) in
        let c = checksum_ip6 (ip6_body i stack rx from src at len type) 16 len in
        (wr16 src (at + 2 * half) c ≡ wr16 src (at + 2 * half) (rd16 p (56 + 2 * half)))
        × (rd16 p (56 + 2 * half) < 2 ^ 16)
  unfolding ip6_reply
  ip6_check type half = (fun_ext (λ j. ground arith), ground arith)

module _ {W : Type 0} (h : Host W) (w : W) (replyto : ℕ) (src : Memory) (at len : ℕ)
    (hi : HoldsBytes (h.ifc w)) (hs : IsBytes (h.stack w)) (hr : IsBytes (h.rx w))
    (hd : IsBytes src) where
  -- A datagram of at most MAX_UDP_PAYLOAD bytes goes out as one frame, back to the sender of the
  -- packet that `replyto` belongs to, with a checksum that verifies and is not 0.
  pub net_tx_udp_reply_sends :
      (port : ℕ)
      → len ≤ max_udp_payload
      → port < 2 ^ 16
      → (check : ℕ) × (0 < check)
        × (check < 2 ^ 16)
        × (let frame =
              udp_datagram
                (reply_heads (h.ifc w) (h.rx w) (replyto - 64) (len + 8) 17)
                port
                (slice (h.rx w) (replyto - 64 + 56) 2)
                (le16 check)
                (slice src at len)
                (len + 8) in
            (net_tx_udp_reply h replyto src at len port w ≡ h.eth_tx frame w) × Verifies frame)
  unfolding net_tx_udp_reply
  net_tx_udp_reply_sends port hl hp =
      let i = h.ifc w in
      let p = udp_reply i (h.stack w) (h.rx w) (replyto - 64) src at len port in
      let ok =
        udp_reply_verifies i (h.stack w) (h.rx w) (replyto - 64) src at len hi hs hr hd port hl in
      let check = udp_check i (h.stack w) (h.rx w) (replyto - 64) src at len port in
      let e =
        udp_reply_frame i (h.stack w) (h.rx w) (replyto - 64) src at len hr port hl hp
        ∙ ap
            (λ check.
              udp_datagram (reply_heads i (h.rx w) (replyto - 64) (len + 8) 17) port
                (slice (h.rx w) (replyto - 64 + 56) 2) check (slice src at len) (len + 8))
            check.0 in
      (
        rd16 p 62,
        ok.1,
        check.1,
        (
          rw (ltb-false 1472 len hl) (ap (λ frame. h.eth_tx frame w) e),
          subst Verifies e
              (subst (λ n. Verifies (slice p 2 n)) (omega arith) (Verifies-slice p (len + 8) ok.0)),
        ),
      )

  -- A message of at most MAX_IP6_PAYLOAD bytes goes out as one frame, back to the sender of the
  -- packet that `replyto` belongs to; if the checksum field at the even place `chk_off` was 0, the
  -- message is as it was but for that field, and its checksum verifies and is not 0.
  pub net_tx_ip6_reply_sends :
      (type half : ℕ)
      → len ≤ max_ip6_payload
      → type < 256
      → 2 * half + 2 ≤ len
      → src (at + 2 * half) ≡ 0
      → src (at + 2 * half + 1) ≡ 0
      → (check : ℕ) × (0 < check)
        × (check < 2 ^ 16)
        × (let frame =
              reply_heads (h.ifc w) (h.rx w) (replyto - 56) len type
              ++ slice (wr16 src (at + 2 * half) check) at len in
            (net_tx_ip6_reply h replyto src at len type (2 * half) w ≡ h.eth_tx frame w)
            × Verifies frame)
  unfolding net_tx_ip6_reply
  net_tx_ip6_reply_sends type half hl ht inside z z' =
      let i = h.ifc w in
      let p = ip6_reply i (h.stack w) (h.rx w) (replyto - 56) src at len type (2 * half) in
      let ok =
        ip6_reply_verifies i (h.stack w) (h.rx w) (replyto - 56) src at len hi hs hr hd type half hl
          inside z z' in
      let check = ip6_check i (h.stack w) (h.rx w) (replyto - 56) src at len type half in
      let e =
        ip6_reply_frame i (h.stack w) (h.rx w) (replyto - 56) src at len hr type (2 * half) hl ht
        ∙ ap (λ m. reply_heads i (h.rx w) (replyto - 56) len type ++ slice m at len) check.0 in
      (
        rd16 p (56 + 2 * half),
        ok.1,
        check.1,
        (
          rw (ltb-false 1480 len hl) (ap (λ frame. h.eth_tx frame w) e),
          subst Verifies e (Verifies-slice p len ok.0),
        ),
      )
