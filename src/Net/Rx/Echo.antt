-- ===== src/Net/Rx/Echo.antt =====
-- The answer to an echo request.
use os_workshop.Base.{
  ℕ, ◌+◌, ◌-◌, ◌*◌, ◌^◌, ◌≤◌, ◌<◌, ◌≡◌, ap, ap₂, ◌∙◌, Bool, List, ◌∷◌, ◌++◌, Memory, IsBytes, wr8,
  wr16, slice, slice-add, slice-eq_of_SameBytes, wr8-IsBytes, wr16-IsBytes, arith,
}
use mathlib.Core.Path.{subst}
use os_workshop.Net.Wire.{Ifc, icmp_echo_request, icmp_echo_reply, ip_hdr_icmp}
use os_workshop.Net.Host.{Host, Flow}
use os_workshop.Net.Tx.{net_tx_ip6_reply}
use os_workshop.Net.Layout.{headers, reply_heads}
use os_workshop.Net.Replies.{le16, net_tx_ip6_reply_sends}
use os_workshop.Net.PacketBytes.{HoldsBytes}
use os_workshop.Net.Checksum.Complement.{Verifies}
use os_workshop.Net.Rx.{net_rx_icmp6, net_rx_eth}
use os_workshop.Net.Rx.Icmp.{IsIcmp, net_rx_eth-icmp6}

-- The request's buffer as the reply leaves it: the type is changed and the checksum is 0.
abbrev pub answered : Memory → ℕ → Memory
answered rx base = wr16 (wr8 rx (base + 56) icmp_echo_reply) (base + 56 + 2) 0

-- The reply to the request at `base`: all of it comes back but the type and the checksum.
abbrev pub echo_frame : Ifc → Memory → (base len check : ℕ) → List ℕ
echo_frame i rx base len check =
    reply_heads i rx base (len - 56) ip_hdr_icmp
    ++ (icmp_echo_reply ∷ rx (base + 57) ∷ le16 check ++ slice rx (base + 60) (len - 60))

answered-heads :
    (i : Ifc) (rx : Memory) (base len type : ℕ)
    → reply_heads i (answered rx base) base len type ≡ reply_heads i rx base len type
answered-heads i rx base len type =
    ap₂ (λ a b. headers a (slice i.ifc_mac 0 6) (slice i.ifc_ll_ip6 0 16) b len type)
      (slice-eq_of_SameBytes (answered rx base) rx (base + 8) (base + 8) 6 (λ j lt. ground arith))
      (slice-eq_of_SameBytes (answered rx base) rx (base + 24) (base + 24) 16
        (λ j lt. ground arith))

answered-front :
    (rx : Memory) (base check : ℕ)
    → check < 2 ^ 16
    → slice (wr16 (answered rx base) (base + 56 + 2 * 1) check) (base + 56) 4
      ≡ icmp_echo_reply ∷ rx (base + 57) ∷ le16 check
answered-front rx base check small = ground arith

answered-message :
    (rx : Memory) (base len check : ℕ)
    → 60 ≤ len
    → check < 2 ^ 16
    → slice (wr16 (answered rx base) (base + 56 + 2 * 1) check) (base + 56) (len - 56)
      ≡ icmp_echo_reply ∷ rx (base + 57) ∷ le16 check ++ slice rx (base + 60) (len - 60)
answered-message rx base len check whole small =
    let m = wr16 (answered rx base) (base + 56 + 2 * 1) check in
    let size : len - 56 ≡ 4 + (len - 60) = omega arith in
    rw size (
      slice-add m (base + 56) 4 (len - 60) (base + 60) (omega arith)
      ∙ ap₂ ◌++◌ (answered-front rx base check small)
          (slice-eq_of_SameBytes m rx (base + 60) (base + 60) (len - 60) (λ j lt. ground arith)))

module _ {W : Type 0} (h : Host W) (w : W) (base len : ℕ) (hi : HoldsBytes (h.ifc w))
    (hs : IsBytes (h.stack w)) (hr : IsBytes (h.rx w)) where
  icmp6_echo :
      (mcast : Bool)
      → 60 ≤ len
      → h.rx w (base + 56) ≡ icmp_echo_request
      → net_rx_icmp6 h (base + 56) (len - 56) mcast w
        ≡ net_tx_ip6_reply h
            (base + 56)
            (answered (h.rx w) base)
            (base + 56)
            (len - 56)
            ip_hdr_icmp
            2
            (h.set_rx (answered (h.rx w) base) w)
  unfolding net_rx_icmp6
  icmp6_echo mcast whole type = ground arith

  answered-IsBytes : IsBytes (answered (h.rx w) base)
  answered-IsBytes = wr16-IsBytes _ (base + 56 + 2) 0 (wr8-IsBytes (h.rx w) (base + 56) 129 hr)

  echo_sent :
      60 ≤ len
      → len ≤ 1536
      → (check : ℕ) × (0 < check)
        × (check < 2 ^ 16)
        × (let frame = echo_frame (h.ifc w) (h.rx w) base len check in
            let w' = h.set_rx (answered (h.rx w) base) w in
            (net_tx_ip6_reply h
                (base + 56)
                (answered (h.rx w) base)
                (base + 56)
                (len - 56)
                ip_hdr_icmp
                2
                w'
              ≡ h.eth_tx frame w')
            × Verifies frame)
  echo_sent whole fits =
      let m = answered (h.rx w) base in
      let w' = h.set_rx m w in
      let hm = answered-IsBytes in
      let sent =
        net_tx_ip6_reply_sends h w' (base + 56) m (base + 56) (len - 56) (rw (h.ifc-set_rx m w) hi)
          (rw (h.stack-set_rx m w) hs) (rw (h.rx-set_rx m w) hm) hm ip_hdr_icmp 1 (omega arith)
          (omega arith) (omega arith) (ground arith) (ground arith) in
      let back : base + 56 - 56 ≡ base = omega arith in
      let e : reply_heads (h.ifc w') (h.rx w') (base + 56 - 56) (len - 56) ip_hdr_icmp
            ++ slice (wr16 m (base + 56 + 2 * 1) sent.0) (base + 56) (len - 56)
          ≡ echo_frame (h.ifc w) (h.rx w) base len sent.0 =
        rw (h.ifc-set_rx m w, h.rx-set_rx m w, back)
          (ap₂ ◌++◌ (answered-heads (h.ifc w) (h.rx w) base (len - 56) ip_hdr_icmp)
            (answered-message (h.rx w) base len sent.0 whole sent.2)) in
      (
        sent.0,
        sent.1,
        sent.2,
        (sent.3.0 ∙ ap (λ frame. h.eth_tx frame w') e, subst Verifies e sent.3.1),
      )

  -- An echo request for this host, of at most 1536 bytes, is answered by one frame: it goes back to
  -- the sender and repeats the message with the type of a reply and a checksum that verifies.
  pub net_rx_eth_echo :
      (d : (base len port : ℕ) → Bool → W → Flow W) (mcast : Bool)
      → IsBytes (h.ifc w).m_ifc_mac
      → IsBytes (h.ifc w).m_ns_mac
      → IsIcmp (h.ifc w) (h.rx w) base len mcast
      → h.rx w (base + 56) ≡ icmp_echo_request
      → (check : ℕ) × (0 < check)
        × (check < 2 ^ 16)
        × (let frame = echo_frame (h.ifc w) (h.rx w) base len check in
            (net_rx_eth h d base len w ≡ h.eth_tx frame (h.set_rx (answered (h.rx w) base) w))
            × Verifies frame)
  net_rx_eth_echo d mcast hm hn is type =
      let sent = echo_sent is.whole is.fits in
      (
        sent.0,
        sent.1,
        sent.2,
        (
          net_rx_eth-icmp6 h d w base len hr hm hn mcast is
              ∙ icmp6_echo mcast is.whole type
              ∙ sent.3.0,
          sent.3.1,
        ),
      )
