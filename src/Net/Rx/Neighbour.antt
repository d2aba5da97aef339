-- ===== src/Net/Rx/Neighbour.antt =====
-- The answer to a neighbour solicitation.
use os_workshop.Base.{
  ℕ, ◌+◌, ◌-◌, ◌*◌, ◌^◌, ◌≤◌, ◌<◌, ◌≡◌, refl, ap, ◌∙◌, Bool, List, [], ◌∷◌, ◌++◌, Memory, IsBytes,
  wr16, slice, memcpy-IsBytes, arith, SameBytes, SameBytes→memeq,
}
use mathlib.Core.Path.{subst}
use os_workshop.Net.Wire.{
  Ifc, icmp_ndp_n_solicit, icmp_ndp_n_advertise, ndp_n_tgt_ll_addr, ip_hdr_icmp,
}
use os_workshop.Net.Host.{Host, Flow}
use os_workshop.Net.Tx.{net_tx_ip6_reply}
use os_workshop.Net.Layout.{reply_heads}
use os_workshop.Net.Replies.{le16, net_tx_ip6_reply_sends}
use os_workshop.Net.PacketBytes.{HoldsBytes}
use os_workshop.Net.Checksum.Complement.{Verifies}
use os_workshop.Net.Rx.{net_rx_icmp6, net_rx_eth, ndp_reply}
use os_workshop.Net.Rx.Icmp.{IsIcmp, net_rx_eth-icmp6}

-- The advertisement: solicited and override, with the interface's addresses and one option, the
-- link-layer address of the target.
abbrev pub advert_frame : Ifc → Memory → (base check : ℕ) → List ℕ
advert_frame i rx base check =
    reply_heads i rx base 32 ip_hdr_icmp
    ++ (icmp_ndp_n_advertise ∷ 0 ∷ le16 check
        ++ (0x60 ∷ 0 ∷ 0 ∷ 0 ∷ [])
        ++ slice i.ifc_ll_ip6 0 16
        ++ (ndp_n_tgt_ll_addr ∷ 1 ∷ [])
        ++ slice i.ifc_mac 0 6)

ndp_reply-IsBytes : (i : Ifc) → HoldsBytes i → IsBytes (ndp_reply i)
unfolding ndp_reply
ndp_reply-IsBytes i hi =
    memcpy-IsBytes _ 26 i.ifc_mac 0 6
      (memcpy-IsBytes _ 8 i.ifc_ll_ip6 0 16 (λ j. ground arith) hi.ll_ip6) hi.mac

ndp_reply_message :
    (i : Ifc) (check : ℕ)
    → check < 2 ^ 16
    → slice (wr16 (ndp_reply i) (0 + 2 * 1) check) 0 32
      ≡ icmp_ndp_n_advertise ∷ 0 ∷ le16 check
        ++ (0x60 ∷ 0 ∷ 0 ∷ 0 ∷ [])
        ++ slice i.ifc_ll_ip6 0 16
        ++ (ndp_n_tgt_ll_addr ∷ 1 ∷ [])
        ++ slice i.ifc_mac 0 6
unfolding ndp_reply
ndp_reply_message i check small = ground arith

module _ {W : Type 0} (h : Host W) (w : W) (base len : ℕ) (hi : HoldsBytes (h.ifc w))
    (hs : IsBytes (h.stack w)) (hr : IsBytes (h.rx w)) where
  icmp6_solicit :
      (mcast : Bool)
      → 80 ≤ len
      → h.rx w (base + 56) ≡ icmp_ndp_n_solicit
      → h.rx w (base + 57) ≡ 0
      → SameBytes (h.rx w) (base + 56 + 8) (h.ifc w).ifc_ll_ip6 0 16
      → net_rx_icmp6 h (base + 56) (len - 56) mcast w
        ≡ net_tx_ip6_reply h (base + 56) (ndp_reply (h.ifc w)) 0 32 ip_hdr_icmp 2 w
  unfolding net_rx_icmp6
  icmp6_solicit mcast whole type code target =
      let same = SameBytes→memeq (h.rx w) (h.ifc w).ifc_ll_ip6 (base + 56 + 8) 0 16 target in
      ground arith

  advert_sent :
      (check : ℕ) × (0 < check)
      × (check < 2 ^ 16)
      × (let frame = advert_frame (h.ifc w) (h.rx w) base check in
          (net_tx_ip6_reply h (base + 56) (ndp_reply (h.ifc w)) 0 32 ip_hdr_icmp 2 w
            ≡ h.eth_tx frame w)
          × Verifies frame)
  advert_sent =
      let i = h.ifc w in
      let sent =
        net_tx_ip6_reply_sends h w (base + 56) (ndp_reply i) 0 32 hi hs hr (ndp_reply-IsBytes i hi)
          ip_hdr_icmp 1 (omega arith) (omega arith) (omega arith) (unfold ndp_reply in refl)
          (unfold ndp_reply in refl) in
      let back : base + 56 - 56 ≡ base = omega arith in
      let e : reply_heads i (h.rx w) (base + 56 - 56) 32 ip_hdr_icmp
            ++ slice (wr16 (ndp_reply i) (0 + 2 * 1) sent.0) 0 32
          ≡ advert_frame i (h.rx w) base sent.0 =
        rw back (
          ap (λ message. reply_heads i (h.rx w) base 32 ip_hdr_icmp ++ message)
            (ndp_reply_message i sent.0 sent.2)) in
      (
        sent.0,
        sent.1,
        sent.2,
        (sent.3.0 ∙ ap (λ frame. h.eth_tx frame w) e, subst Verifies e sent.3.1),
      )

  -- A neighbour solicitation for this host's address is answered by one frame, an advertisement
  -- of its Ethernet address to the sender, with a checksum that verifies.
  pub net_rx_eth_neighbour :
      (d : (base len port : ℕ) → Bool → W → Flow W) (mcast : Bool)
      → IsBytes (h.ifc w).m_ifc_mac
      → IsBytes (h.ifc w).m_ns_mac
      → IsIcmp (h.ifc w) (h.rx w) base len mcast
      → 80 ≤ len
      → h.rx w (base + 56) ≡ icmp_ndp_n_solicit
      → h.rx w (base + 57) ≡ 0
      → SameBytes (h.rx w) (base + 56 + 8) (h.ifc w).ifc_ll_ip6 0 16
      → (check : ℕ) × (0 < check)
        × (check < 2 ^ 16)
        × (let frame = advert_frame (h.ifc w) (h.rx w) base check in
            (net_rx_eth h d base len w ≡ h.eth_tx frame w) × Verifies frame)
  net_rx_eth_neighbour d mcast hm hn is whole type code target =
      let sent = advert_sent in
      (
        sent.0,
        sent.1,
        sent.2,
        (
          net_rx_eth-icmp6 h d w base len hr hm hn mcast is
              ∙ icmp6_solicit mcast whole type code target
              ∙ sent.3.0,
          sent.3.1,
        ),
      )
