-- ===== src/Net/Addresses.antt =====
-- The addresses that `net_init` derives from an Ethernet address.
use os_workshop.Base.{
  ℕ, zero, suc, ◌%◌, ◌<◌, ◌≡◌, ◌==◌, refl, Bool, true, ◌&&◌, [], ◌∷◌, Memory, IsBytes, slice, arith,
  bit_xor,
}
use os_workshop.Net.Wire.{Ifc, net_init}

-- Whether flipping the universal bit twice gives each byte below `n` back.
flips_back : ℕ → Bool
flips_back zero = true
flips_back (suc n) = (bit_xor (bit_xor n 2 % 256) 2 == n) && flips_back n

flips_back-lt : (n x : ℕ) → flips_back n ≡ true → x < n → bit_xor (bit_xor x 2 % 256) 2 ≡ x
unfolding flips_back
flips_back-lt zero x all inside = absurd (omega arith)
flips_back-lt (suc n) x all inside = ground (arith, flips_back-lt n x)

flip_twice : (x : ℕ) → x < 256 → bit_xor (bit_xor x 2 % 256) 2 ≡ x
flip_twice x = flips_back-lt 256 x (unfold flips_back in refl)

module _ (mac : Memory) (i : Ifc) (hm : IsBytes mac) where
  -- The link local address is the modified EUI-64 of RFC 4291 and tells the Ethernet address; the
  -- solicited-node group and its Ethernet address hold the last three bytes; what was in the
  -- variables before plays no part, but for the padding of the two patterns.
  net_init_addresses :
      let n = net_init mac i in
      (slice n.ifc_ll_ip6 0 8 ≡ 0xfe ∷ 0x80 ∷ 0 ∷ 0 ∷ 0 ∷ 0 ∷ 0 ∷ 0 ∷ [])
      × (slice n.ifc_ll_ip6 11 2 ≡ 0xff ∷ 0xfe ∷ [])
      × (bit_xor (n.ifc_ll_ip6 8) 2 ∷ n.ifc_ll_ip6 9 ∷ n.ifc_ll_ip6 10 ∷ slice n.ifc_ll_ip6 13 3
          ≡ slice mac 0 6)
      × (slice n.mcast_ns_ip6 0 16
          ≡ 0xff ∷ 0x02 ∷ 0 ∷ 0 ∷ 0 ∷ 0 ∷ 0 ∷ 0 ∷ 0 ∷ 0 ∷ 0 ∷ 0x01 ∷ 0xff ∷ slice mac 3 3)
      × (slice n.m_ns_mac 0 8 ≡ i.m_ns_mac 0 ∷ i.m_ns_mac 1 ∷ 0x33 ∷ 0x33 ∷ 0xff ∷ slice mac 3 3)
      × (slice n.m_ifc_mac 0 8 ≡ i.m_ifc_mac 0 ∷ i.m_ifc_mac 1 ∷ slice mac 0 6)
      × (slice n.ifc_mac 0 6 ≡ slice mac 0 6)
  unfolding net_init
  net_init_addresses =
      let h0 = hm 0 in
      let h1 = hm 1 in
      let h2 = hm 2 in
      let h3 = hm 3 in
      let h4 = hm 4 in
      let h5 = hm 5 in
      (refl, refl, ground (arith, flip_twice (mac 0) h0), ground arith, ground arith, refl, refl)
