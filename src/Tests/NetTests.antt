-- ===== src/Tests/NetTests.antt =====
-- Net at the packets.
use os_workshop.Base.{
  ℕ, ◌+◌, ◌^◌, ◌%◌, ◌<◌, ◌≡◌, refl, Bool, false, List, [], ◌∷◌, Memory, of_list, slice, IsBytes,
  of_list-IsBytes, arith, memeq, if◌then◌else◌, ltb, SameBytes, memeq→SameBytes,
}
use os_workshop.Net.Wire.{boot_ifc, net_init}
use os_workshop.Net.Host.{Flow, returns, waits}
use os_workshop.Net.Tx.{net_tx_udp_reply}
use os_workshop.Net.Layout.{reply_heads, udp_datagram}
use os_workshop.Net.Checksum.{checksum_ip6}
use os_workshop.Net.Checksum.Complement.{Verifies, covered_sum, checksum_ip6_complement}
use os_workshop.Net.Replies.{le16, net_tx_udp_reply_sends}
use os_workshop.Net.Rx.{net_rx_eth}
use os_workshop.Net.Rx.Delivery.{datagram, destination, net_rx_eth_delivers, net_rx_eth_withholds}
use os_workshop.Net.Rx.Dispatch.{AgreeWithin, net_rx_eth_within}
use os_workshop.Net.Rx.Icmp.{IsIcmp}
use os_workshop.Net.Rx.Echo.{echo_frame, answered, net_rx_eth_echo}
use os_workshop.Net.Rx.Neighbour.{advert_frame, net_rx_eth_neighbour}
use os_workshop.Boot.Board.{Board, boot_host, eth_tx}
use os_workshop.Tests.Packets.{
  write_packet, echo_packet, solicit_packet, board, boot_ifc-HoldsBytes, stale-IsBytes,
  m_ifc_mac-IsBytes, m_ns_mac-IsBytes,
}

write-IsBytes : IsBytes (of_list write_packet)
write-IsBytes = of_list-IsBytes write_packet (omega arith)

echo-IsBytes : IsBytes (of_list echo_packet)
echo-IsBytes = of_list-IsBytes echo_packet (omega arith)

solicit-IsBytes : IsBytes (of_list solicit_packet)
solicit-IsBytes = of_list-IsBytes solicit_packet (omega arith)

abbrev drop_all : (base len port : ℕ) → Bool → Board → Flow Board
drop_all base len port mcast b = returns b

net_tx_udp_reply_sends_example :
    (check : ℕ) × (0 < check)
    × (check < 2 ^ 16)
    × (let frame =
          udp_datagram
            (reply_heads boot_ifc (of_list write_packet) 0 11 17)
            9
            (16 ∷ 0 ∷ [])
            (le16 check)
            (1 ∷ 2 ∷ 3 ∷ [])
            11 in
        (net_tx_udp_reply boot_host 64 (of_list write_packet) 80 3 9 (board write_packet)
          ≡ eth_tx frame (board write_packet))
        × Verifies frame)
net_tx_udp_reply_sends_example =
    net_tx_udp_reply_sends boot_host (board write_packet) 64 (of_list write_packet) 80 3
      boot_ifc-HoldsBytes stale-IsBytes write-IsBytes write-IsBytes 9 (omega arith) (omega arith)

checksum_ip6_complement_example :
    ((covered_sum (of_list echo_packet) 16 12 + checksum_ip6 (of_list echo_packet) 16 12 % 2 ^ 16)
        % 65535
      ≡ 0)
    × (0 < checksum_ip6 (of_list echo_packet) 16 12 % 2 ^ 16)
checksum_ip6_complement_example =
    checksum_ip6_complement (of_list echo_packet) 16 12 echo-IsBytes (omega arith)

net_rx_eth_delivers_example :
    net_rx_eth boot_host drop_all 0 84 (board write_packet) ≡ returns (board write_packet)
unfolding datagram memeq
net_rx_eth_delivers_example =
    net_rx_eth_delivers boot_host drop_all (board write_packet) 0 84 (omega arith) write-IsBytes
      m_ifc_mac-IsBytes m_ns_mac-IsBytes false refl

-- A datagram for another port of Ethernet: the type is changed to 0x0800.
abbrev ip4_packet : List ℕ
ip4_packet =
    0 ∷ 0 ∷ 0x72 ∷ 0x72 ∷ 0xaa ∷ 0xbb ∷ 0xcc ∷ 0xdd ∷ 2 ∷ 0 ∷ 0 ∷ 0 ∷ 0 ∷ 9 ∷ 0x08 ∷ 0x00 ∷ []

ip4-IsBytes : IsBytes (of_list ip4_packet)
ip4-IsBytes = of_list-IsBytes ip4_packet (omega arith)

abbrev loop_all : (base len port : ℕ) → Bool → Board → Flow Board
loop_all base len port mcast b = waits

net_rx_eth_withholds_example :
    net_rx_eth boot_host drop_all 0 84 (board ip4_packet)
    ≡ net_rx_eth boot_host loop_all 0 84 (board ip4_packet)
unfolding datagram memeq
net_rx_eth_withholds_example =
    net_rx_eth_withholds boot_host drop_all (board ip4_packet) 0 84 (omega arith) ip4-IsBytes
      m_ifc_mac-IsBytes m_ns_mac-IsBytes loop_all refl

-- It hangs on a payload that would reach beyond the 84 bytes.
abbrev hang_beyond : (base len port : ℕ) → Bool → Board → Flow Board
hang_beyond base len port mcast b = if ltb 84 (base + len) then waits else returns b

hang_beyond-agrees : AgreeWithin drop_all hang_beyond (board write_packet) 64 84
hang_beyond-agrees at n port mcast lo hi small = ground arith

net_rx_eth_within_example :
    net_rx_eth boot_host drop_all 0 84 (board write_packet)
    ≡ net_rx_eth boot_host hang_beyond 0 84 (board write_packet)
net_rx_eth_within_example =
    net_rx_eth_within boot_host drop_all hang_beyond (board write_packet) 0 84 (omega arith)
      hang_beyond-agrees

echo_is : IsIcmp boot_ifc (of_list echo_packet) 0 68 false
unfolding destination memeq
echo_is = record {
  whole = omega arith;
  fits = omega arith;
  type_hi = refl;
  type_lo = refl;
  for_us = refl;
  next = refl;
}

net_rx_eth_echo_example :
    (check : ℕ) × (0 < check)
    × (check < 2 ^ 16)
    × (let frame = echo_frame boot_ifc (of_list echo_packet) 0 68 check in
        (net_rx_eth boot_host drop_all 0 68 (board echo_packet)
          ≡ eth_tx frame (record (board echo_packet) { rxbuf = answered (of_list echo_packet) 0 }))
        × Verifies frame)
net_rx_eth_echo_example =
    net_rx_eth_echo boot_host (board echo_packet) 0 68 boot_ifc-HoldsBytes stale-IsBytes
      echo-IsBytes drop_all false m_ifc_mac-IsBytes m_ns_mac-IsBytes echo_is refl

solicit_is : IsIcmp boot_ifc (of_list solicit_packet) 0 80 false
unfolding destination memeq
solicit_is = record {
  whole = omega arith;
  fits = omega arith;
  type_hi = refl;
  type_lo = refl;
  for_us = refl;
  next = refl;
}

own_target : SameBytes (of_list solicit_packet) 64 boot_ifc.ifc_ll_ip6 0 16
unfolding memeq
own_target = memeq→SameBytes (of_list solicit_packet) boot_ifc.ifc_ll_ip6 64 0 16 refl

net_rx_eth_neighbour_example :
    (check : ℕ) × (0 < check)
    × (check < 2 ^ 16)
    × (let frame = advert_frame boot_ifc (of_list solicit_packet) 0 check in
        (net_rx_eth boot_host drop_all 0 80 (board solicit_packet)
          ≡ eth_tx frame (board solicit_packet))
        × Verifies frame)
net_rx_eth_neighbour_example =
    net_rx_eth_neighbour boot_host (board solicit_packet) 0 80 boot_ifc-HoldsBytes stale-IsBytes
      solicit-IsBytes drop_all false m_ifc_mac-IsBytes m_ns_mac-IsBytes solicit_is (omega arith)
      refl refl own_target

abbrev own_mac : Memory
own_mac = of_list (0x72 ∷ 0x72 ∷ 0xaa ∷ 0xbb ∷ 0xcc ∷ 0xdd ∷ [])

-- The initial values of the statics are what `net_init` makes of their Ethernet address.
initial_values :
    let n = net_init own_mac boot_ifc in
    (slice n.ifc_ll_ip6 0 16 ≡ slice boot_ifc.ifc_ll_ip6 0 16)
    × (slice n.mcast_ns_ip6 0 16 ≡ slice boot_ifc.mcast_ns_ip6 0 16)
    × (slice n.m_ns_mac 0 8 ≡ slice boot_ifc.m_ns_mac 0 8)
unfolding net_init
initial_values = (refl, refl, refl)
