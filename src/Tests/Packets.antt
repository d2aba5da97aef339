-- ===== src/Tests/Packets.antt =====
-- Received packets for the interface's initial addresses.
use os_workshop.Base.{ℕ, List, [], ◌∷◌, ◌++◌, of_list, IsBytes, of_list-IsBytes, arith}
use os_workshop.Net.Wire.{boot_ifc}
use os_workshop.Net.PacketBytes.{HoldsBytes}
use os_workshop.Boot.Board.{Board}

-- Up to the IPv6 length: padding, own and sender's Ethernet addresses, type, version.
abbrev pub ethernet : List ℕ
ethernet =
    0 ∷ 0 ∷ 0x72 ∷ 0x72 ∷ 0xaa ∷ 0xbb ∷ 0xcc ∷ 0xdd ∷ 2 ∷ 0 ∷ 0 ∷ 0 ∷ 0 ∷ 9 ∷ 0x86 ∷ 0xdd ∷ 0x60 ∷ 0
    ∷ 0 ∷ 0 ∷ []

-- The sender's and the own link local address.
abbrev pub addresses : List ℕ
addresses =
    0xfe ∷ 0x80 ∷ 0 ∷ 0 ∷ 0 ∷ 0 ∷ 0 ∷ 0 ∷ 0 ∷ 0 ∷ 0 ∷ 0xff ∷ 0xfe ∷ 0 ∷ 0 ∷ 9 ∷ 0xfe ∷ 0x80 ∷ 0 ∷ 0
    ∷ 0 ∷ 0 ∷ 0 ∷ 0 ∷ 0x70 ∷ 0x72 ∷ 0xaa ∷ 0xff ∷ 0xfe ∷ 0xbb ∷ 0xcc ∷ 0xdd ∷ []

-- A datagram of 20 bytes from port 4096 to the control port.
abbrev pub udp_heads : List ℕ
udp_heads =
    ethernet ++ (0 ∷ 28 ∷ 17 ∷ 255 ∷ addresses) ++ (16 ∷ 0 ∷ 0xe4 ∷ 0xcc ∷ 0 ∷ 28 ∷ 1 ∷ 2 ∷ [])

-- A message with sequence number 7, the address 0x40008000 and four bytes of data.
abbrev pub message : List ℕ → List ℕ
message cmd =
    (0x11 ∷ 0xae ∷ 0x5d ∷ 0x1e ∷ [])
    ++ cmd
    ++ (7 ∷ 0 ∷ 0 ∷ 0 ∷ 0 ∷ 0x80 ∷ 0 ∷ 0x40 ∷ 1 ∷ 2 ∷ 3 ∷ 4 ∷ [])

abbrev pub write_packet : List ℕ
write_packet = udp_heads ++ message (0x21 ∷ 0x96 ∷ 0x63 ∷ 0x7b ∷ [])

abbrev pub exec_packet : List ℕ
exec_packet = udp_heads ++ message (0x44 ∷ 0xa8 ∷ 0xb9 ∷ 0xbd ∷ [])

abbrev pub odd_packet : List ℕ
odd_packet = udp_heads ++ message (1 ∷ 0 ∷ 0 ∷ 0 ∷ [])

abbrev pub echo_packet : List ℕ
echo_packet =
    ethernet
    ++ (0 ∷ 12 ∷ 58 ∷ 255 ∷ addresses)
    ++ (128 ∷ 0 ∷ 5 ∷ 6 ∷ 0 ∷ 1 ∷ 0 ∷ 2 ∷ 0x61 ∷ 0x62 ∷ 0x63 ∷ 0x64 ∷ [])

abbrev pub solicit_packet : List ℕ
solicit_packet =
    ethernet
    ++ (0 ∷ 24 ∷ 58 ∷ 255 ∷ addresses)
    ++ (135 ∷ 0 ∷ 5 ∷ 6 ∷ 0 ∷ 0 ∷ 0 ∷ 0 ∷ 0xfe ∷ 0x80 ∷ 0 ∷ 0 ∷ 0 ∷ 0 ∷ 0 ∷ 0 ∷ 0x70 ∷ 0x72 ∷ 0xaa
        ∷ 0xff ∷ 0xfe ∷ 0xbb ∷ 0xcc ∷ 0xdd ∷ [])

abbrev pub board : List ℕ → Board
board packet = record {
  ifc = boot_ifc;
  rxbuf = of_list packet;
  stack = λ _. 0xaa;
  ram = λ _. 0;
  sram = λ _. 0;
  txslot = 0;
  ready = 0 ∷ 1 ∷ [];
  events = [];
}

pub boot_ifc-HoldsBytes : HoldsBytes boot_ifc
boot_ifc-HoldsBytes = record {
  mac = of_list-IsBytes (0x72 ∷ 0x72 ∷ 0xaa ∷ 0xbb ∷ 0xcc ∷ 0xdd ∷ []) (omega arith);
  ll_ip6 =
      of_list-IsBytes
        (0xfe ∷ 0x80 ∷ 0 ∷ 0 ∷ 0 ∷ 0 ∷ 0 ∷ 0 ∷ 0x70 ∷ 0x72 ∷ 0xaa ∷ 0xff ∷ 0xfe ∷ 0xbb ∷ 0xcc ∷ 0xdd
          ∷ [])
        (omega arith);
}

pub stale-IsBytes : IsBytes (λ _. 0xaa)
stale-IsBytes j = omega arith

pub m_ifc_mac-IsBytes : IsBytes boot_ifc.m_ifc_mac
m_ifc_mac-IsBytes =
    of_list-IsBytes (0 ∷ 0 ∷ 0x72 ∷ 0x72 ∷ 0xaa ∷ 0xbb ∷ 0xcc ∷ 0xdd ∷ []) (omega arith)

pub m_ns_mac-IsBytes : IsBytes boot_ifc.m_ns_mac
m_ns_mac-IsBytes =
    of_list-IsBytes (0 ∷ 0 ∷ 0x33 ∷ 0x33 ∷ 0xff ∷ 0xbb ∷ 0xcc ∷ 0xdd ∷ []) (omega arith)
