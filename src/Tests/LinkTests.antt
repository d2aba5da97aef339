-- ===== src/Tests/LinkTests.antt =====
-- An upload whose answers come late or get lost.
use os_workshop.Base.{
  ◌≡◌, true, false, Memory, of_list, of_list-IsBytes, arith, refl, List, [], ◌∷◌,
}
use os_workshop.Net.Tx.{net_tx_udp_reply, udp_reply}
use os_workshop.Boot.Board.{Board, eth_tx}
use os_workshop.Boot.Netboot.{pkt_rx_udp}
use os_workshop.Tools.Sender.{Sender, send_file}
use os_workshop.Tools.Upload.{Image, executed, attempt, send_image}
use os_workshop.Tools.Link.{listens, runs, Fate, Link, link, handle}
use os_workshop.Tools.Link.Started.{AllLoaded, attempt-AllLoaded}
use os_workshop.Tests.Packets.{write_packet, board, boot_ifc-HoldsBytes, stale-IsBytes}

abbrev heads : Memory
heads = of_list write_packet

abbrev target : Board
target = record (board []) { ready = 1 ∷ 1 ∷ 1 ∷ 0 ∷ 1 ∷ [] }

-- The first answer is late, the third message is lost.
abbrev fates : List Fate
fates =
    record { arrives = true; comes_back = true; in_time = false }
    ∷ record { arrives = true; comes_back = true; in_time = true }
    ∷ record { arrives = false; comes_back = true; in_time = true }
    ∷ record { arrives = true; comes_back = true; in_time = true }
    ∷ record { arrives = true; comes_back = true; in_time = true }
    ∷ []

abbrev host : Sender Link
host = record {
  seq = 1;
  msg = λ _. 0;
  net = record { target = listens target; under_way = []; fates = fates };
  log = [];
}

abbrev kernel : Image
kernel = record {
  addr = 0x40008000;
  opens = true;
  chunks = (1 ∷ 2 ∷ 3 ∷ 4 ∷ []) ∷ [];
  read_fails = false;
}

booted :
    (st' : Sender Link) × (attempt (link heads) kernel [] (λ _. 0xaa) (λ _. 0) host
      ≡ executed true st')
unfolding attempt send_image send_file link handle pkt_rx_udp net_tx_udp_reply udp_reply eth_tx
booted = (_, refl)

attempt-AllLoaded_example :
    (b' : Board) × (booted.0.net.target ≡ runs 0x40008000 b')
    × AllLoaded (kernel ∷ []) (λ _. 0) b'.ram
attempt-AllLoaded_example =
    attempt-AllLoaded heads (of_list-IsBytes write_packet (omega arith)) kernel [] (λ _. 0xaa)
      (λ _. 0) host booted.0 target
      (record {
        target = refl;
        bytes = record {
          ifc_bytes = boot_ifc-HoldsBytes;
          stack_bytes = stale-IsBytes;
          rx_bytes = of_list-IsBytes [] tt;
        };
        earlier = tt;
      })
      (omega arith) (omega arith) booted.1
