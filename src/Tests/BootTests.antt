-- ===== src/Tests/BootTests.antt =====
-- The bootloader at the packets.
use os_workshop.Base.{
  ℕ, ◌+◌, ◌≤◌, ◌<◌, ◌≡◌, refl, false, [], ◌∷◌, of_list, slice, IsBytes, of_list-IsBytes, arith,
  memcpy, ◌⊎◌,
}
use os_workshop.Net.Host.{returns, leaves}
use os_workshop.Net.Rx.Invariant.{After}
use os_workshop.Boot.Message.{nb_cmd_status, nb_ok, nb_err_badcmd, nb_port_ctrl, set_cmd_arg}
use os_workshop.Boot.Board.{
  Board, emit, putc, eth_wr, rd_start, rd_len, rd_slot, execution_starts, write_mstatus, eth_tx,
}
use os_workshop.Boot.Board.Driver.{IsValid}
use os_workshop.Boot.Board.Transmit.{eth_tx_sends}
use os_workshop.Boot.Netboot.{◌>>=◌, pkt_rx_udp, mstatus_mpp_s, eth_rx, Poll, poll_loop}
use os_workshop.Boot.Netboot.Reply.{BoardBytes}
use os_workshop.Boot.Netboot.Commands.{
  Answers, pkt_rx_udp_write, pkt_rx_udp_exec, pkt_rx_udp_unknown,
}
use os_workshop.Boot.Netboot.Loop.{OneWindow, eth_rx_window, poll_loop-IsValid}
use os_workshop.Boot.LineEditor.{console_chars}
use os_workshop.Boot.LineEditor.Edit.{type_chars, Shows, console_chars_lem}
use os_workshop.Boot.Number.{atox}
use os_workshop.Tests.Packets.{
  write_packet, exec_packet, odd_packet, board, boot_ifc-HoldsBytes, stale-IsBytes,
  m_ifc_mac-IsBytes, m_ns_mac-IsBytes,
}

write_board : BoardBytes (board write_packet)
write_board = record {
  ifc_bytes = boot_ifc-HoldsBytes;
  stack_bytes = stale-IsBytes;
  rx_bytes = of_list-IsBytes write_packet (omega arith);
}

exec_board : BoardBytes (board exec_packet)
exec_board = record {
  ifc_bytes = boot_ifc-HoldsBytes;
  stack_bytes = stale-IsBytes;
  rx_bytes = of_list-IsBytes exec_packet (omega arith);
}

odd_board : BoardBytes (board odd_packet)
odd_board = record {
  ifc_bytes = boot_ifc-HoldsBytes;
  stack_bytes = stale-IsBytes;
  rx_bytes = of_list-IsBytes odd_packet (omega arith);
}

pkt_rx_udp_write_example :
    Answers
      (board write_packet)
      64
      nb_ok
      (λ flow. flow)
      (record (board write_packet) {
        rxbuf = set_cmd_arg (of_list write_packet) 64 nb_cmd_status nb_ok;
        ram = memcpy (λ _. 0) 0x40008000 (of_list write_packet) 80 4;
        events = putc b'.' ∷ [];
      })
      (pkt_rx_udp 64 20 nb_port_ctrl false (board write_packet))
pkt_rx_udp_write_example = pkt_rx_udp_write (board write_packet) 64 20 false write_board (record {
  behind = omega arith;
  long = omega arith;
  short = omega arith;
  magic = refl;
  command = refl;
})

pkt_rx_udp_exec_example :
    Answers
      (board exec_packet)
      64
      nb_ok
      (λ flow. flow >>= λ b'.
        leaves 0x40008000
          (emit (execution_starts 0x40008000) (emit (write_mstatus mstatus_mpp_s) b')))
      (record (board exec_packet) {
        rxbuf = set_cmd_arg (of_list exec_packet) 64 nb_cmd_status nb_ok;
        events = putc b'!' ∷ [];
      })
      (pkt_rx_udp 64 20 nb_port_ctrl false (board exec_packet))
pkt_rx_udp_exec_example = pkt_rx_udp_exec (board exec_packet) 64 20 false exec_board (record {
  behind = omega arith;
  long = omega arith;
  short = omega arith;
  magic = refl;
  command = refl;
})

pkt_rx_udp_unknown_example :
    Answers
      (board odd_packet)
      64
      nb_err_badcmd
      (λ flow. flow)
      (record (board odd_packet) {
        rxbuf = set_cmd_arg (of_list odd_packet) 64 nb_cmd_status nb_err_badcmd;
        events = putc b'E' ∷ [];
      })
      (pkt_rx_udp 64 20 nb_port_ctrl false (board odd_packet))
pkt_rx_udp_unknown_example =
    pkt_rx_udp_unknown (board odd_packet) 64 20 false odd_board 1 (omega arith) (omega arith)
      (omega arith)
      (record {
        behind = omega arith;
        long = omega arith;
        short = omega arith;
        magic = refl;
        command = refl;
      })

eth_tx_sends_example :
    (b' : Board) × (eth_tx (1 ∷ 2 ∷ 3 ∷ []) (board []) ≡ returns b')
    × (slice b'.sram 0x1000 3 ≡ 1 ∷ 2 ∷ 3 ∷ [])
    × ((a : ℕ) → (a < 0x1000) ⊎ (0x1003 ≤ a) → b'.sram a ≡ 0)
    × (b'.events ≡ eth_wr rd_start 1 ∷ eth_wr rd_len 3 ∷ eth_wr rd_slot 0 ∷ [])
    × (b'.txslot + 0 ≡ 1)
    × (b'.ram ≡ (λ _. 0))
eth_tx_sends_example =
    eth_tx_sends (1 ∷ 2 ∷ 3 ∷ []) (0 ∷ []) [] (board []) (omega arith) (omega arith) (omega arith)
      refl

-- The frame as it lies in the Ethernet memory, without the padding.
abbrev received : Board
received = record (board []) { sram = λ a. of_list write_packet (a + 2) }

received-IsBytes : IsBytes (λ a. of_list write_packet (a + 2))
received-IsBytes a = write_board.rx_bytes (a + 2)

eth_rx_window_example : After (OneWindow (λ _. 0)) (eth_rx 0 82 received)
eth_rx_window_example = eth_rx_window 0 82 received received-IsBytes

start-IsValid : IsValid (board [])
start-IsValid = record {
  ifc_bytes = boot_ifc-HoldsBytes;
  mac_bytes = m_ifc_mac-IsBytes;
  ns_bytes = m_ns_mac-IsBytes;
  stack_bytes = stale-IsBytes;
  rx_bytes = of_list-IsBytes [] tt;
  pad_first = refl;
  pad_second = refl;
  slot = omega arith;
}

abbrev one_poll : Poll
one_poll = record { pending = 1; slot = 0; len = 82; sram = λ a. of_list write_packet (a + 2) }

poll_loop-IsValid_example : After IsValid (poll_loop (one_poll ∷ []) (board []))
poll_loop-IsValid_example =
    poll_loop-IsValid (one_poll ∷ []) (board []) (received-IsBytes, tt) start-IsValid

-- "dx", the last character taken back, "w", and the enter key.
console_chars_example :
    Shows
      (console_chars
        (λ m. m)
        (record { cmdbuf = of_list []; cmdlen = 0; log = [] })
        (b'd' ∷ b'x' ∷ 8 ∷ b'w' ∷ 13 ∷ []))
      (type_chars (record { chars = []; log = [] }) (b'd' ∷ b'x' ∷ 8 ∷ b'w' ∷ 13 ∷ []))
console_chars_example =
    console_chars_lem (λ m. m) (record { cmdbuf = of_list []; cmdlen = 0; log = [] })
      (record { chars = []; log = [] }) (b'd' ∷ b'x' ∷ 8 ∷ b'w' ∷ 13 ∷ [])
      (record { size = refl; fits = omega arith; holds = tt; same_log = refl })

-- "4000fX"
atox_run : atox (b'4' ∷ b'0' ∷ b'0' ∷ b'0' ∷ b'f' ∷ b'X' ∷ []) ≡ 0x4000f
unfolding atox
atox_run = refl
