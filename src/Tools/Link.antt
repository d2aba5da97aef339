-- ===== src/Tools/Link.antt =====
-- The way between `send_msg` of tools/netboot.c and `pkt_rx_udp` of boot/netboot.c. The network may lose
-- a message or its answer and may bring an answer too late, so that a later `read` finds it first.
pub mod Handled
pub mod Answered
pub mod Tries
pub mod Overlay
pub mod Loaded
pub mod Started
use os_workshop.Base.{
  ℕ, ◌+◌, ◌*◌, if◌then◌else◌, Bool, true, false, List, [], ◌∷◌, ◌++◌, Memory, of_list, memcpy,
  slice, length, map, drop,
}
use os_workshop.Net.Host.{Flow, returns, waits, leaves}
use os_workshop.Boot.Message.{nb_port_ctrl}
use os_workshop.Boot.Board.{
  Board, Event, eth_wr, wr_ev_enable, rd_ev_enable, wr_ev_pending, rd_ev_pending, rd_slot, rd_len,
  rd_start, tx_slot_at,
}
use os_workshop.Boot.Netboot.{pkt_rx_udp}
use os_workshop.Tools.Sender.{Answer, silent, reply}

-- What becomes of one message: whether the target receives it, whether its answer is not lost, and
-- whether `poll` finds a datagram within 250 ms.
pub record Fate : Type 0 where
  pub arrives : Bool
  pub comes_back : Bool
  pub in_time : Bool

-- The bootloader listens, or waits for its transmitter for ever, or has left for the program at `entry`.
-- What the program then does with messages is not looked at.
pub data Target : Type 0 where
  listens : Board → Target
  hangs : Target
  runs : (entry : ℕ) → Board → Target

-- `under_way` are the datagrams that `read` of the socket will give, the next one first.
pub record Link : Type 0 where
  pub target : Target
  pub under_way : List (List ℕ)
  pub fates : List Fate

-- The frame that the latest register writes of `eth_tx` make the Ethernet core send.
abbrev pub started_frame : List Event → Memory → List (List ℕ)
started_frame (eth_wr rd_start _ ∷ eth_wr rd_len len ∷ eth_wr rd_slot slot ∷ _) sram =
    slice sram (tx_slot_at slot) len ∷ []
started_frame (_ ∷ es) sram = started_frame es sram
started_frame [] sram = []

-- The Ethernet, IPv6 and UDP headers in front of a payload.
abbrev pub headers_len : ℕ
headers_len = 14 + 40 + 8

-- The UDP payload of that frame.
abbrev pub transmitted : Board → List (List ℕ)
transmitted b = map (drop headers_len) (started_frame b.events b.sram)

-- The message `m` in the receive buffer, behind 64 bytes `heads` of padding and headers.
abbrev pub received : (heads : Memory) → List ℕ → Board → Board
received heads m b = record b {
  rxbuf = memcpy (memcpy b.rxbuf 0 heads 0 64) 64 (of_list m) 0 (length m);
  events = [];
}

-- What is left of the target, and what it has sent.
abbrev pub left_behind : Flow Board → Target × List (List ℕ)
left_behind (returns b) = (listens b, transmitted b)
left_behind waits = (hangs, [])
left_behind (leaves entry b) = (runs entry b, transmitted b)

unfoldable pub handle : (heads : Memory) → List ℕ → Board → Target × List (List ℕ)
handle heads m b = left_behind (pkt_rx_udp 64 (length m) nb_port_ctrl false (received heads m b))

-- `poll` and `read`.
abbrev pub next_datagram : (in_time : Bool) → Link → Link × Answer
next_datagram false l = (l, silent)
next_datagram true l = elim l.under_way [
  | [] ↦ (l, silent)
  | q ∷ qs ↦ (record l { under_way = qs }, reply q)
]

abbrev pub arrived : (heads : Memory) → Bool → List ℕ → Target → Target × List (List ℕ)
arrived heads true m (listens b) = handle heads m b
arrived heads true m target = (target, [])
arrived heads false m target = (target, [])

-- One try of `send_msg`. Without a fate, nothing comes through.
unfoldable pub link : (heads : Memory) → Link → List ℕ → Link × Answer
link heads l m = elim l.fates [
  | [] ↦ (l, silent)
  | f ∷ fs ↦
      let r = arrived heads f.arrives m l.target in
      let back = if f.comes_back then r.1 else [] in
      next_datagram f.in_time (record { target = r.0; under_way = l.under_way ++ back; fates = fs })
]
