-- ===== src/Boot/Board/Driver.antt =====
-- What holds of the board and what the driver of boot/netboot.c keeps of it.
use os_workshop.Base.{
  ℕ, zero, suc, ◌<◌, ◌≡◌, List, Memory, IsBytes, Option, none, some, arith, bit_xor,
}
use os_workshop.Net.Host.{returns, waits}
use os_workshop.Net.PacketBytes.{HoldsBytes}
use os_workshop.Net.Rx.Invariant.{After, returned, waiting, if-After}
use os_workshop.Boot.Board.{Board, Event, emit, eth_tx, start_tx, wait_ready}

pub record IsValid (b : Board) : Type 0 where
  pub ifc_bytes : HoldsBytes b.ifc
  pub mac_bytes : IsBytes b.ifc.m_ifc_mac
  pub ns_bytes : IsBytes b.ifc.m_ns_mac
  pub stack_bytes : IsBytes b.stack
  pub rx_bytes : IsBytes b.rxbuf
  pub pad_first : b.rxbuf 0 ≡ 0
  pub pad_second : b.rxbuf 1 ≡ 0
  pub slot : b.txslot < 2

-- The memories beside the receive buffer, and the events, have no part in it.
pub IsValid-other :
    (ram sram : Memory) (events : List Event) (b : Board)
    → IsValid b
    → IsValid (record b { ram = ram; sram = sram; events = events })
IsValid-other ram sram events b v = record {
  ifc_bytes = v.ifc_bytes;
  mac_bytes = v.mac_bytes;
  ns_bytes = v.ns_bytes;
  stack_bytes = v.stack_bytes;
  rx_bytes = v.rx_bytes;
  pad_first = v.pad_first;
  pad_second = v.pad_second;
  slot = v.slot;
}

bit_xor-one-lt : (s : ℕ) → s < 2 → bit_xor s 1 < 2
bit_xor-one-lt zero h = omega arith
bit_xor-one-lt (suc zero) h = omega arith
bit_xor-one-lt (suc (suc s)) h = absurd (omega arith)

pub start_tx-IsValid :
    (frame ready : List ℕ) (b : Board) → IsValid b → IsValid (start_tx frame ready b)
unfolding start_tx
start_tx-IsValid frame ready b v = record {
  ifc_bytes = v.ifc_bytes;
  mac_bytes = v.mac_bytes;
  ns_bytes = v.ns_bytes;
  stack_bytes = v.stack_bytes;
  rx_bytes = v.rx_bytes;
  pad_first = v.pad_first;
  pad_second = v.pad_second;
  slot = bit_xor-one-lt b.txslot v.slot;
}

-- A rule for the driver: `P` holds behind `eth_tx` if it holds before, and behind its last part.
pub eth_tx-After :
    (P : Board → Type 0) (frame : List ℕ) (b : Board)
    → P b
    → ((ready : List ℕ) → P (start_tx frame ready b))
    → After P (eth_tx frame b)
unfolding eth_tx
eth_tx-After P frame b p q = if-After P _ (returned p) (go (wait_ready b.ready))
  where
    go :
        (o : Option (List ℕ))
        → After P (elim o [ none ↦ waits | some rest ↦ returns (start_tx frame rest b) ])
    go none = waiting
    go (some rest) = returned (q rest)

-- A predicate that neither the driver, nor the console, nor a write into the receive buffer that
-- spares its first two bytes can break.
pub record Kept (P : Board → Type 0) : Type 0 where
  pub sends : (frame ready : List ℕ) (b : Board) → P b → P (start_tx frame ready b)
  pub prints : (e : Event) (b : Board) → P b → P (emit e b)
  pub fills :
      (m : Memory) (b : Board)
      → (IsBytes b.rxbuf → IsBytes m)
      → m 0 ≡ b.rxbuf 0
      → m 1 ≡ b.rxbuf 1
      → P b
      → P (record b { rxbuf = m })
