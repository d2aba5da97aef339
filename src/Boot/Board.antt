-- ===== src/Boot/Board.antt =====
-- The state of the bootloader and its Ethernet driver: `eth_tx`, `eth_rx`, `eth_init` and
-- `halt_peripherals` of boot/netboot.c. A register write is an event; the values that the
-- registers will read are part of the state.
pub mod Driver
pub mod Transmit
use os_workshop.Base.{
  ℕ, ◌+◌, ◌*◌, ◌≡◌, refl, ◌==◌, ltb, if◌then◌else◌, Bool, true, false, Option, none, some, List, [],
  ◌∷◌, Memory, of_list, memcpy, length, bit_xor,
}
use os_workshop.Net.Wire.{Ifc}
use os_workshop.Net.Host.{Host, Flow, returns, waits, Message}

pub data Register : Type 0 where
  wr_ev_enable rd_ev_enable wr_ev_pending rd_ev_pending rd_slot rd_len rd_start : Register

pub data Event : Type 0 where
  eth_wr : Register → ℕ → Event
  putc : ℕ → Event
  message : Message → Event
  execution_starts : ℕ → Event
  write_mstatus : ℕ → Event

-- `sram` is addressed from ETHMAC_SRAM_BASE, `ready` holds what RD_READY will read, and `events`
-- has the latest first.
pub record Board : Type 0 where
  pub ifc : Ifc
  pub rxbuf : Memory
  pub stack : Memory
  pub ram : Memory
  pub sram : Memory
  pub txslot : ℕ
  pub ready : List ℕ
  pub events : List Event

abbrev pub emit : Event → Board → Board
emit e b = record b { events = e ∷ b.events }

abbrev pub ethmac_slot_size : ℕ
ethmac_slot_size = 0x800

abbrev pub ethmac_rx_slots : ℕ
ethmac_rx_slots = 2

-- `while (eth_rd(RD_READY) != 1) ;`: what is left to read once a 1 was read.
unfoldable pub wait_ready : List ℕ → Option (List ℕ)
wait_ready [] = none
wait_ready (x ∷ xs) = if x == 1 then some xs else wait_ready xs

abbrev pub tx_slot_at : ℕ → ℕ
tx_slot_at slot = ethmac_slot_size * (ethmac_rx_slots + slot)

-- The part of `eth_tx` behind the wait.
unfoldable pub start_tx : List ℕ → List ℕ → Board → Board
start_tx frame ready b =
    let loaded = record b {
      ready = ready;
      sram = memcpy b.sram (tx_slot_at b.txslot) (of_list frame) 0 (length frame);
    } in
    let told =
      emit (eth_wr rd_start 1)
        (emit (eth_wr rd_len (length frame)) (emit (eth_wr rd_slot b.txslot) loaded)) in
    record told { txslot = bit_xor b.txslot 1 }

unfoldable pub eth_tx : List ℕ → Board → Flow Board
unfolding wait_ready start_tx
eth_tx frame b =
    if ltb 1534 (length frame)
    then returns b
    else elim (wait_ready b.ready) [ none ↦ waits | some rest ↦ returns (start_tx frame rest b) ]

unfoldable pub halt_peripherals : Board → Board
halt_peripherals b = emit (eth_wr rd_ev_enable 0) (emit (eth_wr wr_ev_enable 0) b)

unfoldable pub eth_init : Board → Board
unfolding halt_peripherals
eth_init b =
    let quiet = halt_peripherals b in
    let clear = emit (eth_wr rd_ev_pending 1) (emit (eth_wr wr_ev_pending 1) quiet) in
    let slot = emit (eth_wr rd_slot 0) (record clear { txslot = 0 }) in
    emit (eth_wr rd_ev_enable 1) (emit (eth_wr wr_ev_enable 1) slot)

-- The bootloader as the program around the stack.
abbrev pub boot_host : Host Board
boot_host = record {
  rx = λ b. b.rxbuf;
  set_rx = λ m b. record b { rxbuf = m };
  stack = λ b. b.stack;
  ifc = λ b. b.ifc;
  xprintf = λ m b. emit (message m) b;
  eth_tx = eth_tx;
  rx-set_rx = λ m b. refl;
  ifc-set_rx = λ m b. refl;
  stack-set_rx = λ m b. refl;
}
