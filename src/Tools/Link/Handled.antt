-- ===== src/Tools/Link/Handled.antt =====
-- A message to the target of Tools.Link, and its answer. For the commands see the child modules.
pub mod Write
pub mod Exec
use os_workshop.Base.{
  ℕ, zero, suc, ◌+◌, ◌-◌, ◌*◌, ◌/◌, ◌%◌, ◌^◌, ◌≤◌, ◌<◌, ◌≡◌, ◌⊎◌, inl, inr, Option, none, some,
  List, [], ◌∷◌, ◌++◌, Memory, IsBytes, AllBytes, of_list, memcpy, slice, le32, length, false,
  arith, refl, ap, ap₂, ◌∙◌, sym, slice-of_list, memcpy-IsBytes, of_list-IsBytes, wr32,
  wr32-IsBytes, drop, map, length-append, length-slice, ltb-false,
}
use os_workshop.Net.Host.{Flow, returns, waits}
use os_workshop.Boot.Message.{
  nb_ok, nb_port_ctrl, nb_cmd_write, nb_cmd_exec, nb_cmd_status, set_cmd_arg,
}
use os_workshop.Net.Layout.{udp_datagram, headers}
use os_workshop.Boot.Board.{Board, Event, putc, eth_tx, start_tx, wait_ready, tx_slot_at}
use os_workshop.Boot.Netboot.{pkt_rx_udp}
use os_workshop.Boot.Netboot.Reply.{BoardBytes, reply_datagram}
use os_workshop.Boot.Netboot.Commands.{status_message}
use os_workshop.Tools.Sender.File.{write_message}
use os_workshop.Tools.Exchange.{
  ok_status, message_of, write_exchange, status_message-message, message_of-IsMessage,
  msg_arg-message,
}
use os_workshop.Tools.Link.{
  received, handle, left_behind, started_frame, headers_len, listens, hangs, runs,
}

reply_datagram-length :
    (b : Board) (msg check : ℕ) (payload : List ℕ) (len : ℕ)
    → length (reply_datagram b msg check payload len) ≡ length payload + headers_len
unfolding udp_datagram headers
reply_datagram-length b msg check payload len = omega arith

reply_datagram-drop :
    (b : Board) (msg check : ℕ) (payload : List ℕ) (len : ℕ)
    → drop headers_len (reply_datagram b msg check payload len) ≡ payload
unfolding udp_datagram headers
reply_datagram-drop b msg check payload len = refl

-- What `eth_tx` does with a frame that is not too long.
pub eth_tx-cases :
    (frame : List ℕ) (b : Board)
    → length frame ≤ 1534
    → (eth_tx frame b ≡ waits)
      ⊎ ((rest : List ℕ) × (eth_tx frame b ≡ returns (start_tx frame rest b)))
unfolding eth_tx
eth_tx-cases frame b short = rw (ltb-false 1534 (length frame) short) (go (wait_ready b.ready))
  where
    go :
        (o : Option (List ℕ))
        → (elim o [ none ↦ waits | some rest ↦ returns (start_tx frame rest b) ] ≡ waits)
          ⊎ ((rest : List ℕ) × (elim o [
            | none ↦ waits
            | some rest ↦ returns (start_tx frame rest b)
          ]
                ≡ returns (start_tx frame rest b)))
    go none = inl refl
    go (some rest) = inr (rest, refl)

-- The Ethernet core then sends that frame.
pub start_tx-sends :
    (frame rest : List ℕ) (b : Board)
    → started_frame (start_tx frame rest b).events (start_tx frame rest b).sram ≡ frame ∷ []
unfolding start_tx
start_tx-sends frame rest b =
    ap (λ (sent : List ℕ). sent ∷ [])
      (slice-of_list frame (start_tx frame rest b).sram (tx_slot_at b.txslot)
        (λ j lt. ground arith))

slice-memcpy_self :
    (m : Memory) (a : ℕ) (xs : List ℕ)
    → slice (memcpy m a (of_list xs) 0 (length xs)) a (length xs) ≡ xs
slice-memcpy_self m a xs =
    slice-of_list xs (memcpy m a (of_list xs) 0 (length xs)) a (λ j lt. ground arith)

message_of-AllBytes :
    (cmd seq addr : ℕ) (c : List ℕ) → AllBytes c → AllBytes (message_of cmd seq addr c)
message_of-AllBytes cmd seq addr c h = ground arith

-- A message that has come in.
module _ (heads : Memory) (heads_bytes : IsBytes heads) (cmd seq addr : ℕ) (c : List ℕ)
    (hc : AllBytes c) (b : Board) (bytes : BoardBytes b) where
  abbrev message : List ℕ
  message = message_of cmd seq addr c

  pub message-length : length message ≡ 16 + length c
  message-length = omega arith

  abbrev pub before : Board
  before = received heads message b

  pub before-BoardBytes : BoardBytes before
  before-BoardBytes = record {
    ifc_bytes = bytes.ifc_bytes;
    stack_bytes = bytes.stack_bytes;
    rx_bytes =
        memcpy-IsBytes (memcpy b.rxbuf 0 heads 0 64) 64 (of_list message) 0 (length message)
          (memcpy-IsBytes b.rxbuf 0 heads 0 64 bytes.rx_bytes heads_bytes)
          (of_list-IsBytes message (message_of-AllBytes cmd seq addr c hc));
  }

  pub arrives : slice before.rxbuf 64 (16 + length c) ≡ message
  arrives =
      ap (slice before.rxbuf 64) (sym message-length)
      ∙ slice-memcpy_self (memcpy b.rxbuf 0 heads 0 64) 64 message

  -- The board once the answer is in the receive buffer.
  abbrev pub answering : (ram : Memory) → Event → Board
  answering ram shown = record before {
    rxbuf = set_cmd_arg before.rxbuf 64 nb_cmd_status nb_ok;
    ram = ram;
    events = shown ∷ [];
  }

  abbrev pub answer : ℕ → List ℕ
  answer check = reply_datagram before 64 check (status_message before.rxbuf 64 nb_ok) 16

  pub answer-short : (check : ℕ) → length (answer check) ≤ 1534
  answer-short check =
      let n = reply_datagram-length before 64 check (status_message before.rxbuf 64 nb_ok) 16 in
      omega arith

  pub answer-payload :
      cmd < 2 ^ 32
      → seq < 2 ^ 32
      → addr < 2 ^ 32
      → (check : ℕ) → drop headers_len (answer check) ≡ ok_status seq
  answer-payload small hs ha check =
      reply_datagram-drop before 64 check (status_message before.rxbuf 64 nb_ok) 16
      ∙ status_message-message before.rxbuf 64 cmd seq addr c small hs ha arrives

  pub start_tx-BoardBytes :
      (frame rest : List ℕ) (ram : Memory) (shown : Event)
      → BoardBytes (start_tx frame rest (answering ram shown))
  unfolding start_tx
  start_tx-BoardBytes frame rest ram shown = record {
    ifc_bytes = bytes.ifc_bytes;
    stack_bytes = bytes.stack_bytes;
    rx_bytes =
        wr32-IsBytes (wr32 before.rxbuf 68 nb_cmd_status) 76 nb_ok
          (wr32-IsBytes before.rxbuf 68 nb_cmd_status before-BoardBytes.rx_bytes);
  }
