-- ===== src/Tools/Exchange.antt =====
-- The two ends of the boot protocol together: tools/netboot.c and boot/netboot.c.
use os_workshop.Base.{
  ℕ, ◌+◌, ◌-◌, ◌*◌, ◌/◌, ◌%◌, ◌^◌, ◌≤◌, ◌<◌, ◌≡◌, ◌==◌, Bool, true, List, ◌∷◌, ◌++◌, Memory, rd32,
  slice, le32, slice-add, slice-eq_of_SameBytes, memcpy, length, arith, refl, ap, ap₂, ◌∙◌, ◌⊎◌,
  sym,
}
use os_workshop.Boot.Message.{
  nb_magic, nb_cmd_write, nb_cmd_status, nb_ok, nb_port_ctrl, msg_arg, set_cmd_arg,
}
use os_workshop.Boot.Board.{Board, putc}
use os_workshop.Boot.Netboot.{pkt_rx_udp}
use os_workshop.Boot.Netboot.Reply.{BoardBytes}
use os_workshop.Boot.Netboot.Commands.{IsMessage, Answers, status_message, pkt_rx_udp_write}
use os_workshop.Tools.Sender.{reply, accepts, judge, judge_fields}
use os_workshop.Tools.Sender.File.{write_message}

rd32-le32 : (m : Memory) (a v : ℕ) → v < 2 ^ 32 → slice m a 4 ≡ le32 v → rd32 m a ≡ v
rd32-le32 m a v small e = ground arith

-- The status message with OK that has this number.
abbrev pub ok_status : ℕ → List ℕ
ok_status seq = le32 nb_magic ++ le32 nb_cmd_status ++ le32 seq ++ le32 nb_ok

-- A message of the boot protocol.
abbrev pub message_of : (cmd seq addr : ℕ) → List ℕ → List ℕ
message_of cmd seq addr c = le32 nb_magic ++ le32 cmd ++ le32 seq ++ le32 addr ++ c

module _ (m : Memory) (msg cmd seq addr : ℕ) (c : List ℕ) (hc : cmd < 2 ^ 32) (hs : seq < 2 ^ 32)
    (ha : addr < 2 ^ 32) (e : slice m msg (16 + length c) ≡ message_of cmd seq addr c) where
  fields :
      (slice m msg 4 ≡ le32 nb_magic)
      × (slice m (msg + 4) 4 ≡ le32 cmd)
      × (slice m (msg + 8) 4 ≡ le32 seq)
      × (slice m (msg + 12) 4 ≡ le32 addr)
      × (slice m (msg + 16) (length c) ≡ c)
  fields =
      let split : slice m msg 16 ++ slice m (msg + 16) (length c) ≡ message_of cmd seq addr c =
        sym (slice-add m msg 16 (length c) (msg + 16) refl) ∙ e in
      ground arith

  pub msg_arg-message : msg_arg m msg ≡ addr
  msg_arg-message = rd32-le32 m (msg + 12) addr ha fields.3

  pub status_message-message : status_message m msg nb_ok ≡ ok_status seq
  status_message-message =
      ap₂ (λ magic number. magic ++ le32 nb_cmd_status ++ number ++ le32 nb_ok) fields.0 fields.2

-- It is a message to the bootloader.
pub message_of-IsMessage :
    (b : Board) (msg cmd seq addr : ℕ) (c : List ℕ)
    → cmd < 2 ^ 32
    → seq < 2 ^ 32
    → addr < 2 ^ 32
    → slice b.rxbuf msg (16 + length c) ≡ message_of cmd seq addr c
    → 64 ≤ msg
    → length c ≤ 1024
    → IsMessage b msg (16 + length c) cmd
message_of-IsMessage b msg cmd seq addr c hc hs ha e behind short =
    let f = fields b.rxbuf msg cmd seq addr c hc hs ha e in
    record {
      behind = behind;
      long = omega arith;
      short = omega arith;
      magic = rd32-le32 b.rxbuf msg nb_magic (omega arith) f.0;
      command = rd32-le32 b.rxbuf (msg + 4) cmd hc f.1;
    }

-- The answer to a message is what its sender waits for.
judge-status : (seq : ℕ) → seq < 2 ^ 32 → judge seq (reply (ok_status seq)) ≡ accepts b'.'
unfolding judge judge_fields
judge-status seq small =
    let same : (seq % 256
            + 256 * (seq / 256 % 256)
            + 65536 * (seq / 65536 % 256)
            + 16777216 * (seq / 16777216 % 256)
          == seq)
        ≡ true =
      ground arith in
    rw same refl

module _ (b : Board) (msg seq addr : ℕ) (c : List ℕ) (mcast : Bool) (bytes : BoardBytes b)
    (behind : 64 ≤ msg) (hs : seq < 2 ^ 32) (ha : addr < 2 ^ 32) (short : length c ≤ 1024)
    (e : slice b.rxbuf msg (16 + length c) ≡ write_message seq addr c) where
  stored :
      slice
        (memcpy b.ram (msg_arg b.rxbuf msg) b.rxbuf (msg + 16) (16 + length c - 16))
        addr
        (length c)
      ≡ c
  stored =
      let to = msg_arg-message b.rxbuf msg nb_cmd_write seq addr c (omega arith) hs ha e in
      let size : 16 + length c - 16 ≡ length c = omega arith in
      rw (to, size)
        (slice-eq_of_SameBytes (memcpy b.ram addr b.rxbuf (msg + 16) (length c)) b.rxbuf addr
            (msg + 16) (length c) (λ i lt. ground arith)
          ∙ (fields b.rxbuf msg nb_cmd_write seq addr c (omega arith) hs ha e).4)

  elsewhere :
      (a : ℕ)
      → (a < addr) ⊎ (addr + length c ≤ a)
      → memcpy b.ram (msg_arg b.rxbuf msg) b.rxbuf (msg + 16) (16 + length c - 16) a ≡ b.ram a
  elsewhere a out =
      let to = msg_arg-message b.rxbuf msg nb_cmd_write seq addr c (omega arith) hs ha e in
      let size : 16 + length c - 16 ≡ length c = omega arith in rw (to, size) (ground arith)

  -- A WRITE message of the sender, once it is in the receive buffer behind its headers, stores its
  -- data at its address, and nothing else, and the answer to it is one that the sender accepts.
  pub write_exchange :
      (ram : Memory) × Answers b msg nb_ok
        (λ flow. flow)
        (record b {
          rxbuf = set_cmd_arg b.rxbuf msg nb_cmd_status nb_ok;
          ram = ram;
          events = putc b'.' ∷ b.events;
        })
        (pkt_rx_udp msg (16 + length c) nb_port_ctrl mcast b)
      × (slice ram addr (length c) ≡ c)
      × ((a : ℕ) → (a < addr) ⊎ (addr + length c ≤ a) → ram a ≡ b.ram a)
      × (judge seq (reply (status_message b.rxbuf msg nb_ok)) ≡ accepts b'.')
  write_exchange = (
    memcpy b.ram (msg_arg b.rxbuf msg) b.rxbuf (msg + 16) (16 + length c - 16),
    pkt_rx_udp_write b msg (16 + length c) mcast bytes
        (message_of-IsMessage b msg nb_cmd_write seq addr c (omega arith) hs ha e behind short),
    stored,
    elsewhere,
    ap (λ bytes. judge seq (reply bytes))
          (status_message-message b.rxbuf msg nb_cmd_write seq addr c (omega arith) hs ha e)
        ∙ judge-status seq hs,
  )
