-- ===== src/Boot/Netboot/Commands.antt =====
-- What each message to the control port of boot/netboot.c does.
use os_workshop.Base.{
  ℕ, ◌+◌, ◌-◌, ◌^◌, ◌≤◌, ◌<◌, ◌≡◌, ◌≢◌, refl, ap, ◌∙◌, List, ◌∷◌, ◌++◌, Memory, Bool, memcpy, slice,
  arith, le32, slice-add, slice-wr32_self, slice-wr32_ne, wr32, inl, inr, ap₂,
}
use mathlib.Core.Path.{subst}
use os_workshop.Net.Host.{Flow, leaves}
use os_workshop.Net.Checksum.Complement.{Verifies}
use os_workshop.Boot.Message.{
  nb_port_ctrl, nb_magic, nb_cmd_query, nb_cmd_write, nb_cmd_exec, nb_cmd_status, nb_ok,
  nb_err_badcmd, msg_magic, msg_cmd, msg_arg, set_cmd_arg,
}
use os_workshop.Boot.Board.{Board, emit, putc, eth_tx, execution_starts, write_mstatus}
use os_workshop.Boot.Netboot.{◌>>=◌, send_status, pkt_rx_udp, mstatus_mpp_s}
use os_workshop.Boot.Netboot.Reply.{BoardBytes, reply_datagram, send_status_sends}

-- A message of the boot protocol with this command, in `len` bytes at `msg`, behind its headers.
pub record IsMessage (b : Board) (msg len cmd : ℕ) : Type 0 where
  pub behind : 64 ≤ msg
  pub long : 16 ≤ len
  pub short : len ≤ 1040
  pub magic : msg_magic b.rxbuf msg ≡ nb_magic
  pub command : msg_cmd b.rxbuf msg ≡ cmd

-- A status message with the magic and the sequence number of the message at `msg`.
abbrev pub status_message : Memory → (msg arg : ℕ) → List ℕ
status_message m msg arg = slice m msg 4 ++ le32 nb_cmd_status ++ slice m (msg + 8) 4 ++ le32 arg

set_cmd_arg-status :
    (m : Memory) (msg arg : ℕ)
    → slice (set_cmd_arg m msg nb_cmd_status arg) msg 16 ≡ status_message m msg arg
set_cmd_arg-status m msg arg =
    let m1 = wr32 m (msg + 4) nb_cmd_status in
    let m2 = wr32 m1 (msg + 12) arg in
    slice-add m2 msg 12 4 (msg + 12) refl
    ∙ ap₂ ◌++◌
        (slice-add m2 msg 8 4 (msg + 8) refl
          ∙ ap₂ ◌++◌
              (slice-add m2 msg 4 4 (msg + 4) refl
                ∙ ap₂ ◌++◌
                    (slice-wr32_ne m1 (msg + 12) arg msg 4 (inr (omega arith))
                      ∙ slice-wr32_ne m (msg + 4) nb_cmd_status msg 4 (inr (omega arith)))
                    (slice-wr32_ne m1 (msg + 12) arg (msg + 4) 4 (inr (omega arith))
                      ∙ slice-wr32_self m (msg + 4) nb_cmd_status))
              (slice-wr32_ne m1 (msg + 12) arg (msg + 8) 4 (inr (omega arith))
                ∙ slice-wr32_ne m (msg + 4) nb_cmd_status (msg + 8) 4 (inl (omega arith))))
        (slice-wr32_self m1 (msg + 12) arg)

-- The flow `ends (eth_tx …)` from the board `b'`, with the answer `status` to the message at `msg`.
abbrev pub Answers :
    Board → (msg status : ℕ) → (Flow Board → Flow Board) → Board → Flow Board → Type 0
Answers b msg status ends b' flow =
    (check : ℕ) × (0 < check)
    × (check < 2 ^ 16)
    × (let frame = reply_datagram b msg check (status_message b.rxbuf msg status) 16 in
        (flow ≡ ends (eth_tx frame b')) × Verifies frame)

-- `send_status` with a status message is such an answer.
status-Answers :
    (b : Board) (msg status : ℕ) (ends : Flow Board → Flow Board) {flow : Flow Board}
    → BoardBytes b
    → 64 ≤ msg
    → flow ≡ ends (send_status msg 16 status b)
    → Answers b msg status ends
        (record b { rxbuf = set_cmd_arg b.rxbuf msg nb_cmd_status status })
        flow
status-Answers b msg status ends bytes behind e =
    let sent = send_status_sends msg 16 status b bytes behind (omega arith) in
    let same = set_cmd_arg-status b.rxbuf msg status in
    (
      sent.0,
      sent.1,
      sent.2,
      (
        e
            ∙ ap ends sent.3.0
            ∙ ap
                (λ payload. ends (
                  eth_tx (reply_datagram b msg sent.0 payload 16)
                    (record b { rxbuf = set_cmd_arg b.rxbuf msg nb_cmd_status status })))
                same,
        subst (λ payload. Verifies (reply_datagram b msg sent.0 payload 16)) same sent.3.1,
      ),
    )

module _ (b : Board) (msg len : ℕ) (mcast : Bool) (bytes : BoardBytes b) where
  -- A WRITE message stores its data at its address, and nothing else, and is then answered with OK
  -- and its own sequence number.
  pub pkt_rx_udp_write :
      IsMessage b msg len nb_cmd_write
      → Answers b msg nb_ok
          (λ flow. flow)
          (record b {
            rxbuf = set_cmd_arg b.rxbuf msg nb_cmd_status nb_ok;
            ram = memcpy b.ram (msg_arg b.rxbuf msg) b.rxbuf (msg + 16) (len - 16);
            events = putc b'.' ∷ b.events;
          })
          (pkt_rx_udp msg len nb_port_ctrl mcast b)
  unfolding pkt_rx_udp
  pkt_rx_udp_write is =
      status-Answers
        (record b {
          ram = memcpy b.ram (msg_arg b.rxbuf msg) b.rxbuf (msg + 16) (len - 16);
          events = putc b'.' ∷ b.events;
        })
        msg nb_ok (λ flow. flow)
        (record {
          ifc_bytes = bytes.ifc_bytes;
          stack_bytes = bytes.stack_bytes;
          rx_bytes = bytes.rx_bytes;
        })
        is.behind (ground arith)

  -- An EXEC message is answered with OK; if the driver returns from sending that, the machine is
  -- in supervisor mode at the message's address, and memory is as it was.
  pub pkt_rx_udp_exec :
      IsMessage b msg len nb_cmd_exec
      → let entry = msg_arg b.rxbuf msg in
        Answers b msg nb_ok
          (λ flow. flow >>= λ b'.
            leaves entry (emit (execution_starts entry) (emit (write_mstatus mstatus_mpp_s) b')))
          (record b {
            rxbuf = set_cmd_arg b.rxbuf msg nb_cmd_status nb_ok;
            events = putc b'!' ∷ b.events;
          })
          (pkt_rx_udp msg len nb_port_ctrl mcast b)
  unfolding pkt_rx_udp
  pkt_rx_udp_exec is =
      let entry = msg_arg b.rxbuf msg in
      status-Answers (record b { events = putc b'!' ∷ b.events }) msg nb_ok
        (λ flow. flow >>= λ b'.
          leaves entry (emit (execution_starts entry) (emit (write_mstatus mstatus_mpp_s) b')))
        (record {
          ifc_bytes = bytes.ifc_bytes;
          stack_bytes = bytes.stack_bytes;
          rx_bytes = bytes.rx_bytes;
        })
        is.behind (ground arith)

  -- Any other command is answered with an error, and memory is as it was.
  pub pkt_rx_udp_unknown :
      (cmd : ℕ)
      → cmd ≢ nb_cmd_query
      → cmd ≢ nb_cmd_write
      → cmd ≢ nb_cmd_exec
      → IsMessage b msg len cmd
      → Answers b msg nb_err_badcmd
          (λ flow. flow)
          (record b {
            rxbuf = set_cmd_arg b.rxbuf msg nb_cmd_status nb_err_badcmd;
            events = putc b'E' ∷ b.events;
          })
          (pkt_rx_udp msg len nb_port_ctrl mcast b)
  unfolding pkt_rx_udp
  pkt_rx_udp_unknown cmd q wr x is =
      status-Answers (record b { events = putc b'E' ∷ b.events }) msg nb_err_badcmd (λ flow. flow)
        (record {
          ifc_bytes = bytes.ifc_bytes;
          stack_bytes = bytes.stack_bytes;
          rx_bytes = bytes.rx_bytes;
        })
        is.behind (ground arith)
