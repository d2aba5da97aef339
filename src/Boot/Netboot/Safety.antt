-- ===== src/Boot/Netboot/Safety.antt =====
-- Any packet, whatever it holds, keeps a kept predicate.
use os_workshop.Base.{
  ℕ, ◌+◌, ◌-◌, ◌≤◌, inl, inr, [], ◌∷◌, Bool, ◌==◌, ◌||◌, not, ltb, ◌++◌, Bool-cases, IsBytes,
  memcpy, wr8, wr16, wr32, wr8-IsBytes, wr16-IsBytes, wr32-IsBytes, memcpy-IsBytes, of_list, arith,
  of_list-IsBytes,
}
use os_workshop.Net.Wire.{icmp_echo_reply}
use os_workshop.Net.Host.{Flow, leaves}
use os_workshop.Net.Tx.{net_tx_udp_reply}
use os_workshop.Net.Rx.Invariant.{After, returned, waiting, left, After-mono, if-After, eth-After}
use os_workshop.Boot.Message.{
  nb_cmd_status, nb_msg_min, nb_msg_max, nb_magic, msg_magic, nb_ok, nb_err_badcmd, nb_data_max,
  set_cmd_arg, msg_arg,
}
use os_workshop.Boot.Board.{Board, emit, putc, message, execution_starts, write_mstatus, boot_host}
use os_workshop.Boot.Board.Driver.{eth_tx-After, Kept}
use os_workshop.Boot.Netboot.{
  ◌>>=◌, snprintf, name_line, send_status, query_reply, handle_write, handle_exec, handle_ctrl,
  pkt_rx_udp, eth_rx, mstatus_mpp_s,
}

module _ (P : Board → Type 0) (kept : Kept P) where
  send-After : (msg len arg : ℕ) (b : Board) → 48 ≤ msg → P b → After P (send_status msg len arg b)
  unfolding send_status net_tx_udp_reply
  send-After msg len arg b far p =
      let m = set_cmd_arg b.rxbuf msg nb_cmd_status arg in
      let p' : P (record b { rxbuf = m }) =
        kept.fills m b
          (λ h.
            wr32-IsBytes (wr32 b.rxbuf (msg + 4) nb_cmd_status) (msg + 12) arg
              (wr32-IsBytes b.rxbuf (msg + 4) nb_cmd_status h))
          (ground arith) (ground arith) p in
      if-After P _ (returned p')
        (eth_tx-After P _ (record b { rxbuf = m }) p' (λ ready. kept.sends _ ready _ p'))

  query-After : (msg : ℕ) (b : Board) → 48 ≤ msg → P b → After P (query_reply msg b)
  unfolding query_reply snprintf
  query-After msg b far p =
      send-After msg 28 nb_ok
        (record b { rxbuf = snprintf b.rxbuf (msg + 16) nb_data_max name_line }) far
        (kept.fills (snprintf b.rxbuf (msg + 16) nb_data_max name_line) b
          (λ h.
            memcpy-IsBytes b.rxbuf (msg + 16) (of_list (name_line ++ (0 ∷ []))) 0 12 h
              (of_list-IsBytes (name_line ++ (0 ∷ [])) (omega arith)))
          (ground arith) (ground arith) p)

  exec-After : (msg : ℕ) (b : Board) → 48 ≤ msg → P b → After P (handle_exec msg b)
  unfolding handle_exec
  exec-After msg b far p = go (send-After msg 16 nb_ok (emit (putc b'!') b) far (kept.prints _ b p))
    where
      go :
          {flow : Flow Board}
          → After P flow
          → After P (
              flow >>= λ b'. leaves (msg_arg b.rxbuf msg) (
                emit
                  (execution_starts (msg_arg b.rxbuf msg))
                  (emit (write_mstatus mstatus_mpp_s) b')))
      go (returned q) = left (kept.prints _ _ (kept.prints _ _ q))
      go waiting = waiting
      go (left q) = left q

-- `Q` may hold where `P` no longer does: behind a message that stores its data.
module _ (P Q : Board → Type 0) (keptP : Kept P) (keptQ : Kept Q) (weaken : (b : Board) → P b → Q b)
    (stores : (to msg n : ℕ) (b : Board)
      → n ≤ 1024
      → P b
      → Q (record b { ram = memcpy b.ram to b.rxbuf msg n })) where
  ctrl-After :
      (msg len : ℕ) (b : Board) → 48 ≤ msg → len ≤ 1040 → P b → After Q (handle_ctrl msg len b)
  unfolding handle_ctrl handle_write
  ctrl-After msg len b far short p =
      if-After Q _
        (After-mono P Q weaken
          (query-After P keptP msg (emit (putc b'Q') b) far (keptP.prints _ b p)))
        (if-After Q _
          (send-After Q keptQ msg 16 nb_ok
            (record b {
              ram = memcpy b.ram (msg_arg b.rxbuf msg) b.rxbuf (msg + 16) (len - 16);
              events = putc b'.' ∷ b.events;
            })
            far
            (stores (msg_arg b.rxbuf msg) (msg + 16) (len - 16) (emit (putc b'.') b) (omega arith)
              (keptP.prints _ b p)))
          (if-After Q _ (After-mono P Q weaken (exec-After P keptP msg b far p)) (
            After-mono P Q weaken (
              send-After P keptP msg 16 nb_err_badcmd (emit (putc b'E') b) far
                (keptP.prints _ b p)))))

  pkt-After :
      (msg len port : ℕ) (mcast : Bool) (b : Board)
      → 48 ≤ msg
      → P b
      → After Q (pkt_rx_udp msg len port mcast b)
  unfolding pkt_rx_udp
  pkt-After msg len port mcast b far p =
      let m = b.rxbuf in
      let bad = ltb len nb_msg_min || ltb nb_msg_max len || not (msg_magic m msg == nb_magic) in
      elim (Bool-cases bad) [
        | inl e ↦ rw e (returned (weaken b p))
        | inr e ↦
            let short : len ≤ 1040 = ground arith in
            rw e (
              if-After Q _
                (if-After Q _ (returned (weaken b p))
                  (After-mono P Q weaken (query-After P keptP msg b far p)))
                (if-After Q _ (returned (weaken b p)) (ctrl-After msg len b far short p)))
      ]

  pub eth_rx-After :
      (rxb rxlen : ℕ) (b : Board) → IsBytes b.sram → P b → After Q (eth_rx rxb rxlen b)
  unfolding eth_rx
  eth_rx-After rxb rxlen b hs p = if-After Q _ (returned (weaken b p)) (
      eth-After boot_host pkt_rx_udp P Q weaken (λ m b' q. keptP.prints (message m) b' q)
        (λ at b' far q.
          keptP.fills (wr16 (wr8 b'.rxbuf at icmp_echo_reply) (at + 2) 0) b'
            (λ h. wr16-IsBytes _ (at + 2) 0 (wr8-IsBytes b'.rxbuf at icmp_echo_reply h))
            (ground arith) (ground arith) q)
        (λ frame b' q.
          After-mono P Q weaken (eth_tx-After P frame b' q (λ ready. keptP.sends frame ready b' q)))
        (λ msg len port mcast b' far q. pkt-After msg len port mcast b' far q) 0 (rxlen + 2)
        (record b { rxbuf = memcpy b.rxbuf 2 b.sram rxb rxlen })
        (keptP.fills (memcpy b.rxbuf 2 b.sram rxb rxlen) b
          (λ h. memcpy-IsBytes b.rxbuf 2 b.sram rxb rxlen h hs) (ground arith) (ground arith) p))
