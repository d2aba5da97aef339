-- ===== src/Tools/Link/Handled/Exec.antt =====
-- An EXEC message to the target of Tools.Link.
use os_workshop.Base.{
  ℕ, ◌^◌, ◌<◌, ◌≡◌, ◌⊎◌, inl, inr, [], ◌∷◌, Memory, IsBytes, false, arith, refl, ap, ◌∙◌, drop, map,
}
use os_workshop.Net.Host.{Flow}
use os_workshop.Boot.Message.{nb_cmd_exec}
use os_workshop.Boot.Board.{Board, putc, eth_tx, start_tx}
use os_workshop.Boot.Netboot.Reply.{BoardBytes}
use os_workshop.Tools.Exchange.{ok_status, message_of-IsMessage, msg_arg-message}
use os_workshop.Tools.Link.{handle, left_behind, headers_len, hangs, runs}
use os_workshop.Boot.Netboot.{◌>>=◌, mstatus_mpp_s}
use os_workshop.Boot.Netboot.Commands.{pkt_rx_udp_exec}
use os_workshop.Boot.Board.{emit, execution_starts, write_mstatus}
use os_workshop.Net.Host.{leaves}
use os_workshop.Tools.Upload.Complete.{exec_message}
use os_workshop.Tools.Link.Handled.{
  eth_tx-cases, start_tx-sends, before, before-BoardBytes, arrives, answering, answer, answer-short,
  answer-payload,
}

-- The program starts with memory as it was.
module _ (heads : Memory) (heads_bytes : IsBytes heads) (seq addr : ℕ) (hs : seq < 2 ^ 32)
    (ha : addr < 2 ^ 32) (b : Board) (bytes : BoardBytes b) where
  pub handle-runs :
      (handle heads (exec_message seq addr) b ≡ (hangs, []))
      ⊎ ((b' : Board) × (handle heads (exec_message seq addr) b
            ≡ (runs addr b', ok_status seq ∷ []))
          × (b'.ram ≡ b.ram))
  unfolding handle
  handle-runs =
      let b1 = before heads heads_bytes nb_cmd_exec seq addr [] tt b bytes in
      let came = arrives heads heads_bytes nb_cmd_exec seq addr [] tt b bytes in
      let ends : (entry : ℕ) → Flow Board → Flow Board = λ entry flow. flow >>= λ b'.
      leaves entry (emit (execution_starts entry) (emit (write_mstatus mstatus_mpp_s) b')) in
      let (check, _, _, (flow, _)) =
        pkt_rx_udp_exec b1 64 16 false
          (before-BoardBytes heads heads_bytes nb_cmd_exec seq addr [] tt b bytes)
          (message_of-IsMessage b1 64 nb_cmd_exec seq addr [] (omega arith) hs ha came (omega arith)
            (omega arith)) in
      let entry = msg_arg-message b1.rxbuf 64 nb_cmd_exec seq addr [] (omega arith) hs ha came in
      let after =
        answering heads heads_bytes nb_cmd_exec seq addr [] tt b bytes b.ram (putc b'!') in
      let frame = answer heads heads_bytes nb_cmd_exec seq addr [] tt b bytes check in
      let start : handle heads (exec_message seq addr) b
          ≡ left_behind (ends addr (eth_tx frame after)) =
        ap left_behind flow ∙ ap (λ a. left_behind (ends a (eth_tx frame after))) entry in
      elim (eth_tx-cases frame after
        (answer-short heads heads_bytes nb_cmd_exec seq addr [] tt b bytes check)) [
          | inl e ↦ inl (start ∙ ap (λ f. left_behind (ends addr f)) e)
          | inr (rest, e) ↦
              let b' =
                emit (execution_starts addr)
                  (emit (write_mstatus mstatus_mpp_s) (start_tx frame rest after)) in
              inr (
                b',
                start
                    ∙ ap (λ f. left_behind (ends addr f)) e
                    ∙ ap (λ frames. (runs addr b', map (drop headers_len) frames))
                        (start_tx-sends frame rest after)
                    ∙ ap (λ p. (runs addr b', p ∷ []))
                        (answer-payload heads heads_bytes nb_cmd_exec seq addr [] tt b bytes
                          (omega arith) hs ha check),
                unfold start_tx in refl,
              )
        ]
