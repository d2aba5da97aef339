-- ===== src/Tools/Link/Handled/Write.antt =====
-- A WRITE message to the target of Tools.Link.
use os_workshop.Base.{
  ℕ, ◌+◌, ◌^◌, ◌≤◌, ◌<◌, ◌≡◌, ◌⊎◌, inl, inr, List, [], ◌∷◌, Memory, IsBytes, AllBytes, slice,
  length, false, arith, ap, ◌∙◌, drop, map,
}
use os_workshop.Boot.Message.{nb_port_ctrl, nb_cmd_write}
use os_workshop.Boot.Board.{Board, putc, eth_tx, start_tx}
use os_workshop.Boot.Netboot.{pkt_rx_udp}
use os_workshop.Boot.Netboot.Reply.{BoardBytes}
use os_workshop.Tools.Sender.File.{write_message}
use os_workshop.Tools.Exchange.{ok_status, write_exchange}
use os_workshop.Tools.Link.{handle, left_behind, headers_len, listens, hangs}
use os_workshop.Tools.Link.Handled.{
  eth_tx-cases, start_tx-sends, message-length, before, before-BoardBytes, arrives, answering,
  answer, answer-short, answer-payload, start_tx-BoardBytes,
}

-- The message was stored, and nothing else.
pub record Handled (addr : ℕ) (c : List ℕ) (b b' : Board) : Type 0 where
  pub bytes : BoardBytes b'
  pub stored : slice b'.ram addr (length c) ≡ c
  pub elsewhere : (a : ℕ) → (a < addr) ⊎ (addr + length c ≤ a) → b'.ram a ≡ b.ram a

module _ (heads : Memory) (heads_bytes : IsBytes heads) (seq addr : ℕ) (hs : seq < 2 ^ 32)
    (ha : addr < 2 ^ 32) (b : Board) (bytes : BoardBytes b) where
  -- A WRITE message.
  pub handle-Handled :
      (c : List ℕ)
      → length c ≤ 1024
      → AllBytes c
      → (handle heads (write_message seq addr c) b ≡ (hangs, []))
        ⊎ ((b' : Board) × (handle heads (write_message seq addr c) b
              ≡ (listens b', ok_status seq ∷ []))
            × Handled addr c b b')
  unfolding handle
  handle-Handled c short hc =
      let b1 = before heads heads_bytes nb_cmd_write seq addr c hc b bytes in
      let came = arrives heads heads_bytes nb_cmd_write seq addr c hc b bytes in
      let (ram, (check, _, _, (flow, _)), stored, elsewhere, _) =
        write_exchange b1 64 seq addr c false
          (before-BoardBytes heads heads_bytes nb_cmd_write seq addr c hc b bytes) (omega arith) hs
          ha short came in
      let after = answering heads heads_bytes nb_cmd_write seq addr c hc b bytes ram (putc b'.') in
      let frame = answer heads heads_bytes nb_cmd_write seq addr c hc b bytes check in
      let start : handle heads (write_message seq addr c) b ≡ left_behind (eth_tx frame after) =
        ap (λ n. left_behind (pkt_rx_udp 64 n nb_port_ctrl false b1))
          (message-length heads heads_bytes nb_cmd_write seq addr c hc b bytes)
        ∙ ap left_behind flow in
      elim (eth_tx-cases frame after
        (answer-short heads heads_bytes nb_cmd_write seq addr c hc b bytes check)) [
          | inl e ↦ inl (start ∙ ap left_behind e)
          | inr (rest, e) ↦ inr (
            start_tx frame rest after,
            start
                ∙ ap left_behind e
                ∙ ap
                    (λ frames. (listens (start_tx frame rest after), map (drop headers_len) frames))
                    (start_tx-sends frame rest after)
                ∙ ap (λ p. (listens (start_tx frame rest after), p ∷ []))
                    (answer-payload heads heads_bytes nb_cmd_write seq addr c hc b bytes
                      (omega arith) hs ha check),
            unfold start_tx in
                record {
                  bytes =
                      start_tx-BoardBytes heads heads_bytes nb_cmd_write seq addr c hc b bytes frame
                        rest ram (putc b'.');
                  stored = stored;
                  elsewhere = elsewhere;
                },
          )
        ]
