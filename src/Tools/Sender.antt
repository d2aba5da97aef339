-- ===== src/Tools/Sender.antt =====
-- `send_msg` and `send_file` of tools/netboot.c. What is behind the socket is
-- given: `peer w m` is how a try with the message `m` ends and what it leaves of the network `w`. What
-- the program sends and prints is a log, the latest first.
pub mod Tries
pub mod File
use os_workshop.Base.{
  ℕ, zero, suc, ◌+◌, ◌==◌, ltb, if◌then◌else◌, Bool, true, false, not, ◌||◌, List, [], ◌∷◌, ◌++◌,
  Memory, of_list, wr32, rd32, memcpy, slice, length, u32, take,
}
use os_workshop.Boot.Message.{
  nb_magic, nb_cmd_write, nb_cmd_status, nb_ok, nb_msg_min, nb_msg_max, msg_magic, msg_cmd, msg_seq,
  msg_arg,
}

-- A write that is cut short or fails, a poll that finds nothing for 250 ms, or a datagram; one that
-- cannot be read is an empty one.
pub data Answer : Type 0 where
  write_fails silent : Answer
  reply : List ℕ → Answer

pub data Entry : Type 0 where
  sent : List ℕ → Entry
  printed : ℕ → Entry

-- `msg` is the message of the caller.
pub record Sender (W : Type 0) : Type 0 where
  pub seq : ℕ
  pub msg : Memory
  pub net : W
  pub log : List Entry

pub data Verdict : Type 0 where
  gives_up : List Entry → Verdict
  retries accepts : ℕ → Verdict

-- The tests of `send_msg` on a response of `r` bytes; `seq` is the number of the last message.
unfoldable pub judge_fields : (seq r magic cmd rsp_seq arg : ℕ) → Verdict
judge_fields seq r magic cmd rsp_seq arg =
    if ltb r nb_msg_min || not (magic == nb_magic) || not (cmd == nb_cmd_status)
    then retries b'X'
    else if not (rsp_seq == seq)
    then retries b'S'
    else if not (arg == nb_ok)
    then gives_up (printed b'E' ∷ [])
    else accepts b'.'

-- `read` stores no more than `sizeof(rsp)` bytes.
unfoldable pub judge : ℕ → Answer → Verdict
unfolding judge_fields
judge seq write_fails = gives_up []
judge seq silent = retries b'T'
judge seq (reply bytes) =
    let rsp = of_list (take nb_msg_max bytes) in
    judge_fields seq (length (take nb_msg_max bytes)) (msg_magic rsp 0) (msg_cmd rsp 0)
      (msg_seq rsp 0) (msg_arg rsp 0)

-- One round up to the answer.
abbrev pub send_once : {W : Type 0} → ℕ → Sender W → Sender W
send_once len st =
    let seq = u32 (st.seq + 1) in
    let msg = wr32 st.msg 8 seq in
    record { seq = seq; msg = msg; net = st.net; log = sent (slice msg 0 len) ∷ st.log }

module _ {W : Type 0} (peer : W → List ℕ → W × Answer) where
  -- What is left of the loop, and 0 as `true`.
  unfoldable pub retry_loop : (left len : ℕ) → Sender W → Bool × Sender W
  unfolding judge
  retry_loop zero len st = (false, st)
  retry_loop (suc left) len st =
      let st' = send_once len st in
      let r = peer st.net (slice st'.msg 0 len) in
      elim (judge st'.seq r.1) [
        | gives_up es ↦ (false, record st' { net = r.0; log = es ++ st'.log })
        | retries c ↦ retry_loop left len (record st' { net = r.0; log = printed c ∷ st'.log })
        | accepts c ↦ (true, record st' { net = r.0; log = printed c ∷ st'.log })
      ]

  unfoldable pub send_msg : ℕ → Sender W → Bool × Sender W
  unfolding retry_loop
  send_msg len st = retry_loop 5 len st

  -- The loop of `send_file`: `chunks` are what the calls of `read` give, and `failed` whether the
  -- last one fails; 0 is `true`.
  unfoldable pub send_chunks :
      (addr : ℕ) → List (List ℕ) → (failed : Bool) → Sender W → Bool × Sender W
  unfolding send_msg
  send_chunks addr [] failed st = (not failed, st)
  send_chunks addr (c ∷ cs) failed st =
      let loaded = record st { msg = wr32 (memcpy st.msg 16 (of_list c) 0 (length c)) 12 addr } in
      let r = send_msg (length c + nb_msg_min) loaded in
      let rest = send_chunks (u32 (addr + length c)) cs failed r.1 in
      if r.0 then rest else (false, r.1)

  -- `msg` starts with what the stack holds; the file could be opened.
  unfoldable pub send_file :
      (addr : ℕ) → List (List ℕ) → (failed : Bool) → (msg : Memory) → Sender W → Bool × Sender W
  unfolding send_chunks
  send_file addr chunks failed msg st =
      send_chunks addr chunks failed (record st { msg = wr32 (wr32 msg 0 nb_magic) 4 nb_cmd_write })
