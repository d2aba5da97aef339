-- ===== src/Tools/Search.antt =====
-- `open_node` of tools/netboot.c, which looks for a node by its name. What the clock, `poll`,
-- `recvfrom` and `connect` do in each round of its loop is given.
pub mod Located
use os_workshop.Base.{
  ℕ, ◌+◌, ◌==◌, ltb, if◌then◌else◌, Bool, true, false, not, ◌||◌, List, [], ◌∷◌, ◌++◌, of_list,
  le32, length, u32, take,
}
use os_workshop.Boot.Message.{
  nb_magic, nb_cmd_query, nb_cmd_status, nb_msg_min, nb_msg_max, msg_magic, msg_cmd, msg_seq,
}
use os_workshop.Tools.Sender.{Entry, sent}

-- Whether the time of the next query has come, whether `sendto` takes it whole, what `recvfrom` gives
-- (nothing, if `poll` or `recvfrom` found nothing), the address `rxaddr` of its sender, and whether a
-- socket that is connected to it can be opened.
pub record Round : Type 0 where
  pub due : Bool
  pub sends : Bool
  pub datagram : List ℕ
  pub sender : ℕ
  pub connects : Bool

-- The number of the last message, and what was sent, the latest first.
pub record Query : Type 0 where
  pub seq : ℕ
  pub log : List Entry

-- A socket that is connected to `peer`, -1, or no end in the rounds that were given.
pub data Search : Type 0 where
  located : (peer : ℕ) → Query → Search
  failed searching : Query → Search

abbrev pub query_message : (seq : ℕ) → (name : List ℕ) → List ℕ
query_message seq name = le32 nb_magic ++ le32 nb_cmd_query ++ le32 seq ++ le32 0 ++ name

-- The tests of a response.
unfoldable pub is_answer : (seq : ℕ) → List ℕ → Bool
is_answer seq bytes =
    let rxb = of_list (take 2048 bytes) in
    if ltb (length (take 2048 bytes)) nb_msg_min
    then false
    else not (
        not (msg_magic rxb 0 == nb_magic)
        || not (msg_cmd rxb 0 == nb_cmd_status)
        || not (msg_seq rxb 0 == seq))

abbrev pub queried : List ℕ → Query → Query
queried name q =
    let seq = u32 (q.seq + 1) in record { seq = seq; log = sent (query_message seq name) ∷ q.log }

-- The part of a round behind the query; `rest` are the rounds behind it.
abbrev pub listen : Round → Query → (rest : Search) → Search
listen r q rest =
    if is_answer q.seq r.datagram then (if r.connects then located r.sender q else rest) else rest

unfoldable pub search_loop : (name : List ℕ) → List Round → Query → Search
unfolding is_answer
search_loop name [] q = searching q
search_loop name (r ∷ rs) q =
    let asked = search_loop name rs (queried name q) in
    let quiet = search_loop name rs q in
    if r.due
    then (if r.sends then listen r (queried name q) asked else failed (queried name q))
    else listen r q quiet

-- `opens` is whether there is a socket for the queries. A name of 1025 to 1040 bytes passes the test and
-- is copied beyond the end of `msg.db`, so the model holds for names of at most `nb_data_max` bytes.
unfoldable pub open_node : (opens : Bool) → (name : List ℕ) → List Round → Query → Search
unfolding search_loop
open_node opens name rs q =
    if not opens || ltb nb_msg_max (length name) then failed q else search_loop name rs q
