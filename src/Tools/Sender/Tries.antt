-- ===== src/Tools/Sender/Tries.antt =====
-- When `send_msg` of tools/netboot.c returns 0.
use os_workshop.Base.{
  ℕ, zero, suc, ◌+◌, ◌*◌, ◌≤◌, ◌<◌, ◌≡◌, Bool, true, false, List, [], ◌∷◌, ◌++◌, Memory, of_list,
  wr32, length-append, slice, le32, slice-wr32_self, length, u32, take, arith, refl, ap, ◌∙◌, ◌⊎◌,
  sym,
}
use mathlib.Core.List.{append_assoc}
use mathlib.Core.Bool.{false≢true}
use mathlib.Core.Path.{subst}
use os_workshop.Boot.Message.{
  nb_magic, nb_cmd_status, nb_ok, nb_msg_max, msg_magic, msg_cmd, msg_seq, msg_arg,
}
use os_workshop.Tools.Sender.{
  Answer, write_fails, silent, reply, Entry, sent, printed, Sender, Verdict, gives_up, retries,
  accepts, judge, judge_fields, send_once, retry_loop, send_msg,
}

-- A status message with OK and this sequence number.
abbrev pub IsOk : ℕ → Answer → Type 0
IsOk seq a =
    (bytes : List ℕ) × (a ≡ reply bytes)
    × (let rsp = of_list (take nb_msg_max bytes) in
        (16 ≤ length (take nb_msg_max bytes))
        × (msg_magic rsp 0 ≡ nb_magic)
        × (msg_cmd rsp 0 ≡ nb_cmd_status)
        × (msg_seq rsp 0 ≡ seq)
        × (msg_arg rsp 0 ≡ nb_ok))

fields-ok :
    (seq r magic cmd rsp_seq arg c : ℕ)
    → judge_fields seq r magic cmd rsp_seq arg ≡ accepts c
    → (c ≡ b'.')
      × (16 ≤ r)
      × (magic ≡ nb_magic)
      × (cmd ≡ nb_cmd_status)
      × (rsp_seq ≡ seq)
      × (arg ≡ nb_ok)
unfolding judge_fields
fields-ok seq r magic cmd rsp_seq arg c e = ground arith

pub wr32_ne : (m : Memory) (a v j : ℕ) → (j < a) ⊎ (a + 4 ≤ j) → wr32 m a v j ≡ m j
wr32_ne m a v j out = ground arith

judge-IsOk : (seq c : ℕ) (a : Answer) → judge seq a ≡ accepts c → (c ≡ b'.') × IsOk seq a
unfolding judge
judge-IsOk seq c write_fails e = absurd (ground arith)
judge-IsOk seq c silent e = absurd (ground arith)
judge-IsOk seq c (reply bytes) e =
    let rsp = of_list (take nb_msg_max bytes) in
    let facts =
      fields-ok seq (length (take nb_msg_max bytes)) (msg_magic rsp 0) (msg_cmd rsp 0)
        (msg_seq rsp 0) (msg_arg rsp 0) c e in
    (facts.0, (bytes, refl, (facts.1, facts.2, facts.3, facts.4, facts.5)))

-- What `st'` is behind an accepted message of `len` bytes that starts from `st`.
pub record Accepted {W : Type 0} (peer : W → List ℕ → W × Answer) (left len : ℕ) (st st' : Sender W)
    : Type 0 where
  pub kept : (j : ℕ) → (j < 8) ⊎ (12 ≤ j) → st'.msg j ≡ st.msg j
  pub numbered : slice st'.msg 8 4 ≡ le32 st'.seq
  pub before : List Entry
  pub logged : st'.log ≡ printed b'.' ∷ sent (slice st'.msg 0 len) ∷ before ++ st.log
  pub answered :
      (w : W) × (st'.net ≡ (peer w (slice st'.msg 0 len)).0)
      × IsOk st'.seq (peer w (slice st'.msg 0 len)).1
  pub few : length before + 2 ≤ 2 * left

module _ {W : Type 0} (peer : W → List ℕ → W × Answer) (len : ℕ) where
  -- The network behind the next try from `st`, and how that ends.
  abbrev pub try : Sender W → W × Answer
  try st = peer st.net (slice (send_once len st).msg 0 len)

  -- What is left once a character was printed.
  abbrev pub told : ℕ → Sender W → Sender W
  told c st = record (send_once len st) {
    net = (try st).0;
    log = printed c ∷ (send_once len st).log;
  }

  -- A try that is accepted.
  once-Accepted :
      (left : ℕ) (st : Sender W)
      → IsOk (send_once len st).seq (try st).1
      → (c : ℕ) → c ≡ b'.'
      → Accepted peer (suc left) len st (told c st)
  once-Accepted left st ok c e = record {
    kept = λ j out. wr32_ne st.msg 8 (u32 (st.seq + 1)) j out;
    numbered = slice-wr32_self st.msg 8 (u32 (st.seq + 1));
    before = [];
    logged = ap (λ c. printed c ∷ (send_once len st).log) e;
    answered = (st.net, refl, ok);
    few = omega arith;
  }

  -- A try that is not, and one that is accepted behind it.
  again-Accepted :
      (left c : ℕ) (st st' : Sender W)
      → Accepted peer left len (told c st) st'
      → Accepted peer (suc left) len st st'
  again-Accepted left c st st' a = record {
    kept = λ j out. a.kept j out ∙ wr32_ne st.msg 8 (u32 (st.seq + 1)) j out;
    numbered = a.numbered;
    before = a.before ++ printed c ∷ sent (slice (send_once len st).msg 0 len) ∷ [];
    logged =
        a.logged
        ∙ ap (λ es. printed b'.' ∷ sent (slice st'.msg 0 len) ∷ es)
            (sym (
              append_assoc a.before (printed c ∷ sent (slice (send_once len st).msg 0 len) ∷ [])
                st.log));
    answered = a.answered;
    few =
        let f = a.few in
        let more =
          length-append a.before (printed c ∷ sent (slice (send_once len st).msg 0 len) ∷ []) in
        omega arith;
  }

  abbrev pub after : ℕ → Sender W → Verdict → Bool × Sender W
  after left st v = elim v [
    | gives_up es ↦
        (false, record (send_once len st) { net = (try st).0; log = es ++ (send_once len st).log })
    | retries c ↦ retry_loop peer left len (told c st)
    | accepts c ↦ (true, told c st)
  ]

  retry_loop-Accepted :
      (left : ℕ) (st : Sender W)
      → (retry_loop peer left len st).0 ≡ true
      → Accepted peer left len st (retry_loop peer left len st).1
  unfolding retry_loop
  retry_loop-Accepted zero st e = absurd (false≢true e)
  retry_loop-Accepted (suc left) st e =
      go (retry_loop-Accepted left) (judge (send_once len st).seq (try st).1) refl e
    where
      go :
          ((st1 : Sender W)
            → (retry_loop peer left len st1).0 ≡ true
            → Accepted peer left len st1 (retry_loop peer left len st1).1)
          → (v : Verdict) → judge (send_once len st).seq (try st).1 ≡ v
          → (after left st v).0 ≡ true
          → Accepted peer (suc left) len st (after left st v).1
      go rest (gives_up es) j e = absurd (false≢true e)
      go rest (retries c) j e = again-Accepted left c st _ (rest _ e)
      go rest (accepts c) j e =
          let ok = judge-IsOk (send_once len st).seq c (try st).1 j in
          once-Accepted left st ok.1 c ok.0

  -- A rule for the loop: what each try keeps and an accepted one brings about.
  pub retry_loop-rule :
      (I : ℕ → Sender W → Type 0) (Q : Sender W → Type 0)
      → ((left c : ℕ) (st : Sender W) → I (suc left) st → I left (told c st))
      → ((left : ℕ) (st : Sender W)
          → I (suc left) st
          → IsOk (send_once len st).seq (try st).1
          → Q (told b'.' st))
      → (left : ℕ) (st : Sender W) → I left st
      → (retry_loop peer left len st).0 ≡ true
      → Q (retry_loop peer left len st).1
  unfolding retry_loop
  retry_loop-rule I Q keeps brings zero st i e = absurd (false≢true e)
  retry_loop-rule I Q keeps brings (suc left) st i e =
      go (retry_loop-rule I Q keeps brings left) (judge (send_once len st).seq (try st).1) refl e
    where
      go :
          ((st1 : Sender W)
            → I left st1
            → (retry_loop peer left len st1).0 ≡ true
            → Q (retry_loop peer left len st1).1)
          → (v : Verdict) → judge (send_once len st).seq (try st).1 ≡ v
          → (after left st v).0 ≡ true
          → Q (after left st v).1
      go rest (gives_up es) j e = absurd (false≢true e)
      go rest (retries c) j e = rest (told c st) (keeps left c st i) e
      go rest (accepts c) j e =
          let ok = judge-IsOk (send_once len st).seq c (try st).1 j in
          subst (λ c. Q (told c st)) (sym ok.0) (brings left st i ok.1)

-- If `send_msg` returns 0, the message went out at most 5 times, the last time under a number that
-- a status message with OK gave back; the caller's message changed in its number only.
pub send_msg-Accepted :
    {W : Type 0} (peer : W → List ℕ → W × Answer) (len : ℕ) (st : Sender W)
    → (send_msg peer len st).0 ≡ true
    → Accepted peer 5 len st (send_msg peer len st).1
unfolding send_msg
send_msg-Accepted peer len st e = retry_loop-Accepted peer len 5 st e
