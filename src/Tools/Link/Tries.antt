-- ===== src/Tools/Link/Tries.antt =====
-- `send_msg` of tools/netboot.c over Tools.Link.
use os_workshop.Base.{
  ℕ, suc, ◌+◌, ◌^◌, ◌≤◌, ◌<◌, ◌≡◌, ◌⊎◌, true, Bool, List, Memory, slice, le32, u32, slice-wr32_self,
  arith, ap, ◌∙◌, sym,
}
use mathlib.Core.Path.{subst}
use os_workshop.Tools.Sender.{Sender, send_once, send_msg}
use os_workshop.Tools.Sender.Tries.{try, told, wr32_ne, retry_loop-rule}
use os_workshop.Tools.Link.{Target, Link, link, arrived}
use os_workshop.Tools.Link.Answered.{Handles, Between, Result, link-Result}

-- `m` is the message of the caller but for its number, and `message n` what is sent under the number
-- `n`; `last` is the highest number that the tries may take.
module _ (P Q : Target → Type 0) (heads m : Memory) (len : ℕ) (message : ℕ → List ℕ)
    (sends : (m' : Memory) (seq : ℕ)
      → ((j : ℕ) → (j < 8) ⊎ (12 ≤ j) → m' j ≡ m j)
      → slice m' 8 4 ≡ le32 seq
      → slice m' 0 len ≡ message seq)
    (handles : (t : Bool) (seq : ℕ) (target : Target)
      → seq < 2 ^ 32
      → P target
      → Handles P Q seq (arrived heads t (message seq) target))
    (last : ℕ) (few : last < 2 ^ 32) where
  pub record IsTried (left : ℕ) (st : Sender Link) : Type 0 where
    pub msg : (j : ℕ) → (j < 8) ⊎ (12 ≤ j) → st.msg j ≡ m j
    pub between : Between P Q st.seq st.net
    pub numbers : st.seq + left ≤ last

  -- Behind an accepted message.
  pub record IsAccepted (st : Sender Link) : Type 0 where
    pub tried : IsTried 0 st
    pub numbered : slice st.msg 8 4 ≡ le32 st.seq
    pub answered : Q st.net.target

  module _ (left : ℕ) (st : Sender Link) (t : IsTried (suc left) st) where
    kept : (j : ℕ) → (j < 8) ⊎ (12 ≤ j) → (send_once len st).msg j ≡ m j
    kept j out = wr32_ne st.msg 8 (u32 (st.seq + 1)) j out ∙ t.msg j out

    numbered : slice (send_once len st).msg 8 4 ≡ le32 (u32 (st.seq + 1))
    numbered = slice-wr32_self st.msg 8 (u32 (st.seq + 1))

    number : u32 (st.seq + 1) ≡ st.seq + 1
    number = let n = t.numbers in omega arith

    try-Result : Result P Q (u32 (st.seq + 1)) (try (link heads) len st)
    try-Result =
        let sent =
          sends (send_once len st).msg (u32 (st.seq + 1)) kept numbered ∙ ap message number in
        let small : st.seq + 1 < 2 ^ 32 = let n = t.numbers in omega arith in
        subst (λ n. Result P Q n (try (link heads) len st)) (sym number)
          (subst (λ bytes. Result P Q (st.seq + 1) (link heads st.net bytes)) (sym sent)
            (link-Result P Q heads (message (st.seq + 1)) st.seq st.net small t.between
              (λ arrives. handles arrives (st.seq + 1) st.net.target small t.between.target)))

    told-IsTried : (ch : ℕ) → IsTried left (told (link heads) len ch st)
    told-IsTried ch = record {
      msg = kept;
      between = try-Result.0;
      numbers = let n = t.numbers in omega arith;
    }

  -- If `send_msg` returns 0, the target has answered the message.
  pub send_msg-IsAccepted :
      (st : Sender Link)
      → IsTried 5 st
      → (send_msg (link heads) len st).0 ≡ true
      → IsAccepted (send_msg (link heads) len st).1
  unfolding send_msg
  send_msg-IsAccepted st t e =
      retry_loop-rule (link heads) len IsTried IsAccepted
        (λ left ch st t. told-IsTried left st t ch)
        (λ left st t ok. record {
          tried =
              let t' = told-IsTried left st t b'.' in
              record {
                msg = t'.msg;
                between = t'.between;
                numbers = let n = t'.numbers in omega arith;
              };
          numbered = numbered left st t;
          answered = (try-Result left st t).1 ok;
        })
        5 st t e
