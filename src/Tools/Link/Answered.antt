-- ===== src/Tools/Link/Answered.antt =====
-- One try of `send_msg` over Tools.Link: an answer that it accepts is the target's to this message,
-- however late the answers before it are.
use os_workshop.Base.{
  ℕ, ◌+◌, ◌^◌, ◌≤◌, ◌<◌, ◌≡◌, ◌⊎◌, inl, inr, Bool, true, false, List, [], ◌∷◌, ◌++◌, Memory,
  of_list, take, arith, refl, ap, ◌∙◌, sym, if◌then◌else◌,
}
use mathlib.Core.Path.{subst}
use os_workshop.Boot.Message.{msg_seq, nb_msg_max}
use os_workshop.Boot.Board.{Board}
use os_workshop.Tools.Sender.{Answer, reply, silent}
use os_workshop.Tools.Sender.Tries.{IsOk}
use os_workshop.Tools.Exchange.{ok_status}
use os_workshop.Tools.Link.{
  Target, listens, hangs, runs, Fate, Link, arrived, handle, link, next_datagram,
}

-- Status messages with OK and numbers up to `seq`.
abbrev pub Earlier : ℕ → List (List ℕ) → Type 0
Earlier seq [] = Unit
Earlier seq (q ∷ qs) = ((n : ℕ) × (n ≤ seq) × (q ≡ ok_status n)) × Earlier seq qs

pub Earlier-mono :
    (seq seq' : ℕ) (qs : List (List ℕ)) → seq ≤ seq' → Earlier seq qs → Earlier seq' qs
Earlier-mono seq seq' [] le h = h
Earlier-mono seq seq' (q ∷ qs) le ((n, small, e), hs) =
    ((n, omega arith, e), Earlier-mono seq seq' qs le hs)

Earlier-append :
    (seq : ℕ) (qs rs : List (List ℕ)) → Earlier seq qs → Earlier seq rs → Earlier seq (qs ++ rs)
Earlier-append seq [] rs h k = k
Earlier-append seq (q ∷ qs) rs (first, h) k = (first, Earlier-append seq qs rs h k)

Earlier-if :
    (b : Bool) (seq : ℕ) (qs : List (List ℕ)) → Earlier seq qs → Earlier seq (if b then qs else [])
Earlier-if true seq qs h = h
Earlier-if false seq qs h = tt

ok_status-number :
    (n seq : ℕ) → n < 2 ^ 32 → msg_seq (of_list (take nb_msg_max (ok_status n))) 0 ≡ seq → n ≡ seq
ok_status-number n seq small e = omega arith

bytes_of : Answer → List ℕ
bytes_of (reply bytes) = bytes
bytes_of _ = []

IsOk-number : (n seq : ℕ) (q : List ℕ) → q ≡ ok_status n → n < 2 ^ 32 → IsOk seq (reply q) → n ≡ seq
unfolding bytes_of
IsOk-number n seq q e small (bytes, same, (_, _, _, number, _)) =
    ok_status-number n seq small
      (ap (λ xs. msg_seq (of_list (take nb_msg_max xs)) 0) (sym e ∙ ap bytes_of same) ∙ number)

silent-unaccepted : (seq : ℕ) → ¬ IsOk seq silent
silent-unaccepted seq (bytes, same, _) = cc

-- `read` leaves the target alone, and gives one of the datagrams under way.
next_datagram-target :
    (t : Bool) (target : Target) (qs : List (List ℕ)) (fs : List Fate)
    → (next_datagram t (record { target = target; under_way = qs; fates = fs })).0.target ≡ target
next_datagram-target false target qs fs = refl
next_datagram-target true target [] fs = refl
next_datagram-target true target (q ∷ qs) fs = refl

next_datagram-Earlier :
    (t : Bool) (target : Target) (qs : List (List ℕ)) (fs : List Fate) (seq : ℕ)
    → Earlier seq qs
    → Earlier seq
        (next_datagram t (record { target = target; under_way = qs; fates = fs })).0.under_way
next_datagram-Earlier false target qs fs seq h = h
next_datagram-Earlier true target [] fs seq h = h
next_datagram-Earlier true target (q ∷ qs) fs seq h = h.1

next_datagram-unaccepted :
    (t : Bool) (target : Target) (qs : List (List ℕ)) (fs : List Fate) (seq : ℕ)
    → Earlier seq qs
    → seq + 1 < 2 ^ 32
    → ¬ IsOk (seq + 1) (next_datagram t (record { target = target; under_way = qs; fates = fs })).1
next_datagram-unaccepted false target qs fs seq h small ok = silent-unaccepted (seq + 1) ok
next_datagram-unaccepted true target [] fs seq h small ok = silent-unaccepted (seq + 1) ok
next_datagram-unaccepted true target (q ∷ qs) fs seq ((n, le, e), _) small ok =
    let same = IsOk-number n (seq + 1) q e (omega arith) ok in omega arith

-- `P` is what every try keeps of the target, and `Q` what holds of it once it has answered.
module _ (P Q : Target → Type 0) where
  -- What a message leaves of the target, and what it answers.
  abbrev pub Handles : (seq : ℕ) → Target × List (List ℕ) → Type 0
  Handles seq r = P r.0 × Earlier seq r.1 × ((r.1 ≡ []) ⊎ Q r.0)

  -- Only a target that listens answers.
  pub arrived-Handles :
      (heads : Memory) (t : Bool) (m : List ℕ) (seq : ℕ) (target : Target)
      → P target
      → ((b : Board) → P (listens b) → Handles seq (handle heads m b))
      → Handles seq (arrived heads t m target)
  arrived-Handles heads false m seq target p h = (p, tt, inl refl)
  arrived-Handles heads true m seq hangs p h = (p, tt, inl refl)
  arrived-Handles heads true m seq (runs entry b) p h = (p, tt, inl refl)
  arrived-Handles heads true m seq (listens b) p h = h b p

  -- What holds between two tries; `seq` is the number of the last message.
  pub record Between (seq : ℕ) (l : Link) : Type 0 where
    pub earlier : Earlier seq l.under_way
    pub target : P l.target

  -- Behind a try.
  abbrev pub Result : (seq : ℕ) → Link × Answer → Type 0
  Result seq r = Between seq r.0 × (IsOk seq r.1 → Q r.0.target)

  -- The queue holds no answer to the message, or the target has answered.
  module _ (heads : Memory) (m : List ℕ) (seq : ℕ) (l : Link) (small : seq + 1 < 2 ^ 32)
      (h : Between seq l)
      (handles : (t : Bool) → Handles (seq + 1) (arrived heads t m l.target)) where
    read-Result :
        (r : Target × List (List ℕ)) (back in_time : Bool) (fs : List Fate)
        → Handles (seq + 1) r
        → Result (seq + 1) (
            next_datagram in_time (record {
              target = r.0;
              under_way = l.under_way ++ (if back then r.1 else []);
              fates = fs;
            }))
    read-Result (target, answers) back in_time fs (only, numbers, stored) =
        let queue = l.under_way ++ (if back then answers else []) in
        let same = next_datagram-target in_time target queue fs in
        let old = Earlier-mono seq (seq + 1) l.under_way (omega arith) h.earlier in
        let came = Earlier-if back (seq + 1) answers numbers in
        (
          record {
            earlier =
                next_datagram-Earlier in_time target queue fs (seq + 1)
                  (Earlier-append (seq + 1) l.under_way (if back then answers else []) old came);
            target = subst P (sym same) only;
          },
          λ ok. elim stored [
            | inl empty ↦ absurd (
                next_datagram-unaccepted in_time target queue fs seq
                  (Earlier-append seq l.under_way (if back then answers else []) h.earlier
                    (Earlier-if back seq answers (subst (Earlier seq) (sym empty) tt)))
                  small ok)
            | inr q ↦ subst Q (sym same) q
          ],
        )

    pub link-Result : Result (seq + 1) (link heads l m)
    unfolding link
    link-Result = go l.fates
      where
        go :
            (fates : List Fate)
            → Result (seq + 1) (elim fates [
              | [] ↦ (l, silent)
              | f ∷ fs ↦
                  let r = arrived heads f.arrives m l.target in
                  let back = if f.comes_back then r.1 else [] in
                  next_datagram f.in_time
                    (record { target = r.0; under_way = l.under_way ++ back; fates = fs })
            ])
        go [] = (
          record {
            earlier = Earlier-mono seq (seq + 1) l.under_way (omega arith) h.earlier;
            target = h.target;
          },
          λ ok. absurd (silent-unaccepted (seq + 1) ok),
        )
        go (f ∷ fs) =
            read-Result (arrived heads f.arrives m l.target) f.comes_back f.in_time fs
              (handles f.arrives)
