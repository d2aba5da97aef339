-- ===== src/Threads/Switch.antt =====
-- `context_switch` on a queue of threads.
use mathlib.Core.Path.{subst}
use os_workshop.Base.{ℕ, ◌+◌, ◌≤◌, ◌≡◌, ◌≢◌, List, [], ◌∷◌, ◌++◌, arith, sym}
use os_workshop.Threads.Machine.{Frame, Machine, Store, put, context_switch, sizeof_thread}
use os_workshop.Threads.Ring.{
  All, All-append, All-map, All-zip, All-of, Linked-agree, Apart, AllApart, AllApart-snoc, Linked,
  Linked-append,
}
use os_workshop.Threads.Queue.{next_in, prev_in, Resumes, IsQueue}

module _ (s : Store) (a : ℕ) (f : Frame) (y : ℕ) where
  pub put_ctxt-next : next_in (put s a (record (s a) { ctxt = f })) y ≡ next_in s y
  put_ctxt-next = ground arith

  pub put_ctxt-prev : prev_in (put s a (record (s a) { ctxt = f })) y ≡ prev_in s y
  put_ctxt-prev = ground arith

  pub put_ctxt-tp : y ≢ a → (put s a (record (s a) { ctxt = f }) y).ctxt.tp ≡ (s y).ctxt.tp
  put_ctxt-tp ne = ground arith

-- What `put` of a context leaves of the links.
pub put_ctxt-Linked :
    (s : Store) (a : ℕ) (f : Frame) (c : ℕ) (ts : List ℕ) (b : ℕ)
    → Linked (next_in s) (prev_in s) c ts b
    → (let s' = put s a (record (s a) { ctxt = f }) in Linked (next_in s') (prev_in s') c ts b)
put_ctxt-Linked s a f c ts b ring =
    let s' = put s a (record (s a) { ctxt = f }) in
    Linked-agree (next_in s) (prev_in s) (next_in s') (prev_in s') c ts b ring
      (All-of (λ y. next_in s' y ≡ next_in s y) (c ∷ ts) (put_ctxt-next s a f))
      (All-of (λ y. prev_in s' y ≡ prev_in s y) ts (put_ctxt-prev s a f)) (put_ctxt-prev s a f b)

-- A queue whose first thread is switched to from a thread outside.
pub switch_out :
    (m : Machine) (c n : ℕ) (ts : List ℕ)
    → Linked (next_in m.threads) (prev_in m.threads) n ts n
    → AllApart (n ∷ ts)
    → All (Apart c) (n ∷ ts)
    → All (Resumes m.threads) (n ∷ ts)
    → All (λ a. a + sizeof_thread ≤ m.next_heap) (n ∷ ts)
    → IsQueue (context_switch m c n) n ts
switch_out m c n ts ring apart far resumes below =
    let f = far.0 in
    let r = resumes.0 in
    record {
      running = ground arith;
      ring = put_ctxt-Linked m.threads c m.cpu n ts n ring;
      apart = apart;
      resumes =
          All-map (λ y. Apart c y × Resumes m.threads y) (Resumes (context_switch m c n).threads) ts
            (λ y e. ground (arith, e.0, e.1))
            (All-zip (Apart c) (Resumes m.threads) ts far.1 resumes.1);
      below = below;
    }

-- The running thread goes to the end of the queue.
abbrev pub rotated : ℕ → List ℕ → ℕ × List ℕ
rotated c [] = (c, [])
rotated c (n ∷ ts) = (n, ts ++ c ∷ [])

pub switch_next :
    (m : Machine) (c : ℕ) (ts : List ℕ)
    → IsQueue m c ts
    → IsQueue (context_switch m c (m.threads c).next) (rotated c ts).0 (rotated c ts).1
switch_next m c [] q =
    let e : (m.threads c).next ≡ c = q.ring.0 in
    let r = q.running in
    subst (λ a. IsQueue (context_switch m c a) c []) (sym e)
      (record {
        running = ground arith;
        ring = put_ctxt-Linked m.threads c m.cpu c [] c q.ring;
        apart = q.apart;
        resumes = tt;
        below = q.below;
      })
switch_next m c (n ∷ ts) q =
    let e : (m.threads c).next ≡ n = q.ring.0 in
    let r = q.running in
    let far = q.apart.0 in
    let near : Apart c n = far.0 in
    let r' : Resumes m.threads n = q.resumes.0 in
    let m' = context_switch m c n in
    subst (λ a. IsQueue (context_switch m c a) n (ts ++ c ∷ [])) (sym e)
      (record {
        running = ground arith;
        ring = put_ctxt-Linked m.threads c m.cpu n (ts ++ c ∷ []) n (
            Linked-append (next_in m.threads) (prev_in m.threads) n ts c [] n q.ring.2
              (q.ring.0, q.ring.1));
        apart =
            AllApart-snoc (n ∷ ts) c q.apart.1
              (All-map (Apart c) (λ x. Apart x c) (n ∷ ts) (λ y d. ground (arith, d)) far);
        resumes =
            All-append (Resumes m'.threads) ts (c ∷ [])
              (All-map (λ y. Apart c y × Resumes m.threads y) (Resumes m'.threads) ts
                (λ y e. ground (arith, e.0, e.1))
                (All-zip (Apart c) (Resumes m.threads) ts far.1 q.resumes.1))
              (ground arith, tt);
        below = (
          q.below.1.0,
          All-append (λ a. a + sizeof_thread ≤ m.next_heap) ts (c ∷ []) q.below.1.1 (q.below.0, tt),
        );
      })
