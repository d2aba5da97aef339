-- ===== src/Threads/Changes.antt =====
-- What the new thread and the thread that leaves do to a queue.
use os_workshop.Base.{ℕ, ◌+◌, ◌≤◌, ◌≡◌, ◌≢◌, inl, List, [], ◌∷◌, ◌++◌, arith, ap, ◌∙◌}
use os_workshop.Threads.Machine.{
  Frame, Thread, Machine, put, zero_thread, context_switch, link, unlink, sizeof_thread,
}
use os_workshop.Threads.Ring.{
  All, All-append, All-map, All-zip, All-of, Linked-agree, Apart, AllApart-snoc, last_of,
  All-last_of, Linked, Linked-ends,
}
use os_workshop.Threads.Queue.{next_in, prev_in, Resumes, IsQueue}
use os_workshop.Threads.Links.{link-Linked, unlink-Linked, ctxt-link, ctxt-unlink}
use os_workshop.Threads.Switch.{switch_out}

-- The machine after `link` at the address that `alloc` hands out, up to what it does not read.
pub link-IsQueue :
    (m m' : Machine) (c id : ℕ) (ts : List ℕ)
    → IsQueue m c ts
    → (let t = m.next_heap in
        let s = link (put m.threads t zero_thread) t c id in
        m'.cpu.tp ≡ c
        → ((y : ℕ) → next_in m'.threads y ≡ next_in s y)
        → ((y : ℕ) → prev_in m'.threads y ≡ prev_in s y)
        → ((y : ℕ) → y ≢ t → (m'.threads y).ctxt.tp ≡ (s y).ctxt.tp)
        → Resumes m'.threads t
        → t + sizeof_thread ≤ m'.next_heap
        → IsQueue m' c (ts ++ t ∷ []))
link-IsQueue m m' c id ts q running nexts prevs tps resumes grown =
    let t = m.next_heap in
    let s0 = put m.threads t zero_thread in
    let s = link s0 t c id in
    let far : All (λ x. Apart x t) (c ∷ ts) =
      All-map (λ a. a + sizeof_thread ≤ t) (λ x. Apart x t) (c ∷ ts) (λ y h. inl h) q.below in
    let c_far = far.0 in
    let p = last_of c ts in
    let ep : prev_in s0 c ≡ p =
      let ends = (Linked-ends (next_in m.threads) (prev_in m.threads) c ts c q.ring).1 in
      ground arith in
    let last_far : Apart p t = All-last_of (λ x. Apart x t) c ts far.0 far.1 in
    let ring0 : Linked (next_in s0) (prev_in s0) c ts c =
      Linked-agree (next_in m.threads) (prev_in m.threads) (next_in s0) (prev_in s0) c ts c q.ring
        (All-map (λ x. Apart x t) (λ y. next_in s0 y ≡ next_in m.threads y) (c ∷ ts)
          (λ y d. ground (arith, d)) far)
        (All-map (λ x. Apart x t) (λ y. prev_in s0 y ≡ prev_in m.threads y) ts
          (λ y d. ground (arith, d)) far.1)
        (ground arith) in
    let ring1 = link-Linked s0 t c id ts ring0 q.apart far in
    record {
      running = running;
      ring =
          Linked-agree (next_in s) (prev_in s) (next_in m'.threads) (prev_in m'.threads) c
            (ts ++ t ∷ []) c ring1
            (All-of (λ y. next_in m'.threads y ≡ next_in s y) (c ∷ (ts ++ t ∷ [])) nexts)
            (All-of (λ y. prev_in m'.threads y ≡ prev_in s y) (ts ++ t ∷ []) prevs) (prevs c);
      apart = AllApart-snoc (c ∷ ts) t q.apart far;
      resumes =
          All-append (Resumes m'.threads) ts (t ∷ [])
            (All-map (λ x. Apart x t × Resumes m.threads x) (Resumes m'.threads) ts
              (λ y e.
                let d = e.0 in
                let ne : y ≢ t = ground arith in
                let same = ctxt-link s0 t c id p ep (ground arith) (ground arith) y in
                let kept : s0 y ≡ m.threads y = ground arith in
                tps y ne
                ∙ ap (λ (f : Frame). f.tp) same
                ∙ ap (λ (x : Thread). x.ctxt.tp) kept
                ∙ e.1)
              (All-zip (λ x. Apart x t) (Resumes m.threads) ts far.1 q.resumes))
            (resumes, tt);
      below =
          All-append (λ a. a + sizeof_thread ≤ m'.next_heap) (c ∷ ts) (t ∷ [])
            (All-map (λ a. a + sizeof_thread ≤ t) (λ a. a + sizeof_thread ≤ m'.next_heap) (c ∷ ts)
              (λ y h. omega arith) q.below)
            (grown, tt);
    }

-- The running thread leaves, and the next one runs.
pub unlink-IsQueue :
    (m : Machine) (c n : ℕ) (ts : List ℕ)
    → IsQueue m c (n ∷ ts)
    → IsQueue
        (context_switch
          (record m { threads = unlink m.threads c (next_in m.threads c) (prev_in m.threads c) })
          c
          (next_in m.threads c))
        n
        ts
unlink-IsQueue m c n ts q =
    let e : next_in m.threads c ≡ n = q.ring.0 in
    let p = last_of n ts in
    let ep : prev_in m.threads c ≡ p =
      (Linked-ends (next_in m.threads) (prev_in m.threads) n ts c q.ring.2).1 in
    let far = q.apart.0 in
    let first_far = far.0 in
    let last_far : Apart c p = All-last_of (Apart c) n ts far.0 far.1 in
    let s = unlink m.threads c n p in
    let m' = record m { threads = s } in
    let kept = ctxt-unlink m.threads c n p (ground arith) (ground arith) in
    rw (e, ep)
      (switch_out m' c n ts (unlink-Linked m.threads c n ts q.ring.2 q.apart) q.apart.1 far
        (All-map (Resumes m.threads) (Resumes s) (n ∷ ts)
          (λ y r. ap (λ (f : Frame). f.tp) (kept y) ∙ r) q.resumes)
        q.below.1)
