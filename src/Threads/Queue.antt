-- ===== src/Threads/Queue.antt =====
-- The circular list of the threads as a queue: the thread that runs, and the others in the order in
-- which they will.
use os_workshop.Base.{ℕ, ◌+◌, ◌≤◌, ◌≡◌, List, ◌∷◌, arith, ap, ◌∙◌}
use os_workshop.Threads.Machine.{Thread, Machine, Store, sizeof_thread}
use os_workshop.Threads.Ring.{All, All-map, All-zip, Linked-agree, AllApart, Linked}

abbrev pub next_in : Store → ℕ → ℕ
next_in s a = (s a).next

abbrev pub prev_in : Store → ℕ → ℕ
prev_in s a = (s a).prev

-- The thread pointer that a thread gets when it is resumed is its own address.
abbrev pub Resumes : Store → ℕ → Type 0
Resumes s a = (s a).ctxt.tp ≡ a

pub record IsQueue (m : Machine) (c : ℕ) (ts : List ℕ) : Type 0 where
  pub running : m.cpu.tp ≡ c
  pub ring : Linked (next_in m.threads) (prev_in m.threads) c ts c
  pub apart : AllApart (c ∷ ts)
  pub resumes : All (Resumes m.threads) ts
  pub below : All (λ a. a + sizeof_thread ≤ m.next_heap) (c ∷ ts)

-- A machine that agrees on the members has the same queue.
pub IsQueue-agree :
    (m m' : Machine) (c : ℕ) (ts : List ℕ)
    → IsQueue m c ts
    → m'.cpu.tp ≡ m.cpu.tp
    → All (λ y. m'.threads y ≡ m.threads y) (c ∷ ts)
    → m.next_heap ≤ m'.next_heap
    → IsQueue m' c ts
IsQueue-agree m m' c ts q tp same grows = record {
  running = tp ∙ q.running;
  ring =
      Linked-agree (next_in m.threads) (prev_in m.threads) (next_in m'.threads) (prev_in m'.threads)
        c ts c q.ring
        (All-map (λ y. m'.threads y ≡ m.threads y) (λ y. next_in m'.threads y ≡ next_in m.threads y)
          (c ∷ ts) (λ y e. ap (λ (t : Thread). t.next) e) same)
        (All-map (λ y. m'.threads y ≡ m.threads y) (λ y. prev_in m'.threads y ≡ prev_in m.threads y)
          ts (λ y e. ap (λ (t : Thread). t.prev) e) same.1)
        (ap (λ (t : Thread). t.prev) same.0);
  apart = q.apart;
  resumes =
      All-map (λ y. (m'.threads y ≡ m.threads y) × Resumes m.threads y) (Resumes m'.threads) ts
        (λ y e. ap (λ (t : Thread). t.ctxt.tp) e.0 ∙ e.1)
        (All-zip (λ y. m'.threads y ≡ m.threads y) (Resumes m.threads) ts same.1 q.resumes);
  below =
      All-map (λ a. a + sizeof_thread ≤ m.next_heap) (λ a. a + sizeof_thread ≤ m'.next_heap)
        (c ∷ ts) (λ y h. omega arith) q.below;
}
