-- ===== src/Threads/Stacks.antt =====
-- The stacks of the examples with threads lie above the heap with the threads.
use os_workshop.Base.{ℕ, ◌+◌, ◌≤◌, ◌≡◌, leb, ◌||◌, true, List, ◌∷◌, arith, ap}
use os_workshop.Threads.Machine.{Thread, Machine, Store, put, fill_threads, sizeof_thread}
use os_workshop.Threads.Ring.{All-map}
use os_workshop.Threads.Queue.{IsQueue, IsQueue-agree}

-- The threads below `lo` are the same.
abbrev pub Agree : (lo : ℕ) → (s s' : Store) → Type 0
Agree lo s s' = (y : ℕ) → y + sizeof_thread ≤ lo → s' y ≡ s y

pub put-Agree :
    (lo : ℕ) (s s' : Store) (t : ℕ) (f : Thread → Thread)
    → t + sizeof_thread ≤ lo
    → Agree lo s s'
    → Agree lo (put s t (f (s t))) (put s' t (f (s' t)))
put-Agree lo s s' t f room agree y below =
    let at = ap f (agree t room) in let there = agree y below in ground arith

-- What is written at `lo` or above leaves them.
pub fill_threads-Agree :
    (lo from n v : ℕ) (s s' : Store)
    → lo ≤ from
    → Agree lo s s'
    → Agree lo s (fill_threads from n v s')
unfolding fill_threads
fill_threads-Agree lo from n v s s' above agree y below =
    let out : (leb (y + sizeof_thread) from || leb (from + n) y) ≡ true = ground arith in
    rw out (agree y below)

-- A queue below `lo` is still there.
pub IsQueue-Agree :
    (m m' : Machine) (lo c : ℕ) (ts : List ℕ)
    → IsQueue m c ts
    → m'.cpu.tp ≡ m.cpu.tp
    → Agree lo m.threads m'.threads
    → m.next_heap ≤ lo
    → m'.next_heap ≡ m.next_heap
    → IsQueue m' c ts
IsQueue-Agree m m' lo c ts q tp agree low same =
    IsQueue-agree m m' c ts q tp
      (All-map (λ a. a + sizeof_thread ≤ m.next_heap) (λ y. m'.threads y ≡ m.threads y) (c ∷ ts)
        (λ y h. agree y (omega arith)) q.below)
      (omega arith)
