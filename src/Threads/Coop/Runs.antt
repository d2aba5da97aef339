-- ===== src/Threads/Coop/Runs.antt =====
-- Any sequence of the calls of the thread library, and turns.
use mathlib.Core.List.{append_assoc}
use os_workshop.Base.{
  ℕ, zero, suc, ◌+◌, ◌-◌, ◌*◌, ◌≤◌, ◌<◌, ◌^◌, ◌≡◌, List, [], ◌∷◌, ◌++◌, length, Option, none, some,
  arith, refl, sym, ◌>>=◌,
}
use mathlib.Core.Path.{subst}
use os_workshop.Threads.Machine.{Frame, Machine, boot, thread_init}
use os_workshop.Threads.Queue.{IsQueue}
use os_workshop.Threads.Switch.{rotated}
use os_workshop.Threads.Coop.{thread_create, thread_exit, yield}
use os_workshop.Threads.Coop.Refines.{
  thread_create_lem, thread_exit_last, thread_exit_next, yield-IsQueue,
}

-- What the thread that runs calls.
pub data Call : Type 0 where
  create : (fn arg : ℕ) → Call
  exit turn : Call

unfoldable pub run_calls : (context_entry : ℕ) → List Call → Machine → Option Machine
run_calls context_entry [] m = some m
run_calls context_entry (create fn arg ∷ calls) m =
    run_calls context_entry calls (thread_create context_entry m fn arg).1
run_calls context_entry (exit ∷ calls) m = do m' ← thread_exit m; run_calls context_entry calls m'
run_calls context_entry (turn ∷ calls) m = run_calls context_entry calls (yield m)

-- The threads as a queue, its head running, and where the next thread will stand.
pub record Queue : Type 0 where
  pub head : ℕ
  pub others : List ℕ
  pub heap : ℕ

-- `none` if no thread is left.
unfoldable pub run_queue : List Call → Queue → Option Queue
run_queue [] q = some q
run_queue (create fn arg ∷ calls) q =
    run_queue calls (record q { others = q.others ++ q.heap ∷ []; heap = q.heap + 96 })
run_queue (exit ∷ calls) q = elim q.others [
  | [] ↦ none
  | n ∷ ts ↦ run_queue calls (record q { head = n; others = ts })
]
run_queue (turn ∷ calls) q =
    run_queue calls
      (record q { head = (rotated q.head q.others).0; others = (rotated q.head q.others).1 })

abbrev pub creates : List Call → ℕ
creates [] = 0
creates (create fn arg ∷ calls) = suc (creates calls)
creates (exit ∷ calls) = creates calls
creates (turn ∷ calls) = creates calls

-- The machine stands for the queue.
abbrev pub StandsFor : Option Machine → Option Queue → Type 0
StandsFor none none = Unit
StandsFor none (some q) = ⊥
StandsFor (some m) none = ⊥
StandsFor (some m) (some q) =
    IsQueue m q.head q.others × (m.next_heap ≡ q.heap) × (m.next_heap ≤ m.next_stack)

run_calls-StandsFor :
    (context_entry : ℕ) (calls : List Call) (m : Machine) (c : ℕ) (ts : List ℕ)
    → IsQueue m c ts
    → m.next_heap + 8288 * creates calls ≤ m.next_stack
    → m.next_stack < 2 ^ 32
    → StandsFor
        (run_calls context_entry calls m)
        (run_queue calls (record { head = c; others = ts; heap = m.next_heap }))
unfolding run_calls run_queue
run_calls-StandsFor ce [] m c ts q room wraps = (q, refl, omega arith)
run_calls-StandsFor ce (create fn arg ∷ calls) m c ts q room wraps =
    let made = thread_create_lem ce m fn arg c ts q (omega arith) wraps in
    let m' = (thread_create ce m fn arg).1 in
    let grown = made.3 in
    let down = made.4 in
    let joined : IsQueue m' c (ts ++ m.next_heap ∷ []) =
      subst (λ t. IsQueue m' c (ts ++ t ∷ [])) made.0 made.1 in
    subst
      (λ h.
        StandsFor (run_calls ce calls m')
          (run_queue calls (record { head = c; others = ts ++ m.next_heap ∷ []; heap = h })))
      grown
      (run_calls-StandsFor ce calls m' c (ts ++ m.next_heap ∷ []) joined (omega arith)
        (omega arith))
run_calls-StandsFor ce (exit ∷ calls) m c [] q room wraps =
    subst (λ o. StandsFor (o >>= run_calls ce calls) none) (sym (thread_exit_last m c q)) tt
run_calls-StandsFor ce (exit ∷ calls) m c (n ∷ ts) q room wraps =
    let left = thread_exit_next m c n ts q in
    let m' = left.0 in
    let spec = λ (h : ℕ). run_queue calls (record { head = n; others = ts; heap = h }) in
    subst (λ o. StandsFor (o >>= run_calls ce calls) (spec m.next_heap)) (sym left.1)
      (subst (λ h. StandsFor (run_calls ce calls m') (spec h)) left.3
        (run_calls-StandsFor ce calls m' n ts left.2 (omega (arith, left.3, left.4))
          (omega (arith, left.4))))
run_calls-StandsFor ce (turn ∷ calls) m c ts q room wraps =
    let kept : (yield m).next_heap ≡ m.next_heap = unfold yield in refl in
    let kept_stack : (yield m).next_stack ≡ m.next_stack = unfold yield in refl in
    subst
      (λ h.
        StandsFor (run_calls ce calls (yield m)) (
          run_queue calls
            (record { head = (rotated c ts).0; others = (rotated c ts).1; heap = h })))
      kept
      (run_calls-StandsFor ce calls (yield m) (rotated c ts).0 (rotated c ts).1
        (yield-IsQueue m c ts q) (omega (arith, kept, kept_stack)) (omega (arith, kept_stack)))

abbrev pub first_threads : (thread0 : ℕ) → Frame → Machine
first_threads thread0 cpu = thread_init thread0 (boot thread0 cpu)

pub boot-IsQueue :
    (thread0 : ℕ) (cpu : Frame)
    → thread0 + 80 ≤ 0x40100000
    → IsQueue (first_threads thread0 cpu) thread0 []
boot-IsQueue thread0 cpu low = record {
  running = refl;
  ring = (ground arith, ground arith);
  apart = (tt, tt);
  resumes = tt;
  below = (omega arith, tt);
}

-- Whatever the threads call, as long as the threads that they make, of 96 bytes each, and two pages for
-- the stack of each fit between the heap and the top of the memory, the program keeps them as a queue: the one that runs makes new ones at the end, goes to the end when it gives up its
-- turn, and leaves its head when it exits; the program stops when the queue is empty.
pub run_lem :
    (context_entry thread0 : ℕ) (cpu : Frame) (calls : List Call)
    → thread0 + 80 ≤ 0x40100000
    → (96 + 8192) * creates calls ≤ 31 * 1024 * 1024 - 4096
    → StandsFor
        (run_calls context_entry calls (first_threads thread0 cpu))
        (run_queue calls (record { head = thread0; others = []; heap = 0x40100000 }))
run_lem context_entry thread0 cpu calls low room =
    run_calls-StandsFor context_entry calls (first_threads thread0 cpu) thread0 []
      (boot-IsQueue thread0 cpu low) (omega arith) (omega arith)

abbrev pub turns : ℕ → List Call
turns zero = []
turns (suc n) = turn ∷ turns n

-- The thread `d` runs when those before it have had their turns, and the order stays.
pub round_robin :
    (context_entry : ℕ) (m : Machine) (c : ℕ) (xs : List ℕ) (d : ℕ) (ys : List ℕ)
    → IsQueue m c (xs ++ d ∷ ys)
    → (m' : Machine) × (run_calls context_entry (turns (suc (length xs))) m ≡ some m')
      × IsQueue m' d (ys ++ c ∷ xs)
unfolding run_calls
round_robin ce m c [] d ys q = (yield m, refl, yield-IsQueue m c (d ∷ ys) q)
round_robin ce m c (x ∷ xs) d ys q =
    let turned = yield-IsQueue m c (x ∷ (xs ++ d ∷ ys)) q in
    let shifted : IsQueue (yield m) x (xs ++ d ∷ (ys ++ c ∷ [])) =
      subst (IsQueue (yield m) x) (append_assoc xs (d ∷ ys) (c ∷ [])) turned in
    let rest = round_robin ce (yield m) x xs d (ys ++ c ∷ []) shifted in
    (rest.0, rest.1, subst (IsQueue rest.0 d) (append_assoc ys (c ∷ []) (x ∷ xs)) rest.2)
