-- ===== src/Tests/ThreadsTests.antt =====
-- The threads of the examples at concrete inputs.
use os_workshop.Base.{ℕ, ◌+◌, ◌≡◌, refl, List, [], ◌∷◌, ◌++◌, arith, some, suc, length}
use os_workshop.Threads.Machine.{Frame, Machine}
use os_workshop.Threads.Queue.{IsQueue}
use os_workshop.Threads.Coop.{thread_create}
use os_workshop.Threads.Coop.Refines.{Starts, thread_create_lem}
use os_workshop.Threads.Coop.Runs.{
  Call, create, exit, turn, run_calls, run_queue, StandsFor, first_threads, boot-IsQueue, run_lem,
  turns, round_robin,
}

abbrev some_frame : Frame
some_frame = record { pc = 0; sp = 0x41fff000; gp = 0; tp = 0; saved = λ i. 0 }

-- As `start` does, with two threads, and a turn of the first.
abbrev some_calls : List Call
some_calls = create 0x40000100 7 ∷ create 0x40000200 8 ∷ exit ∷ turn ∷ []

abbrev started : Machine
started = first_threads 0x40002000 some_frame

run_lem_example :
    StandsFor
      (run_calls 0x40000400 some_calls started)
      (run_queue some_calls (record { head = 0x40002000; others = []; heap = 0x40100000 }))
run_lem_example = run_lem 0x40000400 0x40002000 some_frame some_calls (omega arith) (omega arith)

some_calls_queue :
    run_queue some_calls (record { head = 0x40002000; others = []; heap = 0x40100000 })
    ≡ some (record { head = 0x40100060; others = 0x40100000 ∷ []; heap = 0x401000c0 })
unfolding run_queue
some_calls_queue = refl

one_more :
    (let r = thread_create 0x40000400 started 0x40000100 7 in
      (r.0 ≡ 0x40100000)
      × IsQueue r.1 0x40002000 ([] ++ r.0 ∷ [])
      × Starts r.1 r.0 0x40000400 0x40000100 7 0x41fff000
      × (r.1.next_heap ≡ 0x40100000 + 96)
      × (r.1.next_stack + 8192 ≡ 0x41fff000))
one_more =
    thread_create_lem 0x40000400 started 0x40000100 7 0x40002000 []
      (boot-IsQueue 0x40002000 some_frame (omega arith)) (omega arith) (omega arith)

round_robin_example :
    (m' : Machine) × (run_calls 0x40000400
        (turns (suc (length {A = ℕ} [])))
        (thread_create 0x40000400 started 0x40000100 7).1
      ≡ some m')
    × IsQueue m' 0x40100000 ([] ++ 0x40002000 ∷ [])
unfolding thread_create
round_robin_example =
    round_robin 0x40000400 (thread_create 0x40000400 started 0x40000100 7).1 0x40002000 []
      0x40100000 [] one_more.1
