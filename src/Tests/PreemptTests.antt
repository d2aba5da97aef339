-- ===== src/Tests/PreemptTests.antt =====
-- The preemptive threads at concrete inputs.
use os_workshop.Base.{ℕ, ◌+◌, ◌≡◌, true, false, List, [], ◌∷◌, ◌++◌, arith}
use os_workshop.Threads.Machine.{Frame}
use os_workshop.Threads.Queue.{IsQueue}
use os_workshop.Threads.Coop.Runs.{boot-IsQueue}
use os_workshop.Threads.Preempt.{Core, interrupt, thread_create}
use os_workshop.Threads.Preempt.Atomic.{thread_create_atomic}
use os_workshop.Threads.Preempt.Framed.{Enters}
use os_workshop.Threads.Preempt.Refines.{thread_create-Enters}
use os_workshop.Threads.Preempt.Schedule.{
  Reach, here, later, create, tick, first_core, Reach-IsQueue,
}

abbrev some_frame : Frame
some_frame = record { pc = 0; sp = 0x41fff000; gp = 0; tp = 0; saved = λ i. 0 }

abbrev first : Core
first = first_core 0x40002000 some_frame

abbrev made : Core
made = (thread_create 0x40000500 0x40000600 (true ∷ false ∷ true ∷ []) 0x40000100 7 first).1

thread_create_atomic_example :
    thread_create 0x40000500 0x40000600 (true ∷ false ∷ true ∷ []) 0x40000100 7 first
    ≡ thread_create 0x40000500 0x40000600 [] 0x40000100 7 first
thread_create_atomic_example =
    thread_create_atomic 0x40000500 0x40000600 (true ∷ false ∷ true ∷ []) 0x40000100 7 first

thread_create-Enters_example :
    IsQueue made.machine 0x40002000 ([] ++ 0x40100000 ∷ [])
    × Enters made 0x40100000 0x40000500 0x40000600 0x40000100 7 0x41fff000
    × (made.sie ≡ true)
    × (made.machine.next_heap ≡ 0x40100000 + 96)
    × (made.machine.next_stack + 4096 ≡ 0x41fff000)
thread_create-Enters_example =
    thread_create-Enters 0x40000500 0x40000600 (true ∷ false ∷ true ∷ []) 0x40000100 7 first
      0x40002000 [] (boot-IsQueue 0x40002000 some_frame (omega arith)) (omega arith) (omega arith)

reached : Reach 0x40000500 0x40000600 first (interrupt made)
reached = later (later here (create (true ∷ false ∷ true ∷ []) 0x40000100 7)) (
    tick
      (thread_create-Enters 0x40000500 0x40000600 (true ∷ false ∷ true ∷ []) 0x40000100 7 first
        0x40002000 [] (boot-IsQueue 0x40002000 some_frame (omega arith)) (omega arith)
        (omega arith)).2)

Reach-IsQueue_example : (h : ℕ) × (ts : List ℕ) × IsQueue (interrupt made).machine h ts
Reach-IsQueue_example =
    Reach-IsQueue 0x40000500 0x40000600 0x40002000 some_frame (interrupt made) (omega arith) reached
      (unfold reached in omega arith)
