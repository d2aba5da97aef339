-- ===== src/Threads/Preempt/Schedule.antt =====
-- The preemptive threads under any order of their calls and of timer interrupts.
use os_workshop.Base.{
  ℕ, ◌+◌, ◌-◌, ◌*◌, ◌≤◌, ◌≡◌, inl, inr, Bool, true, false, List, [], ◌∷◌, ◌++◌, Option, none, some,
  arith, refl, sym, ◌∙◌,
}
use mathlib.Core.Path.{subst}
use os_workshop.Threads.Machine.{Frame}
use os_workshop.Threads.Queue.{IsQueue}
use os_workshop.Threads.Switch.{rotated}
use os_workshop.Threads.Coop.Runs.{first_threads, boot-IsQueue}
use os_workshop.Threads.Preempt.{
  Core, zero_frame, interrupt, interrupt_handler, thread_create, thread_exit,
}
use os_workshop.Threads.Preempt.Refines.{thread_create-Enters, thread_exit_lem, interrupt-IsQueue}

-- The timer may interrupt the running thread wherever interrupts are enabled, also within its calls.
pub data Step (trap_exit thread_exit_at : ℕ) (c : Core) : Core → Type 0 where
  create :
      (arrivals : List Bool) (fn arg : ℕ)
      → Step trap_exit thread_exit_at c (thread_create trap_exit thread_exit_at arrivals fn arg c).1
  exit :
      (arrivals arrivals' : List Bool) {c' : Core}
      → thread_exit arrivals arrivals' c ≡ some c'
      → Step trap_exit thread_exit_at c c'
  tick : c.sie ≡ true → Step trap_exit thread_exit_at c (interrupt c)

pub data Reach (trap_exit thread_exit_at : ℕ) (c : Core) : Core → Type 0 where
  here : Reach trap_exit thread_exit_at c c
  later :
      {d e : Core}
      → Reach trap_exit thread_exit_at c d
      → Step trap_exit thread_exit_at d e
      → Reach trap_exit thread_exit_at c e

abbrev made_by : {trap_exit thread_exit_at : ℕ} {c d : Core} → Step trap_exit thread_exit_at c d → ℕ
made_by (create arrivals fn arg) = 1
made_by (exit arrivals arrivals' left) = 0
made_by (tick on) = 0

-- How many threads are made.
abbrev pub creates :
    {trap_exit thread_exit_at : ℕ} {c d : Core} → Reach trap_exit thread_exit_at c d → ℕ
creates here = 0
creates (later r s) = made_by s + creates r

-- The threads that are left form a queue whose head runs, and `n` threads have been made.
abbrev HasQueue : (n : ℕ) → Core → Type 0
HasQueue n c =
    (h : ℕ) × (ts : List ℕ) × IsQueue c.machine h ts
    × (c.machine.next_heap ≡ 0x40100000 + 96 * n)
    × (c.machine.next_stack + 4096 * n ≡ 0x41fff000)

none-ne-some : {c : Core} → ◌≡◌ {A = Option Core} none (some c) → ⊥
none-ne-some e = cc

some_inj : {c d : Core} → some c ≡ some d → c ≡ d
some_inj e = cc

Step-HasQueue :
    {trap_exit thread_exit_at : ℕ} {c d : Core} (s : Step trap_exit thread_exit_at c d) (n : ℕ)
    → (96 + 4096) * (made_by s + n) ≤ 31 * 1024 * 1024 - 4096
    → HasQueue n c
    → HasQueue (made_by s + n) d
Step-HasQueue {trap_exit} {thread_exit_at} {c} (create arrivals fn arg) n room
      (h, ts, q, heap, stack) =
    let (q', _, _, heap', stack') =
      thread_create-Enters trap_exit thread_exit_at arrivals fn arg c h ts q
        (omega (arith, heap, stack)) (omega (arith, stack)) in
    (
      h,
      ts ++ c.machine.next_heap ∷ [],
      q',
      omega (arith, heap, heap'),
      omega (arith, stack, stack'),
    )
Step-HasQueue {c = c} {d = d} (exit arrivals arrivals' left) n room (h, ts, q, heap, stack) =
    elim (thread_exit_lem arrivals arrivals' c h ts q) [
      | inl (_, stopped) ↦ absurd (none-ne-some (sym stopped ∙ left))
      | inr (next, us, c', _, gone, q', _, heap', stack') ↦
          let same : c' ≡ d = some_inj (sym gone ∙ left) in
          subst (HasQueue (0 + n)) same
            (next, us, q', omega (arith, heap, heap'), omega (arith, stack, stack'))
    ]
Step-HasQueue {c = c} (tick on) n room (h, ts, q, heap, stack) = (
  (rotated h ts).0,
  (rotated h ts).1,
  interrupt-IsQueue c h ts q,
  unfold interrupt interrupt_handler in omega (arith, heap),
  unfold interrupt interrupt_handler in omega (arith, stack),
)

-- Before `start` calls anything.
abbrev pub first_core : (thread0 : ℕ) → Frame → Core
first_core thread0 cpu = record {
  machine = first_threads thread0 cpu;
  sie = false;
  spie = false;
  spp = false;
  frames = λ a. zero_frame;
}

Reach-HasQueue :
    {trap_exit thread_exit_at : ℕ} {c d : Core} (r : Reach trap_exit thread_exit_at c d)
    → (96 + 4096) * creates r ≤ 31 * 1024 * 1024 - 4096
    → HasQueue 0 c
    → HasQueue (creates r) d
Reach-HasQueue here room q = q
Reach-HasQueue (later r s) room q =
    Step-HasQueue s (creates r) room (Reach-HasQueue r (omega arith) q)

-- In whatever order threads are made, exit and are interrupted, also while they make threads or
-- exit, as long as the threads that are made, of 96 bytes each, and a page for the stack of each fit
-- between the heap and the top of the memory, the circular list stays whole: it holds the threads that
-- are left, the one that runs first, and each of them is resumed with its own thread pointer.
pub Reach-IsQueue :
    (trap_exit thread_exit_at thread0 : ℕ) (cpu : Frame) (c : Core)
    → thread0 + 80 ≤ 0x40100000
    → (r : Reach trap_exit thread_exit_at (first_core thread0 cpu) c)
    → (96 + 4096) * creates r ≤ 31 * 1024 * 1024 - 4096
    → (h : ℕ) × (ts : List ℕ) × IsQueue c.machine h ts
Reach-IsQueue trap_exit thread_exit_at thread0 cpu c low r room =
    let (h, ts, q, _, _) =
      Reach-HasQueue r room (thread0, [], boot-IsQueue thread0 cpu low, refl, refl) in
    (h, ts, q)
