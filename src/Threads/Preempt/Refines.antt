-- ===== src/Threads/Preempt/Refines.antt =====
-- The preemptive threads against a queue.
use os_workshop.Base.{
  ℕ, ◌+◌, ◌<◌, ◌≤◌, ◌^◌, ◌≡◌, ◌⊎◌, inl, inr, ◌==◌, if◌then◌else◌, Bool, true, false, List, [], ◌∷◌,
  ◌++◌, none, some, arith, refl, sym, ap, ◌∙◌, u32, sub32,
}
use mathlib.Core.Path.{subst}
use os_workshop.Threads.Machine.{
  Frame, Machine, Store, put, zero_thread, link, unlink, context_switch, threadptr_get,
}
use os_workshop.Threads.Queue.{IsQueue, next_in, prev_in, Resumes}
use os_workshop.Threads.Switch.{rotated, switch_next}
use os_workshop.Threads.Changes.{link-IsQueue, unlink-IsQueue}
use os_workshop.Threads.Stacks.{IsQueue-Agree}
use os_workshop.Threads.Preempt.Framed.{
  Enters, alone, framed, framed-Agree, alone-next, alone-prev, alone-tp, alone-Resumes,
  framed-Enters, framed-cpu, framed-heap, framed-stack,
}
use os_workshop.Threads.Preempt.Atomic.{thread_create_atomic, thread_exit_atomic}
use os_workshop.Threads.Preempt.{
  Core, Running, Stmt, run_stmts, link_stmts, frame_stmts, exit_stmts, leave_stmts, interrupt,
  thread_create, thread_exit, begin, irq_disable, irq_enable,
}

Enters-irq_enable :
    (c : Core) (t trap_exit thread_exit_at fn arg stack : ℕ)
    → Enters c t trap_exit thread_exit_at fn arg stack
    → Enters (irq_enable c) t trap_exit thread_exit_at fn arg stack
Enters-irq_enable c t trap_exit thread_exit_at fn arg stack e = record {
  resume = e.resume;
  stack_pointer = e.stack_pointer;
  entry = e.entry;
  argument = e.argument;
  return_to = e.return_to;
}

run_stmts-append :
    (ss ts : List Stmt) (r : Running)
    → run_stmts (ss ++ ts) [] r ≡ run_stmts ts [] (run_stmts ss [] r)
unfolding run_stmts
run_stmts-append [] ts r = refl
run_stmts-append (s ∷ ss) ts r = run_stmts-append ss ts (s r)

-- The first half is `link` at the address of the new thread.
module _ (c : Core) where
  abbrev joined : Running
  joined = run_stmts link_stmts [] (begin c)

  joined-threads :
      joined.core.machine.threads
      ≡ link
          (put c.machine.threads c.machine.next_heap zero_thread)
          c.machine.next_heap
          (threadptr_get c.machine)
          c.machine.next_thread_id
  unfolding run_stmts link_stmts link
  joined-threads = refl

  joined-t : joined.t ≡ c.machine.next_heap
  unfolding run_stmts link_stmts
  joined-t = refl

  joined-cpu : joined.core.machine.cpu ≡ c.machine.cpu
  unfolding run_stmts link_stmts
  joined-cpu = refl

  joined-stack : joined.core.machine.next_stack ≡ c.machine.next_stack
  unfolding run_stmts link_stmts
  joined-stack = refl

  joined-heap : joined.core.machine.next_heap ≡ u32 (c.machine.next_heap + 96)
  unfolding run_stmts link_stmts
  joined-heap = refl

module _ (trap_exit thread_exit_at fn arg : ℕ) (c : Core) (h : ℕ) (ts : List ℕ)
    (q : IsQueue c.machine h ts) (room : c.machine.next_heap + 96 + 4096 ≤ c.machine.next_stack)
    (wraps : c.machine.next_stack < 2 ^ 32) where
  abbrev half : Running
  half = joined (irq_disable c)

  half-stack : half.core.machine.next_stack ≡ c.machine.next_stack
  half-stack = joined-stack (irq_disable c)

  half-t : half.t ≡ c.machine.next_heap
  half-t = joined-t (irq_disable c)

  half-high : 4096 ≤ half.core.machine.next_stack
  half-high = omega (arith, half-stack)

  half-wraps : half.core.machine.next_stack < 2 ^ 32
  half-wraps = omega (arith, half-stack)

  half-room : half.t + 80 ≤ sub32 half.core.machine.next_stack 4096
  half-room = omega (arith, half-stack, half-t)

  abbrev all_ : Running
  all_ = framed trap_exit thread_exit_at fn arg half half-high half-wraps half-room

  all_-heap : all_.core.machine.next_heap ≡ c.machine.next_heap + 96
  all_-heap =
      framed-heap trap_exit thread_exit_at fn arg half half-high half-wraps half-room
      ∙ joined-heap (irq_disable c)
      ∙ omega arith

  all_-stack : all_.core.machine.next_stack + 4096 ≡ c.machine.next_stack
  all_-stack = omega (
    arith,
    half-stack,
    framed-stack trap_exit thread_exit_at fn arg half half-high half-wraps half-room,
  )

  framed-IsQueue : IsQueue all_.core.machine h (ts ++ c.machine.next_heap ∷ [])
  framed-IsQueue =
      let a = c.machine.next_heap in
      let id = c.machine.next_thread_id in
      let s = alone trap_exit thread_exit_at fn arg half half-high half-wraps half-room in
      let cpu =
        framed-cpu trap_exit thread_exit_at fn arg half half-high half-wraps half-room
        ∙ joined-cpu (irq_disable c) in
      let same : half.core.machine.threads ≡ link (put c.machine.threads a zero_thread) a h id =
        joined-threads (irq_disable c)
        ∙ ap (λ k. link (put c.machine.threads a zero_thread) a k id) q.running in
      let plain : Machine = record all_.core.machine { threads = s } in
      let joined : IsQueue plain h (ts ++ a ∷ []) =
        link-IsQueue c.machine plain h id ts q (ap (λ (f : Frame). f.tp) cpu ∙ q.running)
          (λ y.
            alone-next trap_exit thread_exit_at fn arg half half-high half-wraps half-room y
            ∙ ap (λ s. next_in s y) same)
          (λ y.
            alone-prev trap_exit thread_exit_at fn arg half half-high half-wraps half-room y
            ∙ ap (λ s. prev_in s y) same)
          (λ y ne.
            alone-tp trap_exit thread_exit_at fn arg half half-high half-wraps half-room y
              (λ e. ne (e ∙ half-t))
            ∙ ap (λ (s : Store). (s y).ctxt.tp) same)
          (subst (Resumes s) half-t
            (alone-Resumes trap_exit thread_exit_at fn arg half half-high half-wraps half-room))
          (omega (arith, all_-heap)) in
      IsQueue-Agree plain all_.core.machine (sub32 half.core.machine.next_stack 4096) h
        (ts ++ a ∷ []) joined refl
        (framed-Agree trap_exit thread_exit_at fn arg half half-high half-wraps half-room)
        (omega (arith, all_-heap, half-stack)) refl

  created : (thread_create trap_exit thread_exit_at [] fn arg c).1 ≡ irq_enable all_.core
  unfolding thread_create
  created =
      ap (λ (r : Running). irq_enable r.core)
        (run_stmts-append link_stmts (frame_stmts trap_exit thread_exit_at fn arg)
          (begin (irq_disable c)))

  created-Enters :
      Enters all_.core c.machine.next_heap trap_exit thread_exit_at fn arg c.machine.next_stack
  created-Enters =
      subst (λ a. Enters all_.core a trap_exit thread_exit_at fn arg c.machine.next_stack) half-t
        (subst (Enters all_.core half.t trap_exit thread_exit_at fn arg) half-stack
          (framed-Enters trap_exit thread_exit_at fn arg half half-high half-wraps half-room))

-- Whenever the timer interrupt arrives, with room for the thread and for a page between the heap and
-- the stacks, a new thread joins the queue at its end, with a trap frame that leads into `fn(arg)` and
-- then into `thread_exit`, and interrupts are enabled again; the heap and the stacks have grown by
-- these.
pub thread_create-Enters :
    (trap_exit thread_exit_at : ℕ) (arrivals : List Bool) (fn arg : ℕ) (c : Core) (h : ℕ)
    (ts : List ℕ)
    → IsQueue c.machine h ts
    → c.machine.next_heap + 96 + 4096 ≤ c.machine.next_stack
    → c.machine.next_stack < 2 ^ 32
    → (let r = thread_create trap_exit thread_exit_at arrivals fn arg c in
        IsQueue r.1.machine h (ts ++ c.machine.next_heap ∷ [])
        × Enters r.1 c.machine.next_heap trap_exit thread_exit_at fn arg c.machine.next_stack
        × (r.1.sie ≡ true)
        × (r.1.machine.next_heap ≡ c.machine.next_heap + 96)
        × (r.1.machine.next_stack + 4096 ≡ c.machine.next_stack))
thread_create-Enters trap_exit thread_exit_at arrivals fn arg c h ts q room wraps =
    let out = λ (k : Core).
      IsQueue k.machine h (ts ++ c.machine.next_heap ∷ [])
      × Enters k c.machine.next_heap trap_exit thread_exit_at fn arg c.machine.next_stack
      × (k.sie ≡ true)
      × (k.machine.next_heap ≡ c.machine.next_heap + 96)
      × (k.machine.next_stack + 4096 ≡ c.machine.next_stack) in
    let made = created trap_exit thread_exit_at fn arg c h ts q room wraps in
    let undisturbed =
      ap (λ (r : ℕ × Core). r.1)
        (thread_create_atomic trap_exit thread_exit_at arrivals fn arg c) in
    subst out (sym (undisturbed ∙ made)) (
      framed-IsQueue trap_exit thread_exit_at fn arg c h ts q room wraps,
      Enters-irq_enable (all_ trap_exit thread_exit_at fn arg c h ts q room wraps).core
          c.machine.next_heap trap_exit thread_exit_at fn arg c.machine.next_stack
          (created-Enters trap_exit thread_exit_at fn arg c h ts q room wraps),
      refl,
      all_-heap trap_exit thread_exit_at fn arg c h ts q room wraps,
      all_-stack trap_exit thread_exit_at fn arg c h ts q room wraps,
    )

pub interrupt-IsQueue :
    (c : Core) (h : ℕ) (ts : List ℕ)
    → IsQueue c.machine h ts
    → IsQueue (interrupt c).machine (rotated h ts).0 (rotated h ts).1
unfolding interrupt
interrupt-IsQueue c h ts q =
    subst
      (λ k.
        IsQueue (context_switch c.machine k (c.machine.threads k).next) (rotated h ts).0
          (rotated h ts).1)
      (sym q.running) (switch_next c.machine h ts q)

exit_plain :
    (c : Core)
    → (let m = c.machine in
        let current = threadptr_get m in
        thread_exit [] [] c ≡ (
          if next_in m.threads current == current
          then none
          else some (record c {
            machine =
                context_switch
                  (record m {
                    threads =
                        unlink m.threads current
                          (next_in m.threads current)
                          (prev_in m.threads current);
                  })
                  current
                  (next_in m.threads current);
            sie = true;
            spie = true;
            spp = false;
          })))
unfolding thread_exit run_stmts exit_stmts leave_stmts unlink
exit_plain c = refl

-- Whenever the timer interrupt arrives during `thread_exit`, the running thread leaves the queue,
-- and the next one runs with interrupts enabled; with no other thread the program stops.
pub thread_exit_lem :
    (arrivals arrivals' : List Bool) (c : Core) (h : ℕ) (ts : List ℕ)
    → IsQueue c.machine h ts
    → ((ts ≡ []) × (thread_exit arrivals arrivals' c ≡ none))
      ⊎ ((n : ℕ) × (us : List ℕ) × (c' : Core) × (ts ≡ n ∷ us)
          × (thread_exit arrivals arrivals' c ≡ some c')
          × IsQueue c'.machine n us
          × (c'.sie ≡ true)
          × (c'.machine.next_heap ≡ c.machine.next_heap)
          × (c'.machine.next_stack ≡ c.machine.next_stack))
thread_exit_lem arrivals arrivals' c h [] q =
    let run = q.running in
    let e : next_in c.machine.threads h ≡ h = q.ring.0 in
    inl (refl, thread_exit_atomic arrivals arrivals' c ∙ exit_plain c ∙ ground arith)
thread_exit_lem arrivals arrivals' c h (n ∷ us) q =
    let run = q.running in
    let e : next_in c.machine.threads h ≡ n = q.ring.0 in
    let far = q.apart.0.0 in
    let m = c.machine in
    inr (
      n,
      us,
      record c {
        machine =
            context_switch
              (record m {
                threads = unlink m.threads h (next_in m.threads h) (prev_in m.threads h);
              })
              h (next_in m.threads h);
        sie = true;
        spie = true;
        spp = false;
      },
      refl,
      thread_exit_atomic arrivals arrivals' c ∙ exit_plain c ∙ ground arith,
      unlink-IsQueue m h n us q,
      refl,
      refl,
      refl,
    )
