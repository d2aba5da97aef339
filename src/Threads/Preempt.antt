-- ===== src/Threads/Preempt.antt =====
-- The preemptive threads of example/ex11-threads-preemptive.c. A function is the list of its
-- statements between irq_disable and irq_enable; a schedule says before which of them the timer
-- interrupt arrives.
pub mod Atomic
pub mod Framed
pub mod Refines
pub mod Schedule
use os_workshop.Base.{
  ℕ, ◌+◌, ◌*◌, ◌==◌, leb, ltb, if◌then◌else◌, ◌&&◌, ◌||◌, Bool, true, false, List, [], ◌∷◌, ◌++◌,
  Option, none, some, u32, sub32,
}
use os_workshop.Threads.Machine.{
  Frame, Thread, Machine, Store, put, word_over, fill_threads, set_next, set_prev, sizeof_thread,
  thread_magic, context_switch, threadptr_get, alloc,
}

-- tframe_t, with t0 to t6 and a1 to a7 as `others`.
pub record TrapFrame : Type 0 where
  pub ra : ℕ
  pub a0 : ℕ
  pub pc : ℕ
  pub others : ℕ → ℕ

-- Twenty words.
abbrev pub sizeof_frame : ℕ
sizeof_frame = 80

-- What is written from `from` on goes over the trap frames that stand there.
unfoldable pub fill_frames : (from n v : ℕ) → (ℕ → TrapFrame) → ℕ → TrapFrame
fill_frames from n v frames a =
    let f = frames a in
    let over = word_over from n v in
    if leb (a + sizeof_frame) from || leb (from + n) a then f else record {
      ra = over a f.ra;
      a0 = over (a + 32) f.a0;
      pc = over (a + 64) f.pc;
      others = λ i.
          if ltb i 7
          then over (a + 4 + 4 * i) (f.others i)
          else if ltb i 14
          then over (a + 8 + 4 * i) (f.others i)
          else f.others i;
    }

-- The machine, the bits SIE, SPIE and SPP of sstatus, and the trap frames in memory. What is written
-- through a pointer to a trap frame or a stack goes over threads and frames, but a change of a thread
-- leaves the frames.
pub record Core : Type 0 where
  pub machine : Machine
  pub sie : Bool
  pub spie : Bool
  pub spp : Bool
  pub frames : ℕ → TrapFrame

abbrev pub irq_disable : Core → Core
irq_disable c = record c { sie = false }

abbrev pub irq_enable : Core → Core
irq_enable c = record c { sie = true }

-- The processor takes a trap in supervisor mode; `sret` at the end of `trap_exit`.
abbrev pub trap : Core → Core
trap c = record c { sie = false; spie = c.sie; spp = true }

abbrev pub sret : Core → Core
sret c = record c { sie = c.spie; spie = true; spp = false }

-- `pending` is timer_rd(EV_PENDING).
unfoldable pub interrupt_handler : (pending : Bool) → Core → Core
interrupt_handler pending c =
    let current = threadptr_get c.machine in
    if pending
    then record c { machine = context_switch c.machine current (c.machine.threads current).next }
    else c

-- trap_entry and trap_exit around the handler.
unfoldable pub interrupt : Core → Core
unfolding interrupt_handler
interrupt c = sret (interrupt_handler true (trap c))

-- A function in progress, with its local variables.
pub record Running : Type 0 where
  pub core : Core
  pub current : ℕ
  pub t : ℕ
  pub next : ℕ
  pub prev : ℕ
  pub frame : ℕ

abbrev pub Stmt : Type 0
Stmt = Running → Running

-- The timer interrupt is taken if it arrives while SIE is set.
abbrev pub deliver : (arrives : Bool) → Running → Running
deliver arrives r = record r { core = if arrives && r.core.sie then interrupt r.core else r.core }

unfoldable pub run_stmts : List Stmt → (arrivals : List Bool) → Running → Running
run_stmts [] arrivals r = r
run_stmts (s ∷ ss) [] r = run_stmts ss [] (s r)
run_stmts (s ∷ ss) (a ∷ as_) r = run_stmts ss as_ (s (deliver a r))

abbrev pub on_machine : (Machine → Machine) → Running → Running
on_machine f r = record r { core = record r.core { machine = f r.core.machine } }

abbrev pub on_threads : (Store → Store) → Running → Running
on_threads f = on_machine (λ m. record m { threads = f m.threads })

abbrev pub on_ctxt : ℕ → (Frame → Frame) → Running → Running
on_ctxt t f = on_threads (λ s. put s t (record (s t) { ctxt = f (s t).ctxt }))

-- Stores and `memset` through a pointer, which go over what stands there.
abbrev pub write_memory : (from n v : ℕ) → Running → Running
write_memory from n v r =
    let r = on_threads (fill_threads from n v) r in
    record r { core = record r.core { frames = fill_frames from n v r.core.frames } }

abbrev pub zero_frame : TrapFrame
zero_frame = record { ra = 0; a0 = 0; pc = 0; others = λ i. 0 }

abbrev pub begin : Core → Running
begin c = record { core = c; current = 0; t = 0; next = 0; prev = 0; frame = 0 }

-- `thread_create` up to the list, and from there.
unfoldable pub link_stmts : List Stmt
link_stmts =
    (λ (r : Running). record r { current = threadptr_get r.core.machine })
    ∷ (λ (r : Running).
        let p = alloc r.core.machine sizeof_thread in
        record r { t = p.0; core = record r.core { machine = p.1 } })
    ∷ (λ (r : Running). on_threads (λ s. put s r.t (record (s r.t) { magic = thread_magic })) r)
    ∷ (λ (r : Running).
        let id = r.core.machine.next_thread_id in
        on_machine
          (λ m. record m {
            threads = put m.threads r.t (record (m.threads r.t) { id = id });
            next_thread_id = u32 (id + 1);
          })
          r)
    ∷ (λ (r : Running). on_threads (λ s. set_next s r.t r.current) r)
    ∷ (λ (r : Running). on_threads (λ s. set_prev s r.t (s r.current).prev) r)
    ∷ (λ (r : Running). on_threads (λ s. set_next s (s r.t).prev r.t) r)
    ∷ (λ (r : Running). on_threads (λ s. set_prev s (s r.t).next r.t) r)
    ∷ []

-- The addresses of the two functions.
module _ (trap_exit thread_exit_at : ℕ) where
  unfoldable pub frame_stmts : (fn arg : ℕ) → List Stmt
  frame_stmts fn arg =
      (λ (r : Running). on_ctxt r.t (λ f. record f { tp = r.t }) r)
      ∷ (λ (r : Running).
          let sp = r.core.machine.next_stack in
          let next_stack = sub32 sp 4096 in
          on_ctxt r.t (λ f. record f { sp = sp })
            (write_memory next_stack 4096 0xeeeeeeee
              (on_machine (λ m. record m { next_stack = next_stack }) r)))
      ∷ (λ (r : Running). on_ctxt r.t (λ f. record f { pc = trap_exit }) r)
      ∷ (λ (r : Running). on_ctxt r.t (λ f. record f { sp = sub32 f.sp 128 }) r)
      ∷ (λ (r : Running). record r { frame = (r.core.machine.threads r.t).ctxt.sp })
      ∷ (λ (r : Running). write_memory r.frame sizeof_frame 0 r)
      ∷ (λ (r : Running). write_memory r.frame 4 thread_exit_at r)
      ∷ (λ (r : Running). write_memory (r.frame + 32) 4 arg r)
      ∷ (λ (r : Running). write_memory (r.frame + 64) 4 fn r)
      ∷ []

  unfoldable pub thread_create : (arrivals : List Bool) → (fn arg : ℕ) → Core → ℕ × Core
  thread_create arrivals fn arg c =
      let r = run_stmts (link_stmts ++ frame_stmts fn arg) arrivals (begin (irq_disable c)) in
      (r.t, irq_enable r.core)

unfoldable pub exit_stmts : List Stmt
exit_stmts =
    (λ (r : Running). record r { core = record r.core { spp = true; spie = true } })
    ∷ (λ (r : Running). record r { current = threadptr_get r.core.machine })
    ∷ (λ (r : Running). record r { next = (r.core.machine.threads r.current).next })
    ∷ (λ (r : Running). record r { prev = (r.core.machine.threads r.current).prev })
    ∷ []

unfoldable pub leave_stmts : List Stmt
leave_stmts =
    (λ (r : Running). on_threads (λ s. set_prev s r.next r.prev) r)
    ∷ (λ (r : Running). on_threads (λ s. set_next s r.prev r.next) r)
    ∷ (λ (r : Running). on_threads (λ s. set_prev s r.current 0) r)
    ∷ (λ (r : Running). on_threads (λ s. set_next s r.current 0) r)
    ∷ (λ (r : Running). on_machine (λ m. context_switch m r.current r.next) r)
    ∷ []

-- The core in the next thread, which goes on in `trap_exit`; `none` stands for the endless loop when
-- there is none.
unfoldable pub thread_exit : (arrivals arrivals' : List Bool) → Core → Option Core
thread_exit arrivals arrivals' c =
    let r = run_stmts exit_stmts arrivals (begin (irq_disable c)) in
    if r.next == r.current then none else some (sret (run_stmts leave_stmts arrivals' r).core)
