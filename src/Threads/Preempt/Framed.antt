-- ===== src/Threads/Preempt/Framed.antt =====
-- The second half of `thread_create` of example/ex11-threads-preemptive.c: the stack and the trap frame of
-- the new thread.
use os_workshop.Base.{ℕ, ◌+◌, ◌<◌, ◌≤◌, ◌^◌, ◌≡◌, ◌≢◌, [], arith, refl, sym, ap, ◌∙◌, sub32}
use mathlib.Core.Path.{subst}
use os_workshop.Threads.Machine.{Frame, Thread, Store, put, fill_threads}
use os_workshop.Threads.Queue.{next_in, prev_in, Resumes}
use os_workshop.Threads.Stacks.{Agree, put-Agree, fill_threads-Agree}
use os_workshop.Threads.Preempt.{
  TrapFrame, Core, Running, sizeof_frame, fill_frames, run_stmts, frame_stmts,
}

-- The trap frame from which `trap_exit` returns into a new thread: into `fn(arg)`, and from there
-- into `thread_exit`.
pub record Enters (c : Core) (t trap_exit thread_exit_at fn arg stack : ℕ) : Type 0 where
  pub resume : (c.machine.threads t).ctxt.pc ≡ trap_exit
  pub stack_pointer : (c.machine.threads t).ctxt.sp ≡ sub32 stack 128
  pub entry : (c.frames (sub32 stack 128)).pc ≡ fn
  pub argument : (c.frames (sub32 stack 128)).a0 ≡ arg
  pub return_to : (c.frames (sub32 stack 128)).ra ≡ thread_exit_at

-- The second half of `thread_create`, of a thread below the new end of the stacks.
module _ (trap_exit thread_exit_at fn arg : ℕ) (r : Running)
    (stack : 4096 ≤ r.core.machine.next_stack) (wraps : r.core.machine.next_stack < 2 ^ 32)
    (room : r.t + 80 ≤ sub32 r.core.machine.next_stack 4096) where
  abbrev s0 : Store
  s0 = r.core.machine.threads

  abbrev end_ : ℕ
  end_ = sub32 r.core.machine.next_stack 4096

  abbrev frame_at : ℕ
  frame_at = sub32 r.core.machine.next_stack 128

  abbrev on : (Frame → Frame) → Store → Store
  on f s = put s r.t (record (s r.t) { ctxt = f (s r.t).ctxt })

  -- What it does to the new thread alone.
  abbrev pub alone : Store
  alone =
      on (λ f. record f { sp = sub32 f.sp 128 })
        (on (λ f. record f { pc = trap_exit })
          (on (λ f. record f { sp = r.core.machine.next_stack })
            (on (λ f. record f { tp = r.t }) s0)))

  -- With the page that is filled.
  abbrev paged : Store
  paged =
      on (λ f. record f { sp = sub32 f.sp 128 })
        (on (λ f. record f { pc = trap_exit })
          (on (λ f. record f { sp = r.core.machine.next_stack })
            (fill_threads end_ 4096 0xeeeeeeee (on (λ f. record f { tp = r.t }) s0))))

  on-Agree : (f : Frame → Frame) (s s' : Store) → Agree end_ s s' → Agree end_ (on f s) (on f s')
  on-Agree f s s' = put-Agree end_ s s' r.t (λ x. record x { ctxt = f x.ctxt }) room

  paged-Agree : Agree end_ alone paged
  paged-Agree =
      let s1 = on (λ f. record f { tp = r.t }) s0 in
      let s2 = fill_threads end_ 4096 0xeeeeeeee s1 in
      let g2 = λ (f : Frame). record f { sp = r.core.machine.next_stack } in
      let g3 = λ (f : Frame). record f { pc = trap_exit } in
      on-Agree (λ f. record f { sp = sub32 f.sp 128 }) (on g3 (on g2 s1)) (on g3 (on g2 s2))
        (on-Agree g3 (on g2 s1) (on g2 s2) (
          on-Agree g2 s1 s2
            (fill_threads-Agree end_ end_ 4096 0xeeeeeeee s1 s1 (omega arith) (λ y below. refl))))

  paged-sp : (paged r.t).ctxt.sp ≡ frame_at
  paged-sp = ap (λ (x : Thread). x.ctxt.sp) (paged-Agree r.t room) ∙ ground arith

  abbrev pub framed : Running
  framed = run_stmts (frame_stmts trap_exit thread_exit_at fn arg) [] r

  abbrev filled : (frame : ℕ) → Store
  filled frame = fill_threads (frame + 64) 4 fn (
      fill_threads (frame + 32) 4 arg
        (fill_threads frame 4 thread_exit_at (fill_threads frame sizeof_frame 0 paged)))

  framed-threads : framed.core.machine.threads ≡ filled frame_at
  unfolding run_stmts frame_stmts
  framed-threads = ap filled paged-sp

  pub framed-Agree : Agree end_ alone framed.core.machine.threads
  framed-Agree =
      let at = frame_at in
      let above : end_ ≤ at = omega arith in
      let s1 = fill_threads at sizeof_frame 0 paged in
      let s2 = fill_threads at 4 thread_exit_at s1 in
      let s3 = fill_threads (at + 32) 4 arg s2 in
      subst (Agree end_ alone) (sym framed-threads) (
        fill_threads-Agree end_ (at + 64) 4 fn alone s3 (omega arith) (
          fill_threads-Agree end_ (at + 32) 4 arg alone s2 (omega arith) (
            fill_threads-Agree end_ at 4 thread_exit_at alone s1 above
              (fill_threads-Agree end_ at sizeof_frame 0 alone paged above paged-Agree))))

  pub alone-next : (y : ℕ) → next_in alone y ≡ next_in s0 y
  alone-next y = ground arith

  pub alone-prev : (y : ℕ) → prev_in alone y ≡ prev_in s0 y
  alone-prev y = ground arith

  pub alone-tp : (y : ℕ) → y ≢ r.t → (alone y).ctxt.tp ≡ (s0 y).ctxt.tp
  alone-tp y ne = ground arith

  pub alone-Resumes : Resumes alone r.t
  alone-Resumes = ground arith

  abbrev frames_at : (frame : ℕ) → ℕ → TrapFrame
  frames_at frame = fill_frames (frame + 64) 4 fn (
      fill_frames (frame + 32) 4 arg (
        fill_frames frame 4 thread_exit_at
          (fill_frames frame sizeof_frame 0 (fill_frames end_ 4096 0xeeeeeeee r.core.frames))))

  framed-frames : framed.core.frames ≡ frames_at frame_at
  unfolding run_stmts frame_stmts
  framed-frames = ap frames_at paged-sp

  pub framed-Enters :
      Enters framed.core r.t trap_exit thread_exit_at fn arg r.core.machine.next_stack
  unfolding fill_frames
  framed-Enters =
      let there = framed-Agree r.t room in
      let frame = ap (λ (g : ℕ → TrapFrame). g frame_at) framed-frames in
      record {
        resume = ap (λ (x : Thread). x.ctxt.pc) there ∙ ground arith;
        stack_pointer = ap (λ (x : Thread). x.ctxt.sp) there ∙ ground arith;
        entry = ap (λ (f : TrapFrame). f.pc) frame ∙ ground arith;
        argument = ap (λ (f : TrapFrame). f.a0) frame ∙ ground arith;
        return_to = ap (λ (f : TrapFrame). f.ra) frame ∙ ground arith;
      }

  pub framed-cpu : framed.core.machine.cpu ≡ r.core.machine.cpu
  unfolding run_stmts frame_stmts
  framed-cpu = refl

  pub framed-heap : framed.core.machine.next_heap ≡ r.core.machine.next_heap
  unfolding run_stmts frame_stmts
  framed-heap = refl

  pub framed-stack : framed.core.machine.next_stack ≡ end_
  unfolding run_stmts frame_stmts
  framed-stack = refl
