-- ===== src/Threads/Coop/Refines.antt =====
-- The cooperative threads against a queue.
use mathlib.Core.Path.{subst}
use os_workshop.Base.{
  ℕ, ◌+◌, ◌<◌, ◌≤◌, ◌^◌, ◌≡◌, List, [], ◌∷◌, ◌++◌, none, some, arith, refl, sym, ap, ◌∙◌, u32,
  sub32,
}
use os_workshop.Threads.Machine.{
  Store, Thread, Machine, threadptr_get, context_switch, link, put, fill_threads, zero_thread,
  unlink,
}
use os_workshop.Threads.Queue.{IsQueue, next_in, prev_in}
use os_workshop.Threads.Switch.{put_ctxt-next, put_ctxt-prev, put_ctxt-tp, rotated, switch_next}
use os_workshop.Threads.Changes.{link-IsQueue, unlink-IsQueue}
use os_workshop.Threads.Stacks.{Agree, put-Agree, fill_threads-Agree, IsQueue-Agree}
use os_workshop.Threads.Coop.{entry_frame, thread_create, thread_exit, yield}

-- The registers with which a thread starts are those that `context_entry` takes `fn(arg)` from.
pub record Starts (m : Machine) (t context_entry fn arg stack : ℕ) : Type 0 where
  pub entry : (m.threads t).ctxt.pc ≡ context_entry
  pub thunk : (m.threads t).ctxt.saved 2 ≡ fn
  pub argument : (m.threads t).ctxt.saved 0 ≡ arg
  pub stack_pointer : (m.threads t).ctxt.sp ≡ stack

-- With room for the thread and for two pages between the heap and the stacks, a new thread joins the
-- queue at its end, ready to call `fn(arg)` on a stack of its own, and the thread that makes it goes
-- on.
pub thread_create_lem :
    (context_entry : ℕ) (m : Machine) (fn arg c : ℕ) (ts : List ℕ)
    → IsQueue m c ts
    → m.next_heap + 96 + 8192 ≤ m.next_stack
    → m.next_stack < 2 ^ 32
    → (let r = thread_create context_entry m fn arg in
        (r.0 ≡ m.next_heap)
        × IsQueue r.1 c (ts ++ r.0 ∷ [])
        × Starts r.1 r.0 context_entry fn arg m.next_stack
        × (r.1.next_heap ≡ m.next_heap + 96)
        × (r.1.next_stack + 8192 ≡ m.next_stack))
unfolding thread_create
thread_create_lem context_entry m fn arg c ts q room wraps =
    let run = q.running in
    let t = m.next_heap in
    let id = m.next_thread_id in
    let m' = (thread_create context_entry m fn arg).1 in
    let lo = sub32 m.next_stack 8192 in
    let down : lo + 8192 ≡ m.next_stack = omega arith in
    let s = link (put m.threads t zero_thread) t (threadptr_get m) id in
    let same : s ≡ link (put m.threads t zero_thread) t c id =
      ap (λ k. link (put m.threads t zero_thread) t k id) run in
    let f = entry_frame (s t).ctxt context_entry t m.next_stack fn arg in
    let grown : u32 (t + 96) ≡ t + 96 = omega arith in
    let plain : Machine = record m' { threads = put s t (record (s t) { ctxt = f }) } in
    let agree : Agree lo plain.threads m'.threads =
      put-Agree lo s (fill_threads lo 4096 0xeeeeeeee s) t
        (λ x. record x { ctxt = entry_frame x.ctxt context_entry t m.next_stack fn arg })
        (omega arith)
        (fill_threads-Agree lo lo 4096 0xeeeeeeee s s (omega arith) (λ y below. refl)) in
    let there : m'.threads t ≡ plain.threads t = agree t (omega arith) in
    let joined : IsQueue plain c (ts ++ t ∷ []) =
      link-IsQueue m plain c id ts q run (λ y. put_ctxt-next s t f y ∙ ap (λ k. next_in k y) same)
        (λ y. put_ctxt-prev s t f y ∙ ap (λ k. prev_in k y) same)
        (λ y ne. put_ctxt-tp s t f y ne ∙ ap (λ (k : Store). (k y).ctxt.tp) same) (ground arith)
        (omega arith) in
    (
      refl,
      IsQueue-Agree plain m' lo c (ts ++ t ∷ []) joined refl agree (omega arith) refl,
      record {
        entry = ap (λ (x : Thread). x.ctxt.pc) there ∙ ground arith;
        thunk = ap (λ (x : Thread). x.ctxt.saved 2) there ∙ ground arith;
        argument = ap (λ (x : Thread). x.ctxt.saved 0) there ∙ ground arith;
        stack_pointer = ap (λ (x : Thread). x.ctxt.sp) there ∙ ground arith;
      },
      grown,
      down,
    )

pub thread_exit_last : (m : Machine) (c : ℕ) → IsQueue m c [] → thread_exit m ≡ none
unfolding thread_exit
thread_exit_last m c q =
    let run = q.running in let e : next_in m.threads c ≡ c = q.ring.0 in ground arith

pub thread_exit_next :
    (m : Machine) (c n : ℕ) (ts : List ℕ)
    → IsQueue m c (n ∷ ts)
    → (m' : Machine) × (thread_exit m ≡ some m')
      × IsQueue m' n ts
      × (m'.next_heap ≡ m.next_heap)
      × (m'.next_stack ≡ m.next_stack)
unfolding thread_exit
thread_exit_next m c n ts q =
    let run = q.running in
    let e : next_in m.threads c ≡ n = q.ring.0 in
    let far = q.apart.0.0 in
    (
      context_switch
          (record m { threads = unlink m.threads c (next_in m.threads c) (prev_in m.threads c) }) c
          (next_in m.threads c),
      ground arith,
      unlink-IsQueue m c n ts q,
      refl,
      refl,
    )

pub yield-IsQueue :
    (m : Machine) (c : ℕ) (ts : List ℕ)
    → IsQueue m c ts
    → IsQueue (yield m) (rotated c ts).0 (rotated c ts).1
unfolding yield
yield-IsQueue m c ts q =
    subst (λ k. IsQueue (context_switch m k (m.threads k).next) (rotated c ts).0 (rotated c ts).1)
      (sym q.running) (switch_next m c ts q)
