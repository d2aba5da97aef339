-- ===== src/Threads/Coop.antt =====
-- The cooperative threads of example/ex10-threads-cooperative.c.
pub mod Refines
pub mod Runs
use os_workshop.Base.{ℕ, ◌==◌, if◌then◌else◌, Option, none, some, u32, sub32, ◌+◌}
use os_workshop.Threads.Machine.{
  Frame, Thread, Machine, Store, put, fill_threads, sizeof_thread, context_switch, threadptr_get,
  alloc, link, unlink,
}

-- A page for the stack, and one below it, which `memset` fills.
abbrev pub alloc_stack : Machine → ℕ × Machine
alloc_stack m =
    let next_stack = sub32 m.next_stack 8192 in
    (
      m.next_stack,
      record m {
        threads = fill_threads next_stack 4096 0xeeeeeeee m.threads;
        next_stack = next_stack;
      },
    )

-- The registers with which a new thread starts in `context_entry`.
abbrev pub entry_frame : Frame → (context_entry t sp fn arg : ℕ) → Frame
entry_frame f context_entry t sp fn arg = record f {
  tp = t;
  sp = sp;
  saved = λ i. if i == 0 then arg else if i == 1 then 0 else if i == 2 then fn else f.saved i;
  pc = context_entry;
}

unfoldable pub thread_create : (context_entry : ℕ) → Machine → (fn arg : ℕ) → ℕ × Machine
thread_create context_entry m fn arg =
    let current = threadptr_get m in
    let (t, m) = alloc m sizeof_thread in
    let id = m.next_thread_id in
    let m = record m { threads = link m.threads t current id } in
    let (sp, m) = alloc_stack m in
    let s = m.threads in
    let ctxt = entry_frame (s t).ctxt context_entry t sp fn arg in
    (
      t,
      record m { threads = put s t (record (s t) { ctxt = ctxt }); next_thread_id = u32 (id + 1) },
    )

-- The machine in the next thread; `none` stands for the endless loop when there is none.
unfoldable pub thread_exit : Machine → Option Machine
thread_exit m =
    let current = threadptr_get m in
    let next = (m.threads current).next in
    let prev = (m.threads current).prev in
    if next == current
    then none
    else some
        (context_switch (record m { threads = unlink m.threads current next prev }) current next)

unfoldable pub yield : Machine → Machine
yield m = let current = threadptr_get m in context_switch m current (m.threads current).next
