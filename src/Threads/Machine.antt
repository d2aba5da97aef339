-- ===== src/Threads/Machine.antt =====
-- The structures of the threads, the memory that they stand in, and `context_switch`.
use os_workshop.Base.{ℕ, ◌+◌, ◌-◌, ◌*◌, ◌/◌, ◌==◌, leb, ltb, ◌&&◌, ◌||◌, if◌then◌else◌, u32}

-- cframe_t: the registers that a call keeps; `saved i` is s0 to s11, and `pc` holds ra.
pub record Frame : Type 0 where
  pub pc : ℕ
  pub sp : ℕ
  pub gp : ℕ
  pub tp : ℕ
  pub saved : ℕ → ℕ

-- thread_t
pub record Thread : Type 0 where
  pub magic : ℕ
  pub id : ℕ
  pub next : ℕ
  pub prev : ℕ
  pub ctxt : Frame

abbrev pub Store : Type 0
Store = ℕ → Thread

-- Sixteen words and 16 bytes.
abbrev pub sizeof_thread : ℕ
sizeof_thread = 80

abbrev pub thread_magic : ℕ
thread_magic = 0x5c95bec3

-- The threads in memory, the registers of the processor, and the statics.
pub record Machine : Type 0 where
  pub threads : Store
  pub cpu : Frame
  pub next_thread_id : ℕ
  pub next_stack : ℕ
  pub next_heap : ℕ

abbrev pub zero_thread : Thread
zero_thread = record {
  magic = 0;
  id = 0;
  next = 0;
  prev = 0;
  ctxt = record { pc = 0; sp = 0; gp = 0; tp = 0; saved = λ i. 0 };
}

abbrev pub put : Store → ℕ → Thread → Store
put s a t j = if j == a then t else s j

-- A word at `p` after the `n` bytes from `from` were written, with `v` as their words.
abbrev pub word_over : (from n v p old : ℕ) → ℕ
word_over from n v p old = if leb from p && ltb p (from + n) then v else old

-- What is written from `from` on, which `memset` does to a stack, goes over the threads that stand there.
unfoldable pub fill_threads : (from n v : ℕ) → Store → Store
fill_threads from n v s a =
    let t = s a in
    let over = word_over from n v in
    if leb (a + sizeof_thread) from || leb (from + n) a then t else record {
      magic = over a t.magic;
      id = over (a + 4) t.id;
      next = over (a + 8) t.next;
      prev = over (a + 12) t.prev;
      ctxt = record {
        pc = over (a + 16) t.ctxt.pc;
        sp = over (a + 20) t.ctxt.sp;
        gp = over (a + 24) t.ctxt.gp;
        tp = over (a + 28) t.ctxt.tp;
        saved = λ i. if ltb i 12 then over (a + 32 + 4 * i) (t.ctxt.saved i) else t.ctxt.saved i;
      };
    }

abbrev pub set_next : Store → ℕ → ℕ → Store
set_next s a v = put s a (record (s a) { next = v })

abbrev pub set_prev : Store → ℕ → ℕ → Store
set_prev s a v = put s a (record (s a) { prev = v })

-- `context_switch(&from->ctxt, &to->ctxt)` of hw/src/context-switch.S.
abbrev pub context_switch : Machine → (from to : ℕ) → Machine
context_switch m from to =
    let s = put m.threads from (record (m.threads from) { ctxt = m.cpu }) in
    record m { threads = s; cpu = (s to).ctxt }

-- threadptr_get
abbrev pub threadptr_get : Machine → ℕ
threadptr_get m = m.cpu.tp

-- (sz + 31) & (~31)
abbrev pub round32 : ℕ → ℕ
round32 sz = u32 (sz + 31) / 32 * 32

-- `alloc`: the thread that would stand in the cleared memory has only zeros.
abbrev pub alloc : Machine → (sz : ℕ) → ℕ × Machine
alloc m sz =
    let ptr = m.next_heap in
    (ptr, record m { threads = put m.threads ptr zero_thread; next_heap = u32 (ptr + round32 sz) })

-- The new thread's fields, and its place before the current one.
unfoldable pub link : Store → (t current id : ℕ) → Store
link s t current id =
    let s = put s t (record (s t) { magic = thread_magic }) in
    let s = put s t (record (s t) { id = id }) in
    let s = set_next s t current in
    let s = set_prev s t (s current).prev in
    let s = set_next s (s t).prev t in set_prev s (s t).next t

-- `thread_exit` takes the current thread out of the list.
unfoldable pub unlink : Store → (current next prev : ℕ) → Store
unlink s current next prev =
    let s = set_prev s next prev in
    let s = set_next s prev next in let s = set_prev s current 0 in set_next s current 0

-- The statics at the start, with `thread0` the address of the first thread.
abbrev pub boot : (thread0 : ℕ) → (cpu : Frame) → Machine
boot thread0 cpu = record {
  threads =
      put (λ a. zero_thread) thread0
        (record zero_thread { magic = thread_magic; next = thread0; prev = thread0 });
  cpu = cpu;
  next_thread_id = 1;
  next_stack = 0x40000000 + 32 * 1024 * 1024 - 4096;
  next_heap = 0x40000000 + 1024 * 1024;
}

abbrev pub thread_init : (thread0 : ℕ) → Machine → Machine
thread_init thread0 m = record m { cpu = record m.cpu { tp = thread0 } }
