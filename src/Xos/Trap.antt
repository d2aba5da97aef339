-- ===== src/Xos/Trap.antt =====
-- `trap_entry`, `trap_exit` and the system calls of xos/src/entry.S, instruction by instruction. The C
-- functions that it calls are parameters.
pub mod Frame
pub mod Returns
use os_workshop.Base.{
  ℕ, ◌+◌, ◌-◌, ◌^◌, ◌%◌, ◌==◌, ltb, if◌then◌else◌, Bool, true, false, Option, none, some, List, [],
  ◌∷◌, ◌++◌, u32,
}

-- The general registers by their numbers, the control registers of traps, and the aligned words of memory.
pub record Hart : Type 0 where
  pub regs : ℕ → ℕ
  pub sepc : ℕ
  pub sscratch : ℕ
  pub scause : ℕ
  pub words : ℕ → ℕ

abbrev pub ra : ℕ
ra = 1

abbrev pub sp : ℕ
sp = 2

abbrev pub gp : ℕ
gp = 3

abbrev pub tp : ℕ
tp = 4

abbrev pub t0 : ℕ
t0 = 5

abbrev pub t1 : ℕ
t1 = 6

abbrev pub t2 : ℕ
t2 = 7

abbrev pub a0 : ℕ
a0 = 10

-- A change of one register or word.
abbrev pub set : (ℕ → ℕ) → (at value : ℕ) → ℕ → ℕ
set f at value x = if x == at then value else f x

-- The instructions that are used here; a memory access is relative to sp.
pub data Instr : Type 0 where
  swap_sp_sscratch csrw_sscratch_tp csrw_sepc_t1 : Instr
  addi : (rd rs imm : ℕ) → Instr
  li : (rd imm : ℕ) → Instr
  sw lw : (r offset : ℕ) → Instr
  csrr_sepc csrr_sscratch csrr_scause : (rd : ℕ) → Instr

abbrev pub exec : Instr → Hart → Hart
exec swap_sp_sscratch h = record h { regs = set h.regs sp h.sscratch; sscratch = h.regs sp }
exec csrw_sscratch_tp h = record h { sscratch = h.regs tp }
exec csrw_sepc_t1 h = record h { sepc = h.regs t1 }
exec (addi rd rs imm) h = record h { regs = set h.regs rd (u32 (h.regs rs + imm)) }
exec (li rd imm) h = record h { regs = set h.regs rd imm }
exec (sw r offset) h = record h { words = set h.words (u32 (h.regs sp + offset)) (h.regs r) }
exec (lw r offset) h = record h { regs = set h.regs r (h.words (u32 (h.regs sp + offset))) }
exec (csrr_sepc rd) h = record h { regs = set h.regs rd h.sepc }
exec (csrr_sscratch rd) h = record h { regs = set h.regs rd h.sscratch }
exec (csrr_scause rd) h = record h { regs = set h.regs rd h.scause }

abbrev pub run : List Instr → Hart → Hart
run [] h = h
run (i ∷ is) h = run is (exec i h)

-- An immediate in two's complement.
abbrev pub minus : ℕ → ℕ
minus n = 2 ^ 32 - n

-- ra, t0 to t6 and a0 to a7, as `move` stores or loads them.
abbrev pub caller_saved : (move : ℕ → ℕ → Instr) → List Instr
caller_saved move =
    move 1 0x00
    ∷ move 5 0x04
    ∷ move 6 0x08
    ∷ move 7 0x0C
    ∷ move 28 0x10
    ∷ move 29 0x14
    ∷ move 30 0x18
    ∷ move 31 0x1C
    ∷ move 10 0x20
    ∷ move 11 0x24
    ∷ move 12 0x28
    ∷ move 13 0x2C
    ∷ move 14 0x30
    ∷ move 15 0x34
    ∷ move 16 0x38
    ∷ move 17 0x3C
    ∷ []

-- gp, tp and s0 to s11.
abbrev pub callee_saved : (move : ℕ → ℕ → Instr) → List Instr
callee_saved move =
    move 3 0x48
    ∷ move 4 0x4C
    ∷ move 8 0x50
    ∷ move 9 0x54
    ∷ move 18 0x58
    ∷ move 19 0x5C
    ∷ move 20 0x60
    ∷ move 21 0x64
    ∷ move 22 0x68
    ∷ move 23 0x6C
    ∷ move 24 0x70
    ∷ move 25 0x74
    ∷ move 26 0x78
    ∷ move 27 0x7C
    ∷ []

abbrev pub trap_entry : List Instr
trap_entry =
    (swap_sp_sscratch ∷ addi sp sp (minus 128) ∷ [])
    ++ caller_saved sw
    ++ (csrr_sepc t1 ∷ csrr_sscratch t2 ∷ sw t1 0x40 ∷ sw t2 0x44 ∷ [])
    ++ callee_saved sw
    ++ (addi tp sp 128 ∷ csrr_scause t1 ∷ [])

abbrev pub trap_exit : List Instr
trap_exit =
    (csrw_sscratch_tp ∷ [])
    ++ callee_saved lw
    ++ (lw t1 0x40 ∷ csrw_sepc_t1 ∷ [])
    ++ caller_saved lw
    ++ (lw sp 0x44 ∷ [])

abbrev pub exc_ecall_umode : ℕ
exc_ecall_umode = 8

abbrev pub syscall_count : ℕ
syscall_count = 3

abbrev pub xos_err_bad_syscall : ℕ
xos_err_bad_syscall = 0x46

-- Behind a function of the table: the result, and the address of the next instruction.
abbrev pub syscall_return : List Instr
syscall_return = sw a0 0x20 ∷ lw t0 0x40 ∷ addi t0 t0 4 ∷ sw t0 0x40 ∷ []

abbrev pub illegal_syscall : List Instr
illegal_syscall = li t0 xos_err_bad_syscall ∷ sw t0 0x20 ∷ []

-- `sys n` is the function of the table, none if it does not return. The temporaries in which the cause is
-- compared and the table is looked up are left out: no C function reads them.
module _ (sys : ℕ → Hart → Option Hart) (interrupt_handler : Hart → Hart) where
  unfoldable pub syscall_entry : Hart → Option Hart
  syscall_entry h =
      if ltb (h.regs t0) syscall_count
      then elim (sys (h.regs t0) h) [
        | none ↦ none
        | some h' ↦ some (run trap_exit (run syscall_return h'))
      ]
      else some (run trap_exit (run illegal_syscall h))

  -- A trap up to `sret`; exception_handler does not return.
  unfoldable pub trap : Hart → Option Hart
  unfolding syscall_entry
  trap h =
      let entered = run trap_entry h in
      if ltb h.scause (2 ^ 31)
      then (if h.scause % 256 == exc_ecall_umode then syscall_entry entered else none)
      else some (run trap_exit (interrupt_handler entered))
