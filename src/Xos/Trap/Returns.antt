-- ===== src/Xos/Trap/Returns.antt =====
-- What a user program finds when a trap returns to it, by xos/src/entry.S.
use os_workshop.Base.{
  ℕ, ◌+◌, ◌^◌, ◌%◌, ◌≤◌, ◌<◌, ◌≡◌, ◌==◌, ltb, ltb→lt, le_of_ltb-false, ==_iff, Bool-cases,
  if◌then◌else◌, Option, some, none, ◌⊎◌, inl, inr, List, [], ◌∷◌, ◌++◌, arith, refl, ap, ◌∙◌, sym,
  u32,
}
use mathlib.Core.Path.{subst}
use os_workshop.Xos.Trap.{
  Hart, set, run, trap_entry, trap_exit, syscall_return, illegal_syscall, syscall_entry, trap, sp,
  tp, t0, syscall_count, exc_ecall_umode, xos_err_bad_syscall,
}
use os_workshop.Xos.Trap.Frame.{
  Slot, Holds, Holds-split, temporaries, arguments, preserved, Increases, slots, frame_at, updated,
  stored-Holds, Holds-updated, Holds-kept,
}

-- What a C function keeps of its caller's registers, and that it leaves the frame alone.
pub record Keeps (h h' : Hart) : Type 0 where
  pub stack : h'.regs sp ≡ h.regs sp
  pub thread : h'.regs tp ≡ h.regs tp
  pub frame : (i : ℕ) → i < 128 → h'.words (u32 (h.regs sp + i)) ≡ h.words (u32 (h.regs sp + i))

abbrev SameRegs : List ℕ → (f g : ℕ → ℕ) → Type 0
SameRegs [] f g = Unit
SameRegs (r ∷ rs) f g = (f r ≡ g r) × SameRegs rs f g

-- The user goes on at `pc` with `result` in a0, and all else as it was; the next trap finds the same
-- kernel stack.
pub record Returns (h : Hart) (result pc : ℕ) (h' : Hart) : Type 0 where
  pub temporaries : SameRegs (1 ∷ 5 ∷ 6 ∷ 7 ∷ 28 ∷ 29 ∷ 30 ∷ 31 ∷ []) h'.regs h.regs
  pub arguments : SameRegs (11 ∷ 12 ∷ 13 ∷ 14 ∷ 15 ∷ 16 ∷ 17 ∷ []) h'.regs h.regs
  pub preserved :
      SameRegs
        (2 ∷ 3 ∷ 4 ∷ 8 ∷ 9 ∷ 18 ∷ 19 ∷ 20 ∷ 21 ∷ 22 ∷ 23 ∷ 24 ∷ 25 ∷ 26 ∷ 27 ∷ [])
        h'.regs
        h.regs
  pub answer : h'.regs 10 ≡ result
  pub at : h'.sepc ≡ pc
  pub stack : h'.sscratch ≡ h.sscratch

-- The frame with a result and an address.
abbrev answered : Hart → (result pc : ℕ) → List Slot
answered h result pc = updated 0x40 pc (updated 0x20 result (slots h))

slots-Increases : (h : Hart) → Increases 0 (slots h)
slots-Increases h = omega arith

updated-Increases : (h : Hart) (result : ℕ) → Increases 0 (updated 0x20 result (slots h))
updated-Increases h result = omega arith

trap_exit-Returns :
    (h f : Hart) (result pc : ℕ)
    → h.sscratch < 2 ^ 32
    → f.regs sp ≡ frame_at h
    → f.regs tp ≡ u32 (frame_at h + 128)
    → Holds (f.regs sp) (answered h result pc) f.words
    → Returns h result pc (run trap_exit f)
trap_exit-Returns h f result pc small at_sp at_tp held =
    let (temps, (answer, behind)) =
      Holds-split (f.regs sp) (temporaries h)
        (record { offset = 0x20; value = result }
          ∷ (arguments h ++ record { offset = 0x40; value = pc } ∷ preserved h))
        f.words held in
    let (args, (at, kept)) =
      Holds-split (f.regs sp) (arguments h) (record { offset = 0x40; value = pc } ∷ preserved h)
        f.words behind in
    record {
      temporaries = temps;
      arguments = args;
      preserved = kept;
      answer = answer;
      at = at;
      stack = at_tp ∙ omega arith;
    }

none-some : {f : Hart} → ¬ ◌≡◌ {A = Option Hart} none (some f)
none-some e = cc

some-injective : {f g : Hart} → ◌≡◌ {A = Option Hart} (some f) (some g) → f ≡ g
some-injective e = cc

-- How a trap came back to the user.
abbrev pub Interrupted : (h h' : Hart) → Type 0
Interrupted h h' = (2 ^ 31 ≤ h.scause) × Returns h (h.regs 10) h.sepc h'

abbrev pub Called : (sys : ℕ → Hart → Option Hart) → (h h' : Hart) → Type 0
Called sys h h' =
    (h.scause % 256 ≡ exc_ecall_umode)
    × (h.regs t0 < syscall_count)
    × (f : Hart) × (sys (h.regs t0) (run trap_entry h) ≡ some f)
    × Returns h (f.regs 10) (u32 (h.sepc + 4)) h'

abbrev pub Refused : (h h' : Hart) → Type 0
Refused h h' =
    (h.scause % 256 ≡ exc_ecall_umode)
    × (syscall_count ≤ h.regs t0)
    × Returns h xos_err_bad_syscall h.sepc h'

module _ (sys : ℕ → Hart → Option Hart) (interrupt_handler : Hart → Hart) (h : Hart)
    (small : h.sscratch < 2 ^ 32) where
  abbrev entered : Hart
  entered = run trap_entry h

  entered-Holds : Holds (frame_at h) (slots h) entered.words
  entered-Holds = stored-Holds (frame_at h) 0 (slots h) h.words (slots-Increases h)

  -- Behind a function that keeps what it must.
  kept-Holds : (f : Hart) → Keeps entered f → Holds (frame_at h) (slots h) f.words
  kept-Holds f k =
      Holds-kept (frame_at h) 0 (slots h) entered.words f.words (slots-Increases h) k.frame
        entered-Holds

  exits :
      (f : Hart) (result pc : ℕ)
      → f.regs sp ≡ frame_at h
      → f.regs tp ≡ u32 (frame_at h + 128)
      → Holds (frame_at h) (answered h result pc) f.words
      → Returns h result pc (run trap_exit f)
  exits f result pc at_sp at_tp held =
      trap_exit-Returns h f result pc small at_sp at_tp
        (subst (λ s. Holds s (answered h result pc) f.words) (sym at_sp) held)

  interrupt-Returns : (f : Hart) → Keeps entered f → Returns h (h.regs 10) h.sepc (run trap_exit f)
  interrupt-Returns f k = exits f (h.regs 10) h.sepc k.stack k.thread (kept-Holds f k)

  illegal-Returns :
      Returns h xos_err_bad_syscall h.sepc (run trap_exit (run illegal_syscall entered))
  illegal-Returns = exits (run illegal_syscall entered) xos_err_bad_syscall h.sepc refl refl (
      Holds-updated (frame_at h) 0 0x20 xos_err_bad_syscall (slots h) entered.words (omega arith)
        (slots-Increases h) entered-Holds)

  syscall-Returns :
      (f : Hart)
      → Keeps entered f
      → Returns h (f.regs 10) (u32 (h.sepc + 4)) (run trap_exit (run syscall_return f))
  syscall-Returns f k =
      let s = f.regs sp in
      let result = f.regs 10 in
      let up = slots-Increases h in
      let held = subst (λ s. Holds s (slots h) f.words) (sym k.stack) (kept-Holds f k) in
      let w = set f.words (u32 (s + 0x20)) result in
      let next = u32 (w (u32 (s + 0x40)) + 4) in
      let with_result : Holds s (updated 0x20 result (slots h)) w =
        Holds-updated s 0 0x20 result (slots h) f.words (omega arith) up held in
      let pc : w (u32 (s + 0x40)) ≡ h.sepc = with_result.1.1.1.1.1.1.1.1.1.1.1.1.1.1.1.1.0 in
      let with_next =
        Holds-updated s 0 0x40 next (updated 0x20 result (slots h)) w (omega arith)
          (updated-Increases h result) with_result in
      trap_exit-Returns h (run syscall_return f) result (u32 (h.sepc + 4)) small k.stack k.thread (
        subst
          (λ v.
            Holds s (updated 0x40 v (updated 0x20 result (slots h))) (run syscall_return f).words)
          (ap (λ x. u32 (x + 4)) pc) with_next)

  called :
      ((f : Hart) → sys (h.regs t0) entered ≡ some f → Keeps entered f)
      → (h' : Hart) → h.scause % 256 ≡ exc_ecall_umode
      → syscall_entry sys interrupt_handler entered ≡ some h'
      → Called sys h h' ⊎ Refused h h'
  unfolding syscall_entry
  called keeps h' ecall e =
      let yes : Option Hart = elim (sys (h.regs t0) entered) [
        | none ↦ none
        | some f ↦ some (run trap_exit (run syscall_return f))
      ] in
      let no : Option Hart = some (run trap_exit (run illegal_syscall entered)) in
      elim (Bool-cases (ltb (h.regs t0) syscall_count)) [
        | inl known ↦
            let (f, o, r) =
              of_call (sys (h.regs t0) entered) refl
                (sym (ap (λ b. if b then yes else no) known) ∙ e) in
            inl (ecall, ltb→lt (h.regs t0) syscall_count known, f, o, r)
        | inr unknown ↦
            let back = sym (ap (λ b. if b then yes else no) unknown) ∙ e in
            inr (
              ecall,
              le_of_ltb-false (h.regs t0) syscall_count unknown,
              subst (Returns h xos_err_bad_syscall h.sepc) (some-injective back) illegal-Returns,
            )
      ]
    where
      of_call :
          (o : Option Hart)
          → sys (h.regs t0) entered ≡ o
          → (elim o [ none ↦ none | some f ↦ some (run trap_exit (run syscall_return f)) ])
            ≡ some h'
          → (f : Hart) × (sys (h.regs t0) entered ≡ some f)
            × Returns h (f.regs 10) (u32 (h.sepc + 4)) h'
      of_call none o e = absurd cc
      of_call (some f) o e = (
        f,
        o,
        subst (Returns h (f.regs 10) (u32 (h.sepc + 4))) (some-injective e)
            (syscall-Returns f (keeps f o)),
      )

  -- A trap that returns to the user was an interrupt, a system call whose function returned, or one with
  -- an unknown number. The user finds its registers as they were, but for the result in a0: of the
  -- function, or the error; it goes on behind the call, and behind an interrupt and a refused call where it
  -- was. The C functions keep what they must keep of their caller.
  pub trap-Returns :
      ((f : Hart) → sys (h.regs t0) entered ≡ some f → Keeps entered f)
      → Keeps entered (interrupt_handler entered)
      → (h' : Hart) → trap sys interrupt_handler h ≡ some h'
      → Interrupted h h' ⊎ (Called sys h h' ⊎ Refused h h')
  unfolding trap
  trap-Returns keeps kept h' e =
      let call = syscall_entry sys interrupt_handler entered in
      let exception : Option Hart = if h.scause % 256 == exc_ecall_umode then call else none in
      let back : Option Hart = some (run trap_exit (interrupt_handler entered)) in
      elim (Bool-cases (ltb h.scause (2 ^ 31))) [
        | inr high ↦ inl (
          le_of_ltb-false h.scause (2 ^ 31) high,
          subst (Returns h (h.regs 10) h.sepc)
              (some-injective (sym (ap (λ b. if b then exception else back) high) ∙ e))
              (interrupt-Returns (interrupt_handler entered) kept),
        )
        | inl low ↦
            let e' = sym (ap (λ b. if b then exception else back) low) ∙ e in
            elim (Bool-cases (h.scause % 256 == exc_ecall_umode)) [
              | inl ecall ↦ inr (
                  called keeps h' ((==_iff (h.scause % 256) exc_ecall_umode).0 ecall)
                    (sym (ap (λ b. if b then call else none) ecall) ∙ e'))
              | inr other ↦ absurd (none-some (sym (ap (λ b. if b then call else none) other) ∙ e'))
            ]
      ]
