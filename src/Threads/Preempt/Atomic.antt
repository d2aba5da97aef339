-- ===== src/Threads/Preempt/Atomic.antt =====
-- No interrupt gets into the changes of the list.
use os_workshop.Base.{
  ℕ, ◌≡◌, ◌==◌, if◌then◌else◌, ◌&&◌, Bool, false, List, [], ◌∷◌, ◌++◌, none, some, refl, ap, ◌∙◌,
  arith,
}
use os_workshop.Threads.Preempt.{
  interrupt, Core, Running, Stmt, deliver, run_stmts, begin, irq_disable, irq_enable, sret,
  link_stmts, frame_stmts, thread_create, exit_stmts, leave_stmts, thread_exit,
}

-- Statements that leave interrupts disabled.
abbrev AllQuiet : List Stmt → Type 0
AllQuiet [] = Unit
AllQuiet (s ∷ ss) = ((r : Running) → (s r).core.sie ≡ r.core.sie) × AllQuiet ss

run_stmts_lem :
    (ss : List Stmt) (arrivals : List Bool) (r : Running)
    → AllQuiet ss
    → r.core.sie ≡ false
    → run_stmts ss arrivals r ≡ run_stmts ss [] r
unfolding run_stmts
run_stmts_lem [] arrivals r quiet off = refl
run_stmts_lem (s ∷ ss) [] r quiet off = refl
run_stmts_lem (s ∷ ss) (a ∷ as_) r quiet off =
    let closed : (a && r.core.sie) ≡ false = ground arith in
    let not_taken : deliver a r ≡ r =
      ap (λ b. record r { core = if b then interrupt r.core else r.core }) closed in
    ap (λ x. run_stmts ss as_ (s x)) not_taken
    ∙ run_stmts_lem ss as_ (s r) quiet.1 (quiet.0 r ∙ off)

AllQuiet-append : (ss ts : List Stmt) → AllQuiet ss → AllQuiet ts → AllQuiet (ss ++ ts)
AllQuiet-append [] ts h k = k
AllQuiet-append (s ∷ ss) ts h k = (h.0, AllQuiet-append ss ts h.1 k)

link_stmts-AllQuiet : AllQuiet link_stmts
unfolding link_stmts
link_stmts-AllQuiet = (
  λ r. refl,
  (λ r. refl, (λ r. refl, (λ r. refl, (λ r. refl, (λ r. refl, (λ r. refl, (λ r. refl, tt))))))),
)

frame_stmts-AllQuiet :
    (trap_exit thread_exit_at fn arg : ℕ) → AllQuiet (frame_stmts trap_exit thread_exit_at fn arg)
unfolding frame_stmts
frame_stmts-AllQuiet trap_exit thread_exit_at fn arg = (
  λ r. refl,
  (
    λ r. refl,
    (λ r. refl, (λ r. refl, (λ r. refl, (λ r. refl, (λ r. refl, (λ r. refl, (λ r. refl, tt))))))),
  ),
)

exit_stmts-AllQuiet : AllQuiet exit_stmts
unfolding exit_stmts
exit_stmts-AllQuiet = (λ r. refl, (λ r. refl, (λ r. refl, (λ r. refl, tt))))

leave_stmts-AllQuiet : AllQuiet leave_stmts
unfolding leave_stmts
leave_stmts-AllQuiet = (λ r. refl, (λ r. refl, (λ r. refl, (λ r. refl, (λ r. refl, tt)))))

run_stmts-sie :
    (ss : List Stmt) (r : Running) → AllQuiet ss → (run_stmts ss [] r).core.sie ≡ r.core.sie
unfolding run_stmts
run_stmts-sie [] r quiet = refl
run_stmts-sie (s ∷ ss) r quiet = run_stmts-sie ss (s r) quiet.1 ∙ quiet.0 r

-- Whenever the timer interrupt arrives during `thread_create`, the outcome is that of an
-- undisturbed run.
pub thread_create_atomic :
    (trap_exit thread_exit_at : ℕ) (arrivals : List Bool) (fn arg : ℕ) (c : Core)
    → thread_create trap_exit thread_exit_at arrivals fn arg c
      ≡ thread_create trap_exit thread_exit_at [] fn arg c
unfolding thread_create
thread_create_atomic trap_exit thread_exit_at arrivals fn arg c =
    ap (λ (r : Running). (r.t, irq_enable r.core))
      (run_stmts_lem (link_stmts ++ frame_stmts trap_exit thread_exit_at fn arg) arrivals
        (begin (irq_disable c))
        (AllQuiet-append link_stmts (frame_stmts trap_exit thread_exit_at fn arg)
          link_stmts-AllQuiet (frame_stmts-AllQuiet trap_exit thread_exit_at fn arg))
        refl)

-- So it is during `thread_exit`, up to the switch to the next thread.
pub thread_exit_atomic :
    (arrivals arrivals' : List Bool) (c : Core)
    → thread_exit arrivals arrivals' c ≡ thread_exit [] [] c
unfolding thread_exit
thread_exit_atomic arrivals arrivals' c =
    let r = run_stmts exit_stmts [] (begin (irq_disable c)) in
    let first =
      run_stmts_lem exit_stmts arrivals (begin (irq_disable c)) exit_stmts-AllQuiet refl in
    let off = run_stmts-sie exit_stmts (begin (irq_disable c)) exit_stmts-AllQuiet in
    let second = run_stmts_lem leave_stmts arrivals' r leave_stmts-AllQuiet off in
    let leaves = λ (x : Running) (as_ : List Bool).
      if x.next == x.current then none else some (sret (run_stmts leave_stmts as_ x).core) in
    ap (λ x. leaves x arrivals') first
    ∙ ap (λ (x : Running). if r.next == r.current then none else some (sret x.core)) second
