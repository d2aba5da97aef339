-- ===== src/Tests/TrapTests.antt =====
-- Two system calls of a user program.
use os_workshop.Base.{ℕ, ◌*◌, ◌==◌, ◌≡◌, ◌⊎◌, if◌then◌else◌, Option, none, some, refl, arith}
use mathlib.Core.Path.{subst}
use os_workshop.Xos.Trap.{Hart, set, run, trap_entry, trap}
use os_workshop.Xos.Trap.Returns.{Keeps, Interrupted, Called, Refused, trap-Returns}

-- The user calls the function in t0.
abbrev user : (number : ℕ) → Hart
user number = record {
  regs = set (λ r. r * 3) 5 number;
  sepc = 0x10000040;
  sscratch = 0xC0200FE0;
  scause = 8;
  words = λ _. 0xaa;
}

-- XOS_ERR_NOT_SUPPORTED
abbrev answers : Hart → Hart
answers h = record h { regs = set h.regs 10 0x83 }

abbrev sys : ℕ → Hart → Option Hart
sys n h = if n == 0 then none else some (answers h)

answers-Keeps : (h : Hart) → Keeps h (answers h)
answers-Keeps h = record { stack = refl; thread = refl; frame = λ i lt. refl }

some-injective : {f g : Hart} → ◌≡◌ {A = Option Hart} (some f) (some g) → f ≡ g
some-injective e = cc

returned : (h' : Hart) × (trap sys answers (user 2) ≡ some h')
unfolding trap
returned = (_, refl)

trap-Returns_example :
    Interrupted (user 2) returned.0 ⊎ (Called sys (user 2) returned.0 ⊎ Refused (user 2) returned.0)
trap-Returns_example =
    trap-Returns sys answers (user 2) (omega arith)
      (λ f e.
        subst (λ g. Keeps (run trap_entry (user 2)) g) (some-injective e)
          (answers-Keeps (run trap_entry (user 2))))
      (answers-Keeps (run trap_entry (user 2))) returned.0 returned.1
