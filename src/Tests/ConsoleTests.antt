-- ===== src/Tests/ConsoleTests.antt =====
-- The monitor's command line at concrete inputs.
use os_workshop.Base.{
  ℕ, ◌+◌, ◌%◌, ◌/◌, ◌^◌, ◌≤◌, ◌<◌, ◌≡◌, ◌⊎◌, refl, List, [], ◌∷◌, of_list, length, arith, u32, wr8,
}
use os_workshop.Boot.LineEditor.Edit.{reversed_onto}
use os_workshop.Boot.Console.Defs.{
  maxtok, call, dw, number, run_words, console_line, unknown_command,
}
use os_workshop.Boot.Console.Words.{cut, console_line_lem}
use os_workshop.Boot.Console.Typed.{console_line-typed}
use os_workshop.Boot.Number.{atox}
use os_workshop.Boot.Dump.{heading, word, do_dw, do_db}
use os_workshop.Boot.Dump.Shown.{each, row_bytes, AllLines, do_db_lem}

-- "dw  40 2"
abbrev dw_line : List ℕ
dw_line = b'd' ∷ b'w' ∷ b' ' ∷ b' ' ∷ b'4' ∷ b'0' ∷ b' ' ∷ b'2' ∷ []

console_line_run :
    (console_line (of_list dw_line) 0).1
    ≡ call dw (number 0x40 ∷ number 2 ∷ number 0 ∷ number 0 ∷ []) 2
unfolding console_line atox
console_line_run = refl

console_line_run_long :
    (console_line (of_list (b'd' ∷ b' ' ∷ b' ' ∷ [])) 0).1 ≡ unknown_command (b'd' ∷ [])
unfolding console_line
console_line_run_long = refl

console_line_lem_example : (console_line (of_list dw_line) 0).1 ≡ run_words (cut maxtok dw_line)
console_line_lem_example = console_line_lem (of_list dw_line) 0 dw_line (omega arith) (omega arith)

console_line-typed_example :
    (console_line (wr8 (of_list (b'd' ∷ b'b' ∷ b'x' ∷ [])) 2 0) 0).1
    ≡ run_words (cut maxtok (reversed_onto (b'b' ∷ b'd' ∷ []) []))
console_line-typed_example =
    console_line-typed (record { cmdbuf = of_list (b'd' ∷ b'b' ∷ b'x' ∷ []); cmdlen = 2; log = [] })
      (record { chars = b'b' ∷ b'd' ∷ []; log = [] })
      (record { size = refl; fits = omega arith; holds = omega arith; same_log = refl })

do_dw_run : do_dw (λ a. a + 1) 2 0xfffffffc 2 ≡ heading 0xfffffffc ∷ word 0xfffffffd ∷ word 1 ∷ []
unfolding do_dw
do_dw_run = refl

do_db_lem_example :
    ((2 ^ 31 ≤ 20) × (do_db (λ a. a) 2 0x40 20 ≡ []))
    ⊎ ((20 < 2 ^ 31)
        × (row_bytes (do_db (λ a. a) 2 0x40 20) ≡ each (λ i. u32 (0x40 + i) % 256) 0 20)
        × AllLines (do_db (λ a. a) 2 0x40 20)
        × (length (do_db (λ a. a) 2 0x40 20) ≡ (20 + 15) / 16))
do_db_lem_example = do_db_lem (λ a. a) 2 0x40 20 (omega arith)
