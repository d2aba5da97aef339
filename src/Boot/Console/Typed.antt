-- ===== src/Boot/Console/Typed.antt =====
-- The line editor of boot/boot.c and the command line of boot/console.c together.
use os_workshop.Base.{
  ℕ, ◌+◌, ◌<◌, ◌≡◌, ◌≢◌, ◌⊎◌, List, [], ◌∷◌, length, map, Memory, wr8, arith, ap, ◌∙◌, Option, none,
  some,
}
use os_workshop.Boot.LineEditor.{Editor, string_at, cmdbuf_size}
use os_workshop.Boot.LineEditor.Edit.{Typed, Shows, reversed_onto, string_at-line}
use os_workshop.Boot.Console.Defs.{
  bad_args, ConsoleCmd, maxtok, cmds, run_words, console_line, console_cmd, find_command, arguments,
  convert, tokenise,
}
use os_workshop.Boot.Console.Strings.{Spells-string_at}
use os_workshop.Boot.Console.Words.{cut, console_line_lem}

length-reversed_onto : (cs ds : List ℕ) → length (reversed_onto cs ds) ≡ length cs + length ds
length-reversed_onto [] ds = omega arith
length-reversed_onto (c ∷ cs) ds = omega (arith, length-reversed_onto cs (c ∷ ds))

-- When the line is ended, the command that runs is the one of the characters typed, in their order.
pub console_line-typed :
    (ed : Editor) (t : Typed)
    → Shows ed t
    → (console_line (wr8 ed.cmdbuf ed.cmdlen 0) 0).1
      ≡ run_words (cut maxtok (reversed_onto t.chars []))
console_line-typed ed t s =
    let buf = wr8 ed.cmdbuf ed.cmdlen 0 in
    let same : buf ≡ wr8 ed.cmdbuf (length t.chars) 0 = ap (λ n. wr8 ed.cmdbuf n 0) s.size in
    let spelled = string_at-line ed.cmdbuf t.chars s.holds s.fits in
    let short = length-reversed_onto t.chars [] in
    let fits = s.fits in
    let lt : length (reversed_onto t.chars []) < cmdbuf_size = omega arith in
    console_line_lem buf 0 (reversed_onto t.chars [])
      (Spells-string_at buf 0 cmdbuf_size (reversed_onto t.chars [])
        (ap (λ m. string_at m 0 cmdbuf_size) same ∙ spelled) lt)
      lt

-- Kinds of arguments that `console_cmd` knows.
abbrev Known : List ℕ → Type 0
Known [] = Unit
Known (k ∷ ks) = ((k ≡ b'x') ⊎ (k ≡ b'i') ⊎ (k ≡ b's')) × Known ks

abbrev AllKnown : List ConsoleCmd → Type 0
AllKnown [] = Unit
AllKnown (cmd ∷ cmds) = Known cmd.args × AllKnown cmds

convert-ne-none :
    (k : ℕ) (arg : Option (List ℕ)) → (k ≡ b'x') ⊎ (k ≡ b'i') ⊎ (k ≡ b's') → convert k arg ≢ none
unfolding convert
convert-ne-none k arg h = ground arith

arguments-ne-none : (ks : List ℕ) (args : List (List ℕ)) → Known ks → arguments ks args ≢ none
unfolding arguments
arguments-ne-none [] args h = cc
arguments-ne-none (k ∷ ks) [] h =
    ground (arith, convert-ne-none k none h.0, arguments-ne-none ks [] h.1)
arguments-ne-none (k ∷ ks) (a ∷ args) h =
    ground (arith, convert-ne-none k (some a) h.0, arguments-ne-none ks args h.1)

find_command-ne-bad_args :
    (cmds : List ConsoleCmd) (w : List ℕ) (args : List (List ℕ))
    → AllKnown cmds
    → find_command cmds w args ≢ bad_args
unfolding find_command console_cmd
find_command-ne-bad_args [] w args h = cc
find_command-ne-bad_args (cmd ∷ cmds) w args h =
    ground (arith, arguments-ne-none cmd.args args h.0, find_command-ne-bad_args cmds w args h.1)

run_words-ne-bad_args : (ws : List (List ℕ)) → run_words ws ≢ bad_args
unfolding run_words
run_words-ne-bad_args [] = cc
run_words-ne-bad_args (w ∷ args) = find_command-ne-bad_args cmds w args (omega arith)

-- Whatever the line, the internal error of `console_cmd` is not reported: the arguments that CMDS
-- declares are all of a kind that it knows.
pub console_line-ne-bad_args : (m : Memory) (line : ℕ) → (console_line m line).1 ≢ bad_args
unfolding console_line
console_line-ne-bad_args m line =
    let r = tokenise cmdbuf_size maxtok m line in
    run_words-ne-bad_args (map (λ at. string_at r.0 at cmdbuf_size) r.1)
