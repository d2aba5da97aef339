-- ===== src/Boot/Console/Defs.antt =====
-- The functions of boot/console.c that read a line, and the commands.
use os_workshop.Base.{
  ℕ, zero, suc, ◌+◌, ◌==◌, ltb, if◌then◌else◌, ◌||◌, ◌&&◌, true, false, List, [], ◌∷◌, ◌++◌, length,
  take, map, Bool, Memory, wr8, Option, none, some, ◌>>=◌,
}
use os_workshop.Boot.Number.{atox, atoi}
use os_workshop.Boot.LineEditor.{string_at, cmdbuf_size}

-- MAXTOK
abbrev pub maxtok : ℕ
maxtok = 16

-- `while (*line == ' ')`: the spaces become zeros. The test of `*line == 0` inside never holds.
unfoldable pub skip_spaces : (fuel : ℕ) → Memory → (line : ℕ) → Memory × ℕ
skip_spaces zero m line = (m, line)
skip_spaces (suc fuel) m line =
    let rest = skip_spaces fuel (wr8 m line 0) (line + 1) in
    if m line == b' ' then rest else (m, line)

-- How `while (*line != ' ')` ends, and where.
pub data Stop : Type 0 where
  at_space at_end : ℕ → Stop

unfoldable pub find_end : (fuel : ℕ) → Memory → (line : ℕ) → Stop
find_end zero m line = at_end line
find_end (suc fuel) m line =
    let rest = find_end fuel m (line + 1) in
    if m line == b' ' then at_space line else if m line == 0 then at_end line else rest

-- `while (toklen < MAXTOK)`, with `room` for MAXTOK - toklen: the buffer afterwards, and the
-- addresses in `token`.
unfoldable pub tokenise : (fuel room : ℕ) → Memory → (line : ℕ) → Memory × List ℕ
unfolding skip_spaces find_end
tokenise fuel zero m line = (m, [])
tokenise fuel (suc room) m line =
    let (m', start) = skip_spaces fuel m line in
    elim (find_end fuel m' start) [
      | at_space end_ ↦ (let (m'', tokens) = tokenise fuel room m' end_ in (m'', start ∷ tokens))
      | at_end end_ ↦ if start == end_ then (m', []) else (wr8 m' end_ 0, start ∷ [])
    ]

-- The commands of CMDS, by the function that each calls.
pub data Command : Type 0 where
  help regs dw db stop cont : Command

pub record ConsoleCmd : Type 0 where
  pub name : List ℕ
  pub args : List ℕ
  pub fn : Command

abbrev pub cmds : List ConsoleCmd
cmds =
    record { name = b'h' ∷ b'e' ∷ b'l' ∷ b'p' ∷ []; args = []; fn = help }
    ∷ record { name = b'r' ∷ b'e' ∷ b'g' ∷ b's' ∷ []; args = []; fn = regs }
    ∷ record { name = b'd' ∷ b'w' ∷ []; args = b'x' ∷ b'x' ∷ []; fn = dw }
    ∷ record { name = b'd' ∷ b'b' ∷ []; args = b'x' ∷ b'x' ∷ []; fn = db }
    ∷ record { name = b's' ∷ b't' ∷ b'o' ∷ b'p' ∷ []; args = []; fn = stop }
    ∷ record { name = b'c' ∷ b'o' ∷ b'n' ∷ b't' ∷ []; args = []; fn = cont }
    ∷ []

-- An argument of a command: a number, or the text itself.
pub data Argx : Type 0 where
  number : ℕ → Argx
  text : List ℕ → Argx

-- What a line comes to: a call with `argx` and `argc`, or a message.
pub data Action : Type 0 where
  call : Command → (argx : List Argx) → (argc : ℕ) → Action
  too_many_arguments bad_args nothing : Action
  unknown_command : List ℕ → Action

-- The switch in `console_cmd`, at an argument that is given or not.
unfoldable pub convert : (kind : ℕ) → Option (List ℕ) → Option Argx
convert kind arg =
    if kind == b'x'
    then some (number (elim arg [ none ↦ 0 | some s ↦ atox s ]))
    else if kind == b'i'
    then some (number (elim arg [ none ↦ 0 | some s ↦ atoi s ]))
    else if kind == b's'
    then some (text (elim arg [ none ↦ [] | some s ↦ s ]))
    else none

-- `for (unsigned n = 0; n < max; n++)`
unfoldable pub arguments : (kinds : List ℕ) → (args : List (List ℕ)) → Option (List Argx)
unfolding convert
arguments [] args = some []
arguments (kind ∷ kinds) [] = do
  first ← convert kind none
  rest ← arguments kinds []
  some (first ∷ rest)
arguments (kind ∷ kinds) (arg ∷ args) = do
  first ← convert kind (some arg)
  rest ← arguments kinds args
  some (first ∷ rest)

-- `memset(argx, 0, sizeof(argx))` behind the arguments that are set.
abbrev pub argx4 : List Argx → List Argx
argx4 xs = take 4 (xs ++ number 0 ∷ number 0 ∷ number 0 ∷ number 0 ∷ [])

unfoldable pub console_cmd : ConsoleCmd → (args : List (List ℕ)) → Action
unfolding arguments
console_cmd cmd args =
    let max = length cmd.args in
    let argc = length args in
    if ltb max argc || ltb 4 argc then too_many_arguments else elim (arguments cmd.args args) [
      | none ↦ bad_args
      | some argx ↦ call cmd.fn (argx4 argx) argc
    ]

-- `strcmp(s, t) == 0`
unfoldable pub same_text : List ℕ → List ℕ → Bool
same_text [] [] = true
same_text [] (d ∷ t) = false
same_text (c ∷ s) [] = false
same_text (c ∷ s) (d ∷ t) = c == d && same_text s t

-- The loop over CMDS.
unfoldable pub find_command : List ConsoleCmd → (word : List ℕ) → (args : List (List ℕ)) → Action
unfolding console_cmd same_text
find_command [] word args = unknown_command word
find_command (cmd ∷ cmds) word args =
    if same_text cmd.name word then console_cmd cmd args else find_command cmds word args

unfoldable pub run_words : List (List ℕ) → Action
unfolding find_command
run_words [] = nothing
run_words (word ∷ args) = find_command cmds word args

-- The buffer that `console_line` leaves, and what it does before the prompt.
unfoldable pub console_line : Memory → (line : ℕ) → Memory × Action
unfolding tokenise run_words string_at
console_line m line =
    let (m', tokens) = tokenise cmdbuf_size maxtok m line in
    (m', run_words (map (λ at. string_at m' at cmdbuf_size) tokens))
