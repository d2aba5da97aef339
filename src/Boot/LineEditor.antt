-- ===== src/Boot/LineEditor.antt =====
-- `console_char` of boot/boot.c, which edits the command line of the monitor. `after_line` is what
-- `console_line` leaves in the buffer, which it cuts into words.
pub mod Edit
use os_workshop.Base.{
  ℕ, zero, suc, ◌+◌, ◌-◌, ◌==◌, ltb, if◌then◌else◌, ◌||◌, List, [], ◌∷◌, Memory, wr8,
}

-- What is written to the terminal, and the calls of `console_line`.
pub data Output : Type 0 where
  echo : ℕ → Output
  bell erase newline : Output
  line : List ℕ → Output

-- The two statics, and the output, the latest first.
pub record Editor : Type 0 where
  pub cmdbuf : Memory
  pub cmdlen : ℕ
  pub log : List Output

-- sizeof(cmdbuf)
abbrev pub cmdbuf_size : ℕ
cmdbuf_size = 128

-- The string at `at`, in a buffer of `size` bytes from there.
unfoldable pub string_at : Memory → (at size : ℕ) → List ℕ
string_at m at zero = []
string_at m at (suc size) =
    let rest = string_at m (at + 1) size in if m at == 0 then [] else m at ∷ rest

unfoldable pub console_char : (after_line : Memory → Memory) → Editor → ℕ → Editor
unfolding string_at
console_char after_line ed ch =
    if (ch == b'\r') || (ch == b'\n')
    then (let buf = wr8 ed.cmdbuf ed.cmdlen 0 in
        record {
          cmdbuf = after_line buf;
          cmdlen = 0;
          log = line (string_at buf 0 cmdbuf_size) ∷ newline ∷ ed.log;
        })
    else if (ch == 8) || (ch == 127)
    then (if ltb 0 ed.cmdlen
        then record ed { cmdlen = ed.cmdlen - 1; log = erase ∷ ed.log }
        else record ed { log = bell ∷ ed.log })
    else if ltb ch b' ' || ltb 127 ch
    then ed
    else if ed.cmdlen == cmdbuf_size - 1
    then record ed { log = bell ∷ ed.log }
    else record {
      cmdbuf = wr8 ed.cmdbuf ed.cmdlen ch;
      cmdlen = ed.cmdlen + 1;
      log = echo ch ∷ ed.log;
    }

-- One character after the other.
unfoldable pub console_chars : (after_line : Memory → Memory) → Editor → List ℕ → Editor
unfolding console_char
console_chars after_line ed [] = ed
console_chars after_line ed (c ∷ cs) = console_chars after_line (console_char after_line ed c) cs
