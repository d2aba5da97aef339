-- ===== src/Boot/LineEditor/Edit.antt =====
-- The buffer of boot/boot.c against a list of characters.
use os_workshop.Base.{
  ℕ, suc, ◌+◌, ◌-◌, ◌≤◌, ◌<◌, ◌≡◌, ◌==◌, ltb, if◌then◌else◌, ◌||◌, Bool, true, false, List, [], ◌∷◌,
  Memory, wr8, length, arith, refl, ap, ◌∙◌, sym,
}
use mathlib.Core.Path.{subst}
use os_workshop.Boot.LineEditor.{
  Output, echo, bell, erase, newline, line, Editor, cmdbuf_size, string_at, console_char,
  console_chars,
}

-- An editor whose line is a list, the last character first, with what it writes.
pub record Typed : Type 0 where
  pub chars : List ℕ
  pub log : List Output

-- `reversed_onto cs ds`: the characters of `cs` in the order in which they were typed, then `ds`.
abbrev pub reversed_onto : List ℕ → List ℕ → List ℕ
reversed_onto [] ds = ds
reversed_onto (c ∷ cs) ds = reversed_onto cs (c ∷ ds)

abbrev pub without_last : List ℕ → List ℕ
without_last [] = []
without_last (c ∷ cs) = cs

-- What a character does: it ends the line, takes back the last character, is ignored, or is typed,
-- up to 127 of them.
unfoldable pub type_char : Typed → ℕ → Typed
type_char t ch =
    if (ch == b'\r') || (ch == b'\n')
    then record { chars = []; log = line (reversed_onto t.chars []) ∷ newline ∷ t.log }
    else if (ch == 8) || (ch == 127)
    then record {
      chars = without_last t.chars;
      log = (if ltb 0 (length t.chars) then erase else bell) ∷ t.log;
    }
    else if ltb ch b' ' || ltb 127 ch
    then t
    else if length t.chars == 127
    then record t { log = bell ∷ t.log }
    else record { chars = ch ∷ t.chars; log = echo ch ∷ t.log }

unfoldable pub type_chars : Typed → List ℕ → Typed
unfolding type_char
type_chars t [] = t
type_chars t (c ∷ cs) = type_chars (type_char t c) cs

-- The buffer starts with these characters, the last one first.
abbrev pub Holds : Memory → List ℕ → Type 0
Holds m [] = Unit
Holds m (c ∷ cs) = (m (length cs) ≡ c) × (0 < c) × (c < 256) × Holds m cs

pub record Shows (ed : Editor) (t : Typed) : Type 0 where
  pub size : ed.cmdlen ≡ length t.chars
  pub fits : length t.chars ≤ 127
  pub holds : Holds ed.cmdbuf t.chars
  pub same_log : ed.log ≡ t.log

Holds-wr8 : (m : Memory) (cs : List ℕ) (a v : ℕ) → length cs ≤ a → Holds m cs → Holds (wr8 m a v) cs
Holds-wr8 m [] a v far h = tt
Holds-wr8 m (c ∷ cs) a v far h =
    (ground (arith, h.0), h.1, h.2, Holds-wr8 m cs a v (omega arith) h.3)

string_at-first :
    (m : Memory) (n c size : ℕ)
    → m n ≡ c
    → 0 < c
    → string_at m n (suc size) ≡ c ∷ string_at m (suc n) size
unfolding string_at
string_at-first m n c size e some_c =
    let plus : n + 1 ≡ suc n = omega arith in
    let none : (m n == 0) ≡ false = ground (arith, e) in
    ap (λ b. if b then [] else m n ∷ string_at m (n + 1) size) none
    ∙ ap (λ k. m n ∷ string_at m k size) plus
    ∙ ap (λ x. x ∷ string_at m (suc n) size) e

string_at-Holds :
    (m : Memory) (cs : List ℕ) (size : ℕ)
    → Holds m cs
    → string_at m 0 (length cs + size) ≡ reversed_onto cs (string_at m (length cs) size)
string_at-Holds m [] size h = ap (string_at m 0) (omega arith)
string_at-Holds m (c ∷ cs) size h =
    let more : suc (length cs) + size ≡ length cs + suc size = omega arith in
    ap (string_at m 0) more
    ∙ string_at-Holds m cs (suc size) h.3
    ∙ ap (reversed_onto cs) (string_at-first m (length cs) c size h.0 h.1)

string_at-end : (m : Memory) (n size : ℕ) → m n ≡ 0 → string_at m n (suc size) ≡ []
unfolding string_at
string_at-end m n size e =
    let none : (m n == 0) ≡ true = ground (arith, e) in
    ap (λ b. if b then [] else m n ∷ string_at m (n + 1) size) none

-- The characters that were typed are what `console_line` finds in the buffer.
pub string_at-line :
    (m : Memory) (cs : List ℕ)
    → Holds m cs
    → length cs ≤ 127
    → string_at (wr8 m (length cs) 0) 0 cmdbuf_size ≡ reversed_onto cs []
string_at-line m cs h fits =
    let buf = wr8 m (length cs) 0 in
    let size : cmdbuf_size ≡ length cs + suc (127 - length cs) = omega arith in
    let stop : buf (length cs) ≡ 0 = ground arith in
    ap (string_at buf 0) size
    ∙ string_at-Holds buf cs (suc (127 - length cs)) (Holds-wr8 m cs (length cs) 0 (omega arith) h)
    ∙ ap (reversed_onto cs) (string_at-end buf (length cs) (127 - length cs) stop)

Shows-if :
    (b : Bool) {ed ed' : Editor} {t t' : Typed}
    → (b ≡ true → Shows ed t)
    → (b ≡ false → Shows ed' t')
    → Shows (if b then ed else ed') (if b then t else t')
Shows-if true first second = first refl
Shows-if false first second = second refl

Shows-erase :
    (buf : Memory) (cs : List ℕ) (log : List Output)
    → length cs ≤ 127
    → Holds buf cs
    → Shows
        (if ltb 0 (length cs)
          then record { cmdbuf = buf; cmdlen = length cs - 1; log = erase ∷ log }
          else record { cmdbuf = buf; cmdlen = length cs; log = bell ∷ log })
        (record {
          chars = without_last cs;
          log = (if ltb 0 (length cs) then erase else bell) ∷ log;
        })
Shows-erase buf [] log fits h = record { size = refl; fits = fits; holds = h; same_log = refl }
Shows-erase buf (c ∷ cs) log fits h =
    let typed : ltb 0 (length (c ∷ cs)) ≡ true = ground arith in
    rw typed (record { size = omega arith; fits = omega arith; holds = h.3; same_log = refl })

-- The editor with its length and its output as those of the list.
with_line : Memory → Typed → Editor
with_line buf t = record { cmdbuf = buf; cmdlen = length t.chars; log = t.log }

Shows-with_line :
    (after_line : Memory → Memory) (buf : Memory) (t : Typed) (ch : ℕ)
    → length t.chars ≤ 127
    → Holds buf t.chars
    → Shows (console_char after_line (with_line buf t) ch) (type_char t ch)
unfolding console_char type_char with_line
Shows-with_line after_line buf t ch fits h =
    Shows-if ((ch == b'\r') || (ch == b'\n'))
      (λ enter. record {
        size = refl;
        fits = omega arith;
        holds = tt;
        same_log = ap (λ s. line s ∷ newline ∷ t.log) (string_at-line buf t.chars h fits);
      })
      (λ no_enter.
        Shows-if ((ch == 8) || (ch == 127)) (λ back. Shows-erase buf t.chars t.log fits h)
          (λ no_back.
            Shows-if (ltb ch b' ' || ltb 127 ch)
              (λ other. record { size = refl; fits = fits; holds = h; same_log = refl })
              (λ printed.
                Shows-if (length t.chars == 127)
                  (λ full. record { size = refl; fits = fits; holds = h; same_log = refl })
                  (λ space. record {
                    size = omega arith;
                    fits = ground arith;
                    holds = (
                      ground arith,
                      ground arith,
                      ground arith,
                      Holds-wr8 buf t.chars (length t.chars) ch (omega arith) h,
                    );
                    same_log = refl;
                  }))))

Shows-console_char :
    (after_line : Memory → Memory) (ed : Editor) (t : Typed) (ch : ℕ)
    → Shows ed t
    → Shows (console_char after_line ed ch) (type_char t ch)
unfolding with_line
Shows-console_char after_line ed t ch s =
    let size = sym s.size in
    let log = sym s.same_log in
    let same : with_line ed.cmdbuf t ≡ ed =
      λ i. record { cmdbuf = ed.cmdbuf; cmdlen = size i; log = log i } in
    subst (λ e. Shows (console_char after_line e ch) (type_char t ch)) same
      (Shows-with_line after_line ed.cmdbuf t ch s.fits s.holds)

-- Whatever is typed, and whatever `console_line` leaves in the buffer when it has cut a line into
-- words, the terminal and the lines that `console_line` gets are those of the list: the line is
-- what was typed since the last one, less what was taken back, and never more than 127 characters.
pub console_chars_lem :
    (after_line : Memory → Memory) (ed : Editor) (t : Typed) (typed : List ℕ)
    → Shows ed t
    → Shows (console_chars after_line ed typed) (type_chars t typed)
unfolding console_chars type_chars
console_chars_lem after_line ed t [] s = s
console_chars_lem after_line ed t (c ∷ cs) s =
    console_chars_lem after_line (console_char after_line ed c) (type_char t c) cs
      (Shows-console_char after_line ed t c s)
