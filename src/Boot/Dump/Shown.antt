-- ===== src/Boot/Dump/Shown.antt =====
-- What `do_dw` and `do_db` show.
use os_workshop.Base.{
  ℕ, zero, suc, ◌+◌, ◌-◌, ◌*◌, ◌/◌, ◌%◌, ◌^◌, ◌≤◌, ◌<◌, ◌≡◌, ◌==◌, leb, ltb, if◌then◌else◌, List,
  [], ◌∷◌, ◌++◌, Option, none, some, u32, length, arith, refl, ap, ap₂, ◌∙◌, sym, leb→le, ◌⊎◌,
  Bool-cases, true, false, inl, inr,
}
use Prim.Native.Nat.{min}
use mathlib.Core.List.{append-nil}
use os_workshop.Boot.Dump.{
  Printed, heading, word, newline, dw_loop, dw_count, do_dw, Row, db_cells, db_txt, db_row, db_rows,
  do_db,
}

-- `f i`, `f (i + 1)` and so on, `n` of them.
abbrev pub each : (f : ℕ → ℕ) → (i n : ℕ) → List ℕ
each f i zero = []
each f i (suc n) = f i ∷ each f (i + 1) n

abbrev pub words_of : List Printed → List ℕ
words_of [] = []
words_of (heading a ∷ ps) = words_of ps
words_of (word w ∷ ps) = w ∷ words_of ps
words_of (newline ∷ ps) = words_of ps

abbrev pub headings_of : List Printed → List ℕ
headings_of [] = []
headings_of (heading a ∷ ps) = a ∷ headings_of ps
headings_of (word w ∷ ps) = headings_of ps
headings_of (newline ∷ ps) = headings_of ps

abbrev pub bytes_of : List (Option ℕ) → List ℕ
bytes_of [] = []
bytes_of (none ∷ cells) = bytes_of cells
bytes_of (some c ∷ cells) = c ∷ bytes_of cells

abbrev pub row_bytes : List Row → List ℕ
row_bytes [] = []
row_bytes (row ∷ rows) = bytes_of row.cells ++ row_bytes rows

words_of-append : (ps qs : List Printed) → words_of (ps ++ qs) ≡ words_of ps ++ words_of qs
words_of-append [] qs = refl
words_of-append (heading a ∷ ps) qs = words_of-append ps qs
words_of-append (word w ∷ ps) qs = ap (λ t. w ∷ t) (words_of-append ps qs)
words_of-append (newline ∷ ps) qs = words_of-append ps qs

headings_of-append :
    (ps qs : List Printed) → headings_of (ps ++ qs) ≡ headings_of ps ++ headings_of qs
headings_of-append [] qs = refl
headings_of-append (heading a ∷ ps) qs = ap (λ t. a ∷ t) (headings_of-append ps qs)
headings_of-append (word w ∷ ps) qs = headings_of-append ps qs
headings_of-append (newline ∷ ps) qs = headings_of-append ps qs

dw_loop-words :
    (rd : ℕ → ℕ) (left n addr : ℕ)
    → words_of (dw_loop rd left n (u32 (addr + 4 * n))) ≡ each (λ i. rd (u32 (addr + 4 * i))) n left
unfolding dw_loop
dw_loop-words rd zero n addr = refl
dw_loop-words rd (suc left) n addr =
    let next : u32 (u32 (addr + 4 * n) + 4) ≡ u32 (addr + 4 * (n + 1)) = omega arith in
    let rest = dw_loop-words rd left (n + 1) addr in
    elim (Bool-cases (n % 4 == 0)) [
      | inl start ↦ rw (start, next) (ap (λ t. rd (u32 (addr + 4 * n)) ∷ t) rest)
      | inr inside ↦ rw (inside, next) (ap (λ t. rd (u32 (addr + 4 * n)) ∷ t) rest)
    ]

-- The rounds from `n` on begin the lines that are not begun yet: those from `j` on, `k` of them.
dw_loop-headings :
    (rd : ℕ → ℕ) (left n addr j k : ℕ)
    → j ≡ (n + 3) / 4
    → j + k ≡ (n + left + 3) / 4
    → headings_of (dw_loop rd left n (u32 (addr + 4 * n))) ≡ each (λ i. u32 (addr + 16 * i)) j k
unfolding dw_loop
dw_loop-headings rd zero n addr j zero ej ek = refl
dw_loop-headings rd zero n addr j (suc k) ej ek = absurd (omega arith)
dw_loop-headings rd (suc left) n addr j zero ej ek =
    let next : u32 (u32 (addr + 4 * n) + 4) ≡ u32 (addr + 4 * (n + 1)) = omega arith in
    let inside : (n % 4 == 0) ≡ false = ground arith in
    rw (inside, next) (dw_loop-headings rd left (n + 1) addr j zero (omega arith) (omega arith))
dw_loop-headings rd (suc left) n addr j (suc k) ej ek =
    let next : u32 (u32 (addr + 4 * n) + 4) ≡ u32 (addr + 4 * (n + 1)) = omega arith in
    elim (Bool-cases (n % 4 == 0)) [
      | inl start ↦
          let multiple : n % 4 ≡ 0 = ground arith in
          let same : u32 (addr + 4 * n) ≡ u32 (addr + 16 * j) = omega arith in
          rw (start, next)
            (ap₂ ◌∷◌ same
              (dw_loop-headings rd left (n + 1) addr (j + 1) k (omega arith) (omega arith)))
      | inr inside ↦
          let other : 0 < n % 4 = ground arith in
          rw (inside, next)
            (dw_loop-headings rd left (n + 1) addr j (suc k) (omega arith) (omega arith))
    ]

-- `dw` shows the words from the address on, 1 if no count is given and never more than 1024, and
-- begins a line with its address before each fourth of them.
do_dw_lem :
    (rd : ℕ → ℕ) (n addr count : ℕ)
    → addr < 2 ^ 32
    → (words_of (do_dw rd n addr count) ≡ each (λ i. rd (u32 (addr + 4 * i))) 0 (dw_count n count))
      × (headings_of (do_dw rd n addr count)
          ≡ each (λ i. u32 (addr + 16 * i)) 0 ((dw_count n count + 3) / 4))
unfolding do_dw
do_dw_lem rd n addr count lt =
    let c = dw_count n count in
    let end_ = if c % 4 == 0 then newline ∷ [] else [] in
    let start : u32 (addr + 4 * 0) ≡ addr = omega arith in
    let no_word : words_of end_ ≡ [] = ground arith in
    let no_heading : headings_of end_ ≡ [] = ground arith in
    (
      words_of-append (dw_loop rd c 0 addr) end_
          ∙ ap (λ t. words_of (dw_loop rd c 0 addr) ++ t) no_word
          ∙ append-nil _
          ∙ ap (λ a. words_of (dw_loop rd c 0 a)) (sym start)
          ∙ dw_loop-words rd c 0 addr,
      headings_of-append (dw_loop rd c 0 addr) end_
          ∙ ap (λ t. headings_of (dw_loop rd c 0 addr) ++ t) no_heading
          ∙ append-nil _
          ∙ ap (λ a. headings_of (dw_loop rd c 0 a)) (sym start)
          ∙ dw_loop-headings rd c 0 addr 0 ((c + 3) / 4) (omega arith) (omega arith),
    )

-- One line shows the bytes that are left, up to 16.
db_cells-bytes :
    (rd : ℕ → ℕ) (left i addr count n : ℕ)
    → n ≡ min left (count - i)
    → bytes_of (db_cells rd left i addr count) ≡ each (λ j. rd (u32 (addr + j)) % 256) i n
unfolding db_cells
db_cells-bytes rd zero i addr count n e = let none_ : n ≡ 0 = omega arith in rw none_
db_cells-bytes rd (suc left) i addr count zero e =
    let past : ltb i count ≡ false = ground arith in
    rw past (db_cells-bytes rd left (i + 1) addr count zero (omega arith))
db_cells-bytes rd (suc left) i addr count (suc n) e =
    let inside : ltb i count ≡ true = ground arith in
    rw inside (
      ap (λ t. (rd (u32 (addr + i)) % 256) ∷ t)
        (db_cells-bytes rd left (i + 1) addr count n (omega arith)))

db_row-bytes :
    (rd : ℕ → ℕ) (addr count n : ℕ)
    → n ≡ min 16 count
    → bytes_of (db_row rd addr count).cells ≡ each (λ j. rd (u32 (addr + j)) % 256) 0 n
unfolding db_row
db_row-bytes rd addr count n e = db_cells-bytes rd 16 0 addr count n (omega arith)

each-add :
    (f : ℕ → ℕ) (i n k b t : ℕ)
    → t ≡ n + k
    → (k ≡ 0) ⊎ (b ≡ i + n)
    → each f i t ≡ each f i n ++ each f b k
each-add f i zero k b t et (inl none_) = let all_ : t ≡ 0 = omega arith in rw (all_, none_)
each-add f i zero k b t et (inr eb) =
    let all_ : t ≡ k = omega arith in let here : b ≡ i = omega arith in rw (all_, here)
each-add f i (suc n) k b zero et eb = absurd (omega arith)
each-add f i (suc n) k b (suc t) et eb =
    ap (λ l. f i ∷ l) (each-add f (i + 1) n k b t (omega arith) (ground arith))

each-shift :
    (rd : ℕ → ℕ) (addr a i n : ℕ)
    → each (λ j. rd (u32 (u32 (addr + a) + j)) % 256) i n
      ≡ each (λ j. rd (u32 (addr + j)) % 256) (a + i) n
each-shift rd addr a i zero = refl
each-shift rd addr a i (suc n) =
    let here : u32 (u32 (addr + a) + i) ≡ u32 (addr + (a + i)) = omega arith in
    let next : a + (i + 1) ≡ a + i + 1 = omega arith in
    ap₂ ◌∷◌ (ap (λ x. rd x % 256) here)
      (each-shift rd addr a (i + 1) n ∙ ap (λ k. each (λ j. rd (u32 (addr + j)) % 256) k n) next)

abbrev pub Printable : List ℕ → Type 0
Printable [] = Unit
Printable (c ∷ t) = (b' ' ≤ c) × (c ≤ 126) × Printable t

-- Every line has 16 places and 16 characters that can be printed.
pub record IsLine (row : Row) : Type 0 where
  pub width : length row.cells ≡ 16
  pub text_width : length row.txt ≡ 16
  pub all_printable : Printable row.txt

abbrev pub AllLines : List Row → Type 0
AllLines [] = Unit
AllLines (row ∷ rows) = IsLine row × AllLines rows

length-db_cells :
    (rd : ℕ → ℕ) (left i addr count : ℕ) → length (db_cells rd left i addr count) ≡ left
unfolding db_cells
length-db_cells rd zero i addr count = refl
length-db_cells rd (suc left) i addr count =
    omega (arith, length-db_cells rd left (i + 1) addr count)

length-db_txt : (cells : List (Option ℕ)) → length (db_txt cells) ≡ length cells
unfolding db_txt
length-db_txt [] = refl
length-db_txt (none ∷ cells) = omega (arith, length-db_txt cells)
length-db_txt (some c ∷ cells) = omega (arith, length-db_txt cells)

db_txt-Printable : (cells : List (Option ℕ)) → Printable (db_txt cells)
unfolding db_txt
db_txt-Printable [] = tt
db_txt-Printable (none ∷ cells) = (omega arith, omega arith, db_txt-Printable cells)
db_txt-Printable (some c ∷ cells) = (ground arith, ground arith, db_txt-Printable cells)

module _ (rd : ℕ → ℕ) (addr : ℕ) where
  abbrev byte_at : ℕ → ℕ
  byte_at j = rd (u32 (addr + j)) % 256

  row_bytes-db_rows :
      (fuel i n : ℕ)
      → n ≤ fuel * 16
      → row_bytes (db_rows rd fuel (u32 (addr + i)) n) ≡ each byte_at i n
  unfolding db_rows
  row_bytes-db_rows zero i n enough = let none_ : n ≡ 0 = omega arith in rw none_
  row_bytes-db_rows (suc fuel) i zero enough = refl
  row_bytes-db_rows (suc fuel) i (suc n) enough =
      let c = min 16 (suc n) in
      let more : ltb 0 (suc n) ≡ true = ground arith in
      let next : u32 (u32 (addr + i) + 16) ≡ u32 (addr + (i + 16)) = omega arith in
      let here : i + 0 ≡ i = omega arith in
      let row =
        db_row-bytes rd (u32 (addr + i)) (suc n) c (omega arith)
        ∙ each-shift rd addr i 0 c
        ∙ ap (λ k. each byte_at k c) here in
      let rest = row_bytes-db_rows fuel (i + 16) (suc n - 16) (omega arith) in
      rw (more, next)
        (ap₂ ◌++◌ row rest
          ∙ sym (each-add byte_at i c (suc n - 16) (i + 16) (suc n) (omega arith) (ground arith)))

db_row-IsLine : (rd : ℕ → ℕ) (addr count : ℕ) → IsLine (db_row rd addr count)
unfolding db_row
db_row-IsLine rd addr count =
    let cells = db_cells rd 16 0 addr count in
    record {
      width = length-db_cells rd 16 0 addr count;
      text_width = length-db_txt cells ∙ length-db_cells rd 16 0 addr count;
      all_printable = db_txt-Printable cells;
    }

AllLines-db_rows :
    (rd : ℕ → ℕ) (fuel addr n : ℕ)
    → n ≤ fuel * 16
    → AllLines (db_rows rd fuel addr n) × (length (db_rows rd fuel addr n) ≡ (n + 15) / 16)
unfolding db_rows
AllLines-db_rows rd zero addr n enough = (tt, omega arith)
AllLines-db_rows rd (suc fuel) addr n enough =
    let rest = AllLines-db_rows rd fuel (u32 (addr + 16)) (n - 16) (omega arith) in
    elim (Bool-cases (ltb 0 n)) [
      | inl more ↦ rw more ((db_row-IsLine rd addr n, rest.0), ground (arith, rest.1))
      | inr done ↦ rw done (tt, ground arith)
    ]

-- `db` shows the bytes from the address on, as many as it is asked for, on lines of 16 places and 16
-- characters that can be printed, with no line too many; a negative count shows nothing.
pub do_db_lem :
    (rd : ℕ → ℕ) (n addr count : ℕ)
    → addr < 2 ^ 32
    → ((2 ^ 31 ≤ count) × (do_db rd n addr count ≡ []))
      ⊎ ((count < 2 ^ 31)
          × (row_bytes (do_db rd n addr count) ≡ each (λ i. rd (u32 (addr + i)) % 256) 0 count)
          × AllLines (do_db rd n addr count)
          × (length (do_db rd n addr count) ≡ (count + 15) / 16))
unfolding do_db
do_db_lem rd n addr count lt = elim (Bool-cases (leb (2 ^ 31) count)) [
  | inl negative ↦ inl (leb→le (2 ^ 31) count negative, rw negative)
  | inr some_ ↦
      let start : u32 (addr + 0) ≡ addr = omega arith in
      let bytes = row_bytes-db_rows rd addr (count / 16 + 1) 0 count (omega arith) in
      let lines = AllLines-db_rows rd (count / 16 + 1) addr count (omega arith) in
      rw some_ (
        inr (
          ground arith,
          ap (λ a. row_bytes (db_rows rd (count / 16 + 1) a count)) (sym start) ∙ bytes,
          lines.0,
          lines.1,
        ))
]
