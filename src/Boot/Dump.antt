-- ===== src/Boot/Dump.antt =====
-- `do_dw` and `do_db` of boot/console.c, with what they print as data. `rd` is what rd32safe or
-- rd8safe of boot/helpers.S reads at an address, which is 0 where the read faults.
pub mod Shown
use os_workshop.Base.{
  ℕ, zero, suc, ◌+◌, ◌-◌, ◌/◌, ◌%◌, ◌^◌, ◌==◌, leb, ltb, if◌then◌else◌, ◌||◌, List, [], ◌∷◌, ◌++◌,
  Option, none, some, u32,
}

-- A heading starts a new line.
pub data Printed : Type 0 where
  heading word : ℕ → Printed
  newline : Printed

-- `while (n < count)`, with the rounds left.
unfoldable pub dw_loop : (rd : ℕ → ℕ) → (left n addr : ℕ) → List Printed
dw_loop rd zero n addr = []
dw_loop rd (suc left) n addr =
    let rest = word (rd addr) ∷ dw_loop rd left (n + 1) (u32 (addr + 4)) in
    if n % 4 == 0 then heading addr ∷ rest else rest

-- The words that are shown.
abbrev pub dw_count : (n count : ℕ) → ℕ
dw_count n count = let c = if ltb n 2 then 1 else count in if ltb 1024 c then 1024 else c

unfoldable pub do_dw : (rd : ℕ → ℕ) → (n addr count : ℕ) → List Printed
unfolding dw_loop
do_dw rd n addr count =
    let c = dw_count n count in dw_loop rd c 0 addr ++ (if c % 4 == 0 then newline ∷ [] else [])

-- One line of `do_db`: the bytes, or blanks, and the text behind them.
pub record Row : Type 0 where
  pub addr : ℕ
  pub cells : List (Option ℕ)
  pub txt : List ℕ

abbrev pub printable : ℕ → ℕ
printable c = if ltb c b' ' || ltb 126 c then b'.' else c

-- `for (int i = 0; i < 16; i++)`, with the rounds left.
unfoldable pub db_cells : (rd : ℕ → ℕ) → (left i addr count : ℕ) → List (Option ℕ)
db_cells rd zero i addr count = []
db_cells rd (suc left) i addr count =
    (if ltb i count then some (rd (u32 (addr + i)) % 256) else none)
    ∷ db_cells rd left (i + 1) addr count

unfoldable pub db_txt : List (Option ℕ) → List ℕ
db_txt [] = []
db_txt (none ∷ cells) = b' ' ∷ db_txt cells
db_txt (some c ∷ cells) = printable c ∷ db_txt cells

unfoldable pub db_row : (rd : ℕ → ℕ) → (addr count : ℕ) → Row
db_row rd addr count =
    let cells = db_cells rd 16 0 addr count in
    record { addr = addr; cells = cells; txt = db_txt cells }

-- `while (count > 0)`; a count that would fall below 0 is 0, which ends the loop as well.
unfoldable pub db_rows : (rd : ℕ → ℕ) → (fuel addr count : ℕ) → List Row
db_rows rd zero addr count = []
db_rows rd (suc fuel) addr count =
    let rest = db_row rd addr count ∷ db_rows rd fuel (u32 (addr + 16)) (count - 16) in
    if ltb 0 count then rest else []

-- A count from 2 ^ 31 on is a negative `int`.
unfoldable pub do_db : (rd : ℕ → ℕ) → (n addr count : ℕ) → List Row
unfolding db_rows
do_db rd n addr count = if leb (2 ^ 31) count then [] else db_rows rd (count / 16 + 1) addr count
