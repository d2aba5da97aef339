-- ===== src/DeviceTree.antt =====
-- misc/devicetree.c: `fdt_walk`, with what it hands to xprintf as data. The blob is a byte memory.
pub mod Format
pub mod Printed
use os_workshop.Base.{
  ℕ, zero, suc, ◌+◌, ◌-◌, ◌*◌, ◌/◌, ◌%◌, ◌^◌, ◌==◌, if◌then◌else◌, ◌||◌, Bool, false, List, [], ◌∷◌,
  ◌++◌, length, Option, none, some, Memory, rd32, slice, u32, sub32,
}
use os_workshop.Boot.LineEditor.{string_at}
use os_workshop.Boot.Console.Defs.{same_text}

-- `(n >> 24) | (n << 24) | ((n >> 8) & 0x0000FF00) | ((n << 8) & 0x00FF0000)`
abbrev pub swap : ℕ → ℕ
swap n = n / 2 ^ 24 + n % 2 ^ 8 * 2 ^ 24 + n / 2 ^ 16 % 2 ^ 8 * 2 ^ 8 + n / 2 ^ 8 % 2 ^ 8 * 2 ^ 16

-- The string at an address: it is looked for up to the end of the address space.
abbrev pub text_at : Memory → ℕ → List ℕ
text_at m a = string_at m a (2 ^ 32 - a)

abbrev pub bootargs : List ℕ
bootargs = b'b' ∷ b'o' ∷ b'o' ∷ b't' ∷ b'a' ∷ b'r' ∷ b'g' ∷ b's' ∷ []

abbrev pub compatible : List ℕ
compatible = b'c' ∷ b'o' ∷ b'm' ∷ b'p' ∷ b'a' ∷ b't' ∷ b'i' ∷ b'b' ∷ b'l' ∷ b'e' ∷ []

abbrev pub device_type : List ℕ
device_type = b'd' ∷ b'e' ∷ b'v' ∷ b'i' ∷ b'c' ∷ b'e' ∷ b'_' ∷ b't' ∷ b'y' ∷ b'p' ∷ b'e' ∷ []

abbrev pub model : List ℕ
model = b'm' ∷ b'o' ∷ b'd' ∷ b'e' ∷ b'l' ∷ []

abbrev pub mmu_type : List ℕ
mmu_type = b'm' ∷ b'm' ∷ b'u' ∷ b'-' ∷ b't' ∷ b'y' ∷ b'p' ∷ b'e' ∷ []

abbrev pub riscv_isa : List ℕ
riscv_isa = b'r' ∷ b'i' ∷ b's' ∷ b'c' ∷ b'v' ∷ b'.' ∷ b'i' ∷ b's' ∷ b'a' ∷ []

-- The switch on the first character; `case 'b'` runs on into `case 'c'`.
unfoldable pub isstring : List ℕ → Bool
unfolding same_text
isstring [] = false
isstring (c ∷ t) =
    let s = c ∷ t in
    if c == b'b'
    then same_text s bootargs || same_text s compatible
    else if c == b'c'
    then same_text s compatible
    else if c == b'd'
    then same_text s device_type
    else if c == b'm'
    then same_text s model || same_text s mmu_type
    else if c == b'r'
    then same_text s riscv_isa
    else false

-- What a call of xindent and the xprintf calls behind it show.
pub data Shown : Type 0 where
  node_line : (indent : ℕ) → (name : List ℕ) → Shown
  text_line : (indent : ℕ) → (name : List ℕ) → (len : ℕ) → (text : List ℕ) → Shown
  bytes_line : (indent : ℕ) → (name : List ℕ) → (len : ℕ) → (bytes : List ℕ) → Shown
  huh_line : (token : ℕ) → Shown
  end_line : Shown

abbrev pub fdt_padding : ℕ
fdt_padding = 0x00000000

abbrev pub fdt_begin_node : ℕ
fdt_begin_node = 0x00000001

abbrev pub fdt_end_node : ℕ
fdt_end_node = 0x00000002

abbrev pub fdt_prop : ℕ
fdt_prop = 0x00000003

abbrev pub fdt_nop : ℕ
fdt_nop = 0x00000004

abbrev pub fdt_end : ℕ
fdt_end = 0x00000009

-- What one round of the loop leads to.
pub data Round : Type 0 where
  goes : (shown : List Shown) → (data_ indent : ℕ) → Round
  returns : (shown : List Shown) → Round

-- `data += ((len + 3) >> 2)`, on a pointer to words.
abbrev pub words_behind : (data_ len : ℕ) → ℕ
words_behind data_ len = data_ + 4 * (u32 (len + 3) / 4)

unfoldable pub begin_node : Memory → (data_ indent : ℕ) → Round
begin_node m data_ indent =
    let name = text_at m data_ in
    goes (node_line indent name ∷ []) (words_behind data_ (u32 (length name + 1)))
      (u32 (indent + 1))

unfoldable pub prop : Memory → (strtab data_ indent : ℕ) → Round
unfolding isstring
prop m strtab data_ indent =
    let len = swap (rd32 m data_) in
    let name = text_at m (strtab + swap (rd32 m (data_ + 4))) in
    let value = data_ + 8 in
    goes
      ((if isstring name
          then text_line indent name len (text_at m value)
          else bytes_line indent name len (slice m value len))
        ∷ [])
      (words_behind value len) indent

-- `switch(swap(*data++))`
unfoldable pub round : Memory → (strtab data_ indent : ℕ) → Round
unfolding begin_node prop
round m strtab data_ indent =
    let token = swap (rd32 m data_) in
    let data_ = data_ + 4 in
    if (token == fdt_padding) || (token == fdt_nop)
    then goes [] data_ indent
    else if token == fdt_begin_node
    then begin_node m data_ indent
    else if token == fdt_end_node
    then goes [] data_ (sub32 indent 1)
    else if token == fdt_prop
    then prop m strtab data_ indent
    else if token == fdt_end
    then returns (end_line ∷ [])
    else returns (huh_line token ∷ [])

-- `for (;;)`, for as many rounds as the fuel has.
unfoldable pub walk : (fuel : ℕ) → Memory → (strtab data_ indent : ℕ) → Option (List Shown)
unfolding round
walk zero m strtab data_ indent = none
walk (suc fuel) m strtab data_ indent = elim (round m strtab data_ indent) [
  | goes shown data' indent' ↦ elim (walk fuel m strtab data' indent') [
    | none ↦ none
    | some rest ↦ some (shown ++ rest)
  ]
  | returns shown ↦ some shown
]

unfoldable pub fdt_walk : (fuel : ℕ) → Memory → (fdt : ℕ) → Option (List Shown)
unfolding walk
fdt_walk fuel m fdt =
    walk fuel m (u32 (fdt + swap (rd32 m (fdt + 12)))) (u32 (fdt + swap (rd32 m (fdt + 8)))) 0
