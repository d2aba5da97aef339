-- ===== src/Tools/Options.antt =====
-- The options of main of tools/netboot.c. An argument is the list of its characters.
pub mod Written
use os_workshop.Base.{
  ℕ, suc, ◌+◌, ◌-◌, ◌*◌, ◌^◌, ◌%◌, ◌==◌, leb, ltb, if◌then◌else◌, Bool, true, false, ◌||◌, ◌&&◌,
  List, [], ◌∷◌, ◌++◌, Option, none, some, length, u32,
}
use os_workshop.Boot.Console.Defs.{same_text}
use os_workshop.Boot.Number.Value.{leading_digits, hex_value}

abbrev pub Text : Type 0
Text = List ℕ

-- `strchr(s, '@')`: what is in front of it, and behind it.
unfoldable pub split_at : Text → Option (Text × Text)
split_at [] = none
split_at (c ∷ s) =
    let rest = split_at s in
    if c == b'@' then some ([], s) else elim rest [ none ↦ none | some p ↦ some (c ∷ p.0, p.1) ]

unfoldable pub skip_spaces : Text → Text
skip_spaces [] = []
skip_spaces (c ∷ s) =
    let rest = skip_spaces s in if c == 32 || leb 9 c && leb c 13 then rest else c ∷ s

abbrev pub skip_prefix : Text → Text
skip_prefix (z ∷ x ∷ s) = if z == b'0' && (x == b'x' || x == b'X') then s else z ∷ x ∷ s
skip_prefix s = s

abbrev pub ulong_max : ℕ
ulong_max = 2 ^ 64 - 1

abbrev pub magnitude : Text → ℕ
magnitude s = hex_value (leading_digits (skip_prefix s))

-- A negative number is negated rest an unsigned long.
abbrev pub signed : Text → ℕ
signed [] = 0
signed (c ∷ s) =
    if c == b'-'
    then (if ltb ulong_max (magnitude s) then ulong_max else (2 ^ 64 - magnitude s) % 2 ^ 64)
    else if c == b'+'
    then (if ltb ulong_max (magnitude s) then ulong_max else magnitude s)
    else (if ltb ulong_max (magnitude (c ∷ s)) then ulong_max else magnitude (c ∷ s))

-- `strtoul(s, NULL, 16)` of a C library with a long of 64 bits.
unfoldable pub strtoul : Text → ℕ
unfolding skip_spaces
strtoul s = signed (skip_spaces s)

pub record Named : Type 0 where
  pub name : Text
  pub addr : ℕ

pub record Options : Type 0 where
  pub do_exit : Bool
  pub ifname : Text
  pub nodename : Text
  pub images : List Named

pub data Complaint : Type 0 where
  too_many_images missing_argument no_files unknown_interface : Complaint
  unknown_argument : Text → Complaint

pub data Parsed : Type 0 where
  parsed : Options → Parsed
  usage : Parsed
  rejected : Complaint → Parsed

abbrev pub imgmax : ℕ
imgmax = 8

-- The option whose argument comes next, behind `consume`.
pub data Waits : Type 0 where
  nothing interface node : Waits

unfoldable pub add_image : Text → Text → Options → Option Options
unfolding strtoul
add_image name tail o =
    if length o.images == imgmax
    then none
    else some
        (record o { images = o.images ++ record { name = name; addr = u32 (strtoul tail) } ∷ [] })

-- The tests of an argument without an `@`, in their order.
pub data Flag : Type 0 where
  flag_i flag_n flag_h flag_x other : Flag

unfoldable pub flag : Text → Flag
unfolding same_text
flag a =
    if same_text (b'-' ∷ b'i' ∷ []) a
    then flag_i
    else if same_text (b'-' ∷ b'n' ∷ []) a
    then flag_n
    else if same_text (b'-' ∷ b'h' ∷ []) a
    then flag_h
    else if same_text (b'-' ∷ b'x' ∷ []) a
    then flag_x
    else other

-- The loop over the arguments.
unfoldable pub parse_args : Waits → List Text → Options → Parsed
unfolding split_at add_image flag
parse_args nothing [] o = parsed o
parse_args interface [] o = rejected missing_argument
parse_args node [] o = rejected missing_argument
parse_args interface (a ∷ rest) o = parse_args nothing rest (record o { ifname = a })
parse_args node (a ∷ rest) o = parse_args nothing rest (record o { nodename = a })
parse_args nothing (a ∷ rest) o = elim (split_at a) [
  | some (name, tail) ↦ elim (add_image name tail o) [
    | none ↦ rejected too_many_images
    | some o' ↦ parse_args nothing rest o'
  ]
  | none ↦ elim (flag a) [
    | flag_i ↦ parse_args interface rest o
    | flag_n ↦ parse_args node rest o
    | flag_h ↦ usage
    | flag_x ↦ parse_args nothing rest (record o { do_exit = true })
    | other ↦ rejected (unknown_argument a)
  ]
]

-- "qemu0" and "device"
abbrev pub defaults : Options
defaults = record {
  do_exit = false;
  ifname = b'q' ∷ b'e' ∷ b'm' ∷ b'u' ∷ b'0' ∷ [];
  nodename = b'd' ∷ b'e' ∷ b'v' ∷ b'i' ∷ b'c' ∷ b'e' ∷ [];
  images = [];
}

-- Up to the headings: `index` is `if_nametoindex`.
unfoldable pub options : (index : Text → ℕ) → List Text → Parsed
unfolding parse_args
options index args = elim (parse_args nothing args defaults) [
  | parsed o ↦
      if length o.images == 0
      then rejected no_files
      else if index o.ifname == 0
      then rejected unknown_interface
      else parsed o
  | usage ↦ usage
  | rejected c ↦ rejected c
]
