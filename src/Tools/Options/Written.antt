-- ===== src/Tools/Options/Written.antt =====
-- A command line for tools/netboot.c that is written from what it asks for.
use os_workshop.Base.{
  ℕ, suc, ◌+◌, ◌-◌, ◌/◌, ◌^◌, ◌%◌, ◌≤◌, ◌<◌, ◌≡◌, ◌≢◌, ◌⊎◌, inl, inr, ◌==◌, ltb, if◌then◌else◌,
  true, false, Bool-cases, length-append, List, [], ◌∷◌, ◌++◌, Option, none, some, length, u32, map,
  arith, refl, ap, ◌∙◌, sym,
}
use mathlib.Core.Path.{subst}
use os_workshop.Boot.Number.{hex_digit}
use os_workshop.Boot.Number.Value.{leading_digits, hex_value}
use os_workshop.Tools.Options.{
  Text, split_at, strtoul, Named, Options, parsed, rejected, Parsed, too_many_images, imgmax,
  nothing, add_image, parse_args,
}

-- What an argument asks for, or an option with its argument.
pub data Item : Type 0 where
  image : Named → Item
  interface_is node_is : Text → Item
  exits : Item

abbrev hex_char : ℕ → ℕ
hex_char d = if ltb d 10 then b'0' + d else b'a' + d - 10

-- The eight digits of a 32-bit number.
abbrev hex_digits : ℕ → List ℕ
hex_digits n =
    n / 2 ^ 28 % 16
    ∷ n / 2 ^ 24 % 16
    ∷ n / 2 ^ 20 % 16
    ∷ n / 2 ^ 16 % 16
    ∷ n / 2 ^ 12 % 16
    ∷ n / 2 ^ 8 % 16
    ∷ n / 2 ^ 4 % 16
    ∷ n % 16
    ∷ []

abbrev pub written : Item → List Text
written (image im) = (im.name ++ b'@' ∷ map hex_char (hex_digits im.addr)) ∷ []
written (interface_is v) = (b'-' ∷ b'i' ∷ []) ∷ v ∷ []
written (node_is v) = (b'-' ∷ b'n' ∷ []) ∷ v ∷ []
written exits = (b'-' ∷ b'x' ∷ []) ∷ []

abbrev pub command_line : List Item → List Text
command_line [] = []
command_line (i ∷ is) = written i ++ command_line is

-- The options that the items ask for, the later ones over the earlier ones.
abbrev pub asked : List Item → Options → Options
asked [] o = o
asked (image im ∷ is) o = asked is (record o { images = o.images ++ im ∷ [] })
asked (interface_is v ∷ is) o = asked is (record o { ifname = v })
asked (node_is v ∷ is) o = asked is (record o { nodename = v })
asked (exits ∷ is) o = asked is (record o { do_exit = true })

abbrev pub image_count : List Item → ℕ
image_count [] = 0
image_count (image im ∷ is) = suc (image_count is)
image_count (_ ∷ is) = image_count is

abbrev HasNoAt : Text → Type 0
HasNoAt [] = Unit
HasNoAt (c ∷ s) = (c ≢ b'@') × HasNoAt s

-- An image can be written if its name has no `@`.
abbrev pub CanBeWritten : List Item → Type 0
CanBeWritten [] = Unit
CanBeWritten (image im ∷ is) = HasNoAt im.name × (im.addr < 2 ^ 32) × CanBeWritten is
CanBeWritten (_ ∷ is) = CanBeWritten is

split_at-append :
    (name tail : Text) → HasNoAt name → split_at (name ++ b'@' ∷ tail) ≡ some (name, tail)
unfolding split_at
split_at-append [] tail h = refl
split_at-append (c ∷ name) tail (h, hs) = ground (arith, split_at-append name tail hs)

AllDigits : List ℕ → Type 0
AllDigits [] = Unit
AllDigits (d ∷ ds) = (d < 16) × AllDigits ds

hex_digit-hex_char : (d : ℕ) → d < 16 → hex_digit (hex_char d) ≡ some d
unfolding hex_digit
hex_digit-hex_char d small = ground arith

leading_digits-hex_char : (ds : List ℕ) → AllDigits ds → leading_digits (map hex_char ds) ≡ ds
unfolding leading_digits AllDigits
leading_digits-hex_char [] h = refl
leading_digits-hex_char (d ∷ ds) (h, hs) =
    rw (hex_digit-hex_char d h, leading_digits) (ap (◌∷◌ d) (leading_digits-hex_char ds hs))

hex_char-cases :
    (d : ℕ)
    → d < 16
    → ((48 ≤ hex_char d) × (hex_char d ≤ 57)) ⊎ ((97 ≤ hex_char d) × (hex_char d ≤ 102))
hex_char-cases d small = ground arith

-- A number that starts with two digits has no sign and no prefix.
strtoul-digits :
    (c d : ℕ) (s : Text)
    → ((48 ≤ c) × (c ≤ 57)) ⊎ ((97 ≤ c) × (c ≤ 102))
    → ((48 ≤ d) × (d ≤ 57)) ⊎ ((97 ≤ d) × (d ≤ 102))
    → hex_value (leading_digits (c ∷ d ∷ s)) < 2 ^ 64
    → strtoul (c ∷ d ∷ s) ≡ hex_value (leading_digits (c ∷ d ∷ s))
unfolding strtoul
strtoul-digits c d s hc hd small = ground arith

hex_digits-AllDigits : (n : ℕ) → AllDigits (hex_digits n)
unfolding AllDigits
hex_digits-AllDigits n = omega arith

hex_digits-value : (n : ℕ) → n < 2 ^ 32 → hex_value (hex_digits n) ≡ n
hex_digits-value n small = omega arith

strtoul-hex_digits : (n : ℕ) → n < 2 ^ 32 → strtoul (map hex_char (hex_digits n)) ≡ n
strtoul-hex_digits n small =
    let value =
      ap hex_value (leading_digits-hex_char (hex_digits n) (hex_digits-AllDigits n))
      ∙ hex_digits-value n small in
    strtoul-digits _ _ _ (hex_char-cases (n / 2 ^ 28 % 16) (omega arith))
      (hex_char-cases (n / 2 ^ 24 % 16) (omega arith))
      (subst (λ k. k < 2 ^ 64) (sym value) (omega arith))
    ∙ value

add_image-written :
    (im : Named) (o : Options)
    → im.addr < 2 ^ 32
    → add_image im.name (map hex_char (hex_digits im.addr)) o ≡ (
        if length o.images == imgmax
        then none
        else some (record o { images = o.images ++ im ∷ [] }))
unfolding add_image
add_image-written im o small =
    let same : u32 (strtoul (map hex_char (hex_digits im.addr))) ≡ im.addr =
      ap u32 (strtoul-hex_digits im.addr small) ∙ omega arith in
    ap
      (λ a.
        if length o.images == imgmax
        then none
        else some (record o { images = o.images ++ record { name = im.name; addr = a } ∷ [] }))
      same

one_too_many : (n k : ℕ) (r p : Parsed) → (n == 8) ≡ true → r ≡ (if ltb 8 (n + suc k) then r else p)
one_too_many n k r p e = ground arith

one_more : (n : ℕ) → n ≤ 8 → (n == 8) ≡ false → n + 1 ≤ 8
one_more n few e = ground arith

same_count :
    (n m k : ℕ) (r p : Parsed)
    → m ≡ n + 1
    → (if ltb 8 (m + k) then r else p) ≡ (if ltb 8 (n + suc k) then r else p)
same_count n m k r p e = ground arith

-- What follows an image.
abbrev next : List Item → Option Options → Parsed
next is tried = elim tried [
  | none ↦ rejected too_many_images
  | some o ↦ parse_args nothing (command_line is) o
]

-- A command line that is written from images, options and their arguments asks for them, in any order;
-- with more than 8 images it is refused.
pub parse_args-command_line :
    (is : List Item) (o : Options)
    → CanBeWritten is
    → length o.images ≤ 8
    → parse_args nothing (command_line is) o ≡ (
        if ltb 8 (length o.images + image_count is)
        then rejected too_many_images
        else parsed (asked is o))
unfolding parse_args
parse_args-command_line [] o can few = ground arith
parse_args-command_line (interface_is v ∷ is) o can few =
    parse_args-command_line is (record o { ifname = v }) can few
parse_args-command_line (node_is v ∷ is) o can few =
    parse_args-command_line is (record o { nodename = v }) can few
parse_args-command_line (exits ∷ is) o can few =
    parse_args-command_line is (record o { do_exit = true }) can few
parse_args-command_line (image im ∷ is) o (no_at, low, can) few =
    let tail = map hex_char (hex_digits im.addr) in
    let o1 = record o { images = o.images ++ im ∷ [] } in
    let added : parse_args nothing (command_line (image im ∷ is)) o
        ≡ next is (if length o.images == imgmax then none else some o1) =
      rw (split_at-append im.name tail no_at, parse_args)
        (ap (next is) (add_image-written im o low)) in
    elim (Bool-cases (length o.images == imgmax)) [
      | inl full ↦
          added
          ∙ ap (λ b. next is (if b then none else some o1)) full
          ∙ one_too_many (length o.images) (image_count is) (rejected too_many_images)
              (parsed (asked is o1)) full
      | inr free ↦
          let n = length-append o.images (im ∷ []) in
          added
          ∙ ap (λ b. next is (if b then none else some o1)) free
          ∙ parse_args-command_line is o1 can
              (subst (λ k. k ≤ 8) (sym n) (one_more (length o.images) few free))
          ∙ same_count (length o.images) (length o1.images) (image_count is)
              (rejected too_many_images) (parsed (asked is o1)) n
    ]
