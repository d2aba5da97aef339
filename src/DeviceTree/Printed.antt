-- ===== src/DeviceTree/Printed.antt =====
-- What `fdt_walk` of misc/devicetree.c prints.
use os_workshop.Base.{
  ℕ, suc, ◌+◌, ◌-◌, ◌^◌, ◌<◌, ◌≡◌, true, false, List, [], ◌∷◌, ◌++◌, length, Option, none, some,
  Memory, IsBytes, rd32, slice, u32, sub32, arith, refl, inl, inr, ◌⊎◌, ap, ◌∙◌,
}
use os_workshop.Boot.Console.Strings.{string_at-Spells}
use os_workshop.Boot.Console.Defs.{same_text}
use os_workshop.DeviceTree.{
  Shown, Round, goes, returns, text_line, bytes_line, node_line, end_line, swap, text_at, isstring,
  fdt_walk, walk, round, begin_node, prop, words_behind, fdt_padding, fdt_nop, fdt_prop,
  fdt_begin_node, fdt_end_node, fdt_end,
}
use os_workshop.DeviceTree.Format.{
  Items, none_left, filler, text_prop, bytes_prop, node, be32, padded, is_text, Text, behind, Holds,
  nodes, lines, tokens,
}

swap_lem : (m : Memory) (a : ℕ) → IsBytes m → swap (rd32 m a) ≡ be32 m a
swap_lem m a bytes =
    let b0 = bytes a in
    let b1 = bytes (a + 1) in let b2 = bytes (a + 2) in let b3 = bytes (a + 3) in omega arith

text_at_lem : (m : Memory) (a : ℕ) (s : List ℕ) → Text m a s → text_at m a ≡ s
text_at_lem m a s h = string_at-Spells m a (2 ^ 32 - a) s h.0 (let lt = h.1 in omega arith)

isstring_lem : (s : List ℕ) → isstring s ≡ is_text s
unfolding isstring same_text
isstring_lem [] = refl
isstring_lem (c ∷ t) = ground arith

words_behind-padded : (a len : ℕ) → len + 3 < 2 ^ 32 → words_behind a len ≡ a + padded len
words_behind-padded a len small = omega arith

-- How the walk goes on behind a round.
abbrev after_round : (fuel : ℕ) → Memory → (strtab : ℕ) → Round → Option (List Shown)
after_round fuel m strtab (goes shown a indent) = elim (walk fuel m strtab a indent) [
  | none ↦ none
  | some rest ↦ some (shown ++ rest)
]
after_round fuel m strtab (returns shown) = some shown

walk-suc :
    (fuel : ℕ) (m : Memory) (strtab a indent : ℕ)
    → walk (suc fuel) m strtab a indent ≡ after_round fuel m strtab (round m strtab a indent)
unfolding walk
walk-suc fuel m strtab a indent =
    elim (round m strtab a indent)
      as (λ r.
        (elim r [
          | goes shown data' indent' ↦
              elim (walk fuel m strtab data' indent') as (λ _. Option (List Shown)) [
                | none ↦ none
                | some rest ↦ some (shown ++ rest)
              ]
          | returns shown ↦ some shown
        ])
        ≡ after_round fuel m strtab r) [ goes shown a' indent' ↦ refl | returns shown ↦ refl ]

walk-goes :
    (fuel : ℕ) (m : Memory) (strtab a indent : ℕ) (first : List Shown) (a' indent' : ℕ)
    (rest : List Shown)
    → round m strtab a indent ≡ goes first a' indent'
    → walk fuel m strtab a' indent' ≡ some rest
    → walk (suc fuel) m strtab a indent ≡ some (first ++ rest)
walk-goes fuel m strtab a indent first a' indent' rest one others =
    rw (walk-suc fuel m strtab a indent, one, after_round, others) refl

walk-returns :
    (fuel : ℕ) (m : Memory) (strtab a indent : ℕ) (shown : List Shown)
    → round m strtab a indent ≡ returns shown
    → walk (suc fuel) m strtab a indent ≡ some shown
walk-returns fuel m strtab a indent shown e = rw (walk-suc fuel m strtab a indent, e) refl

-- The rounds at a whole part.
module _ (m : Memory) (bytes : IsBytes m) (strtab a depth : ℕ) where
  token : (t : ℕ) → be32 m a ≡ t → swap (rd32 m a) ≡ t
  token t e = swap_lem m a bytes ∙ e

  round-filler :
      (be32 m a ≡ fdt_padding) ⊎ (be32 m a ≡ fdt_nop)
      → round m strtab a depth ≡ goes [] (a + 4) depth
  unfolding round
  round-filler (inl e) = rw (token fdt_padding e) refl
  round-filler (inr e) = rw (token fdt_nop e) refl

  round-end_node :
      depth + 1 < 2 ^ 32
      → be32 m a ≡ fdt_end_node
      → round m strtab a (depth + 1) ≡ goes [] (a + 4) depth
  unfolding round
  round-end_node lt e =
      let less : sub32 (depth + 1) 1 ≡ depth = omega arith in rw (token fdt_end_node e, less) refl

  round-end : be32 m a ≡ fdt_end → round m strtab a depth ≡ returns (end_line ∷ [])
  unfolding round
  round-end e = rw (token fdt_end e) refl

  round-begin_node :
      (name : List ℕ)
      → depth + 1 < 2 ^ 32
      → be32 m a ≡ fdt_begin_node
      → length name + 4 < 2 ^ 32
      → Text m (a + 4) name
      → round m strtab a depth
        ≡ goes (node_line depth name ∷ []) (a + 4 + padded (length name + 1)) (depth + 1)
  unfolding round begin_node
  round-begin_node name lt e small named =
      let deeper : u32 (depth + 1) ≡ depth + 1 = omega arith in
      let whole : words_behind (a + 4) (u32 (length name + 1)) ≡ a + 4 + padded (length name + 1) =
        omega arith in
      rw (token fdt_begin_node e, text_at_lem m (a + 4) name named, deeper, whole) refl

  module _ (off len : ℕ) (name : List ℕ) (e : be32 m a ≡ fdt_prop) (has_len : be32 m (a + 4) ≡ len)
      (has_off : be32 m (a + 4 + 4) ≡ off) (small : len + 3 < 2 ^ 32)
      (named : Text m (strtab + off) name) where
    round-text :
        (text : List ℕ)
        → is_text name ≡ true
        → Text m (a + 4 + 8) text
        → round m strtab a depth
          ≡ goes (text_line depth name len text ∷ []) (a + 4 + 8 + padded len) depth
    unfolding round prop
    round-text text listed valued =
        rw
          (
            token fdt_prop e,
            swap_lem m (a + 4) bytes ∙ has_len,
            swap_lem m (a + 4 + 4) bytes ∙ has_off,
            text_at_lem m (strtab + off) name named,
            isstring_lem name ∙ listed,
            text_at_lem m (a + 4 + 8) text valued,
            words_behind-padded (a + 4 + 8) len small,
          )
          refl

    round-bytes :
        (value : List ℕ)
        → is_text name ≡ false
        → slice m (a + 4 + 8) len ≡ value
        → round m strtab a depth
          ≡ goes (bytes_line depth name len value ∷ []) (a + 4 + 8 + padded len) depth
    unfolding round prop
    round-bytes value listed valued =
        rw
          (
            token fdt_prop e,
            swap_lem m (a + 4) bytes ∙ has_len,
            swap_lem m (a + 4 + 4) bytes ∙ has_off,
            text_at_lem m (strtab + off) name named,
            isstring_lem name ∙ listed,
            valued,
            words_behind-padded (a + 4 + 8) len small,
          )
          refl

module _ (m : Memory) (bytes : IsBytes m) (strtab : ℕ) where
  walk_items :
      (items : Items) (a depth others : ℕ) (shown : List Shown)
      → Holds m strtab items a
      → depth + nodes items < 2 ^ 32
      → walk others m strtab (behind items a) depth ≡ some shown
      → walk (tokens items others) m strtab a depth ≡ some (lines items depth shown)
  walk_items none_left a depth others shown h lt e = e
  walk_items (filler rest) a depth others shown h lt e =
      walk-goes (tokens rest others) m strtab a depth [] (a + 4) depth (lines rest depth shown)
        (round-filler m bytes strtab a depth h.0)
        (walk_items rest (a + 4) depth others shown h.1 lt e)
  walk_items (text_prop off name text more rest) a depth others shown
        (e, has_len, has_off, small, named, listed, valued, h) lt k =
      walk-goes (tokens rest others) m strtab a depth
        (text_line depth name (length text + 1 + more) text ∷ [])
        (a + 4 + 8 + padded (length text + 1 + more)) depth (lines rest depth shown)
        (round-text m bytes strtab a depth off (length text + 1 + more) name e has_len has_off small
          named text listed valued)
        (walk_items rest (a + 4 + 8 + padded (length text + 1 + more)) depth others shown h lt k)
  walk_items (bytes_prop off name value rest) a depth others shown
        (e, has_len, has_off, small, named, listed, valued, h) lt k =
      walk-goes (tokens rest others) m strtab a depth
        (bytes_line depth name (length value) value ∷ []) (a + 4 + 8 + padded (length value)) depth
        (lines rest depth shown)
        (round-bytes m bytes strtab a depth off (length value) name e has_len has_off small named
          value listed valued)
        (walk_items rest (a + 4 + 8 + padded (length value)) depth others shown h lt k)
  walk_items (node name inner rest) a depth others shown (e, small, named, h, ended, h') lt k =
      let start = a + 4 + padded (length name + 1) in
      let end_ = behind inner start in
      let others' = suc (tokens rest others) in
      let rest_lines = lines rest depth shown in
      walk-goes (tokens inner others') m strtab a depth (node_line depth name ∷ []) start
        (depth + 1) (lines inner (depth + 1) rest_lines)
        (round-begin_node m bytes strtab a depth name (omega arith) e small named)
        (walk_items inner start (depth + 1) others' rest_lines h (omega arith) (
          walk-goes (tokens rest others) m strtab end_ (depth + 1) [] (end_ + 4) depth rest_lines
            (round-end_node m bytes strtab end_ depth (omega arith) ended)
            (walk_items rest (end_ + 4) depth others shown h' (omega arith) k)))

-- A blob that holds a tree of fewer than 2 ^ 32 nodes at the offsets of its header is walked to its
-- end, with no more rounds than it has tokens: each node and each property is shown on one line, in
-- their order, indented by its depth, and then the end.
pub fdt_walk_lem :
    (m : Memory) (fdt more : ℕ) (tree : Items)
    → IsBytes m
    → fdt + be32 m (fdt + 8) < 2 ^ 32
    → fdt + be32 m (fdt + 12) < 2 ^ 32
    → Holds m (fdt + be32 m (fdt + 12)) tree (fdt + be32 m (fdt + 8))
    → be32 m (behind tree (fdt + be32 m (fdt + 8))) ≡ fdt_end
    → nodes tree < 2 ^ 32
    → fdt_walk (tokens tree (suc more)) m fdt ≡ some (lines tree 0 (end_line ∷ []))
unfolding fdt_walk
fdt_walk_lem m fdt more tree bytes struct strings holds ended lt =
    let data_ = fdt + be32 m (fdt + 8) in
    let strtab = fdt + be32 m (fdt + 12) in
    let at_struct : u32 (fdt + swap (rd32 m (fdt + 8))) ≡ data_ =
      ap (λ x. u32 (fdt + x)) (swap_lem m (fdt + 8) bytes) ∙ omega arith in
    let at_strings : u32 (fdt + swap (rd32 m (fdt + 12))) ≡ strtab =
      ap (λ x. u32 (fdt + x)) (swap_lem m (fdt + 12) bytes) ∙ omega arith in
    rw (at_struct, at_strings)
      (walk_items m bytes strtab tree data_ 0 (suc more) (end_line ∷ []) holds (omega arith) (
        walk-returns more m strtab (behind tree data_) 0 (end_line ∷ [])
          (round-end m bytes strtab (behind tree data_) 0 ended)))
