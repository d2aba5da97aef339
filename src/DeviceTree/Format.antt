-- ===== src/DeviceTree/Format.antt =====
-- The structure block of a flattened device tree, as the format describes it, and what a printer of it
-- shows.
use os_workshop.Base.{
  ℕ, suc, ◌+◌, ◌*◌, ◌/◌, ◌^◌, ◌<◌, ◌≡◌, ◌⊎◌, Bool, true, false, ◌||◌, List, ◌∷◌, length, Memory,
  slice,
}
use os_workshop.Boot.Console.Strings.{Spells}
use os_workshop.Boot.Console.Defs.{same_text}
use os_workshop.DeviceTree.{
  Shown, node_line, text_line, bytes_line, bootargs, compatible, device_type, model, mmu_type,
  riscv_isa, fdt_padding, fdt_begin_node, fdt_end_node, fdt_prop, fdt_nop,
}

-- The contents of a node, with what follows each part of them.
pub data Items : Type 0 where
  none_left : Items
  -- One token that says nothing.
  filler : Items → Items
  -- A property whose value starts with a text, and how many bytes follow its zero.
  text_prop : (name_off : ℕ) → (name text : List ℕ) → (more : ℕ) → Items → Items
  bytes_prop : (name_off : ℕ) → (name value : List ℕ) → Items → Items
  node : (name : List ℕ) → (inner : Items) → Items → Items

-- A big-endian word.
abbrev pub be32 : Memory → ℕ → ℕ
be32 m a = m a * 2 ^ 24 + m (a + 1) * 2 ^ 16 + m (a + 2) * 2 ^ 8 + m (a + 3)

-- Bytes fill whole words.
abbrev pub padded : ℕ → ℕ
padded len = 4 * ((len + 3) / 4)

-- The properties whose value is shown as a text.
abbrev pub is_text : List ℕ → Bool
is_text s =
    same_text s bootargs
    || same_text s compatible
    || same_text s device_type
    || same_text s model
    || same_text s mmu_type
    || same_text s riscv_isa

-- A string that ends before the address space does.
abbrev pub Text : Memory → ℕ → List ℕ → Type 0
Text m a s = Spells m a s × (a + length s < 2 ^ 32)

-- Where the parts end that begin at an address.
abbrev pub behind : Items → ℕ → ℕ
behind none_left a = a
behind (filler rest) a = behind rest (a + 4)
behind (text_prop off name text more rest) a =
    behind rest (a + 4 + 8 + padded (length text + 1 + more))
behind (bytes_prop off name value rest) a = behind rest (a + 4 + 8 + padded (length value))
behind (node name inner rest) a = behind rest (behind inner (a + 4 + padded (length name + 1)) + 4)

-- The memory holds the parts, from an address on.
abbrev pub Holds : Memory → (strtab : ℕ) → Items → ℕ → Type 0
Holds m strtab none_left a = Unit
Holds m strtab (filler rest) a =
    ((be32 m a ≡ fdt_padding) ⊎ (be32 m a ≡ fdt_nop)) × Holds m strtab rest (a + 4)
Holds m strtab (text_prop off name text more rest) a =
    let len = length text + 1 + more in
    (be32 m a ≡ fdt_prop)
    × (be32 m (a + 4) ≡ len)
    × (be32 m (a + 4 + 4) ≡ off)
    × (len + 3 < 2 ^ 32)
    × Text m (strtab + off) name
    × (is_text name ≡ true)
    × Text m (a + 4 + 8) text
    × Holds m strtab rest (a + 4 + 8 + padded len)
Holds m strtab (bytes_prop off name value rest) a =
    (be32 m a ≡ fdt_prop)
    × (be32 m (a + 4) ≡ length value)
    × (be32 m (a + 4 + 4) ≡ off)
    × (length value + 3 < 2 ^ 32)
    × Text m (strtab + off) name
    × (is_text name ≡ false)
    × (slice m (a + 4 + 8) (length value) ≡ value)
    × Holds m strtab rest (a + 4 + 8 + padded (length value))
Holds m strtab (node name inner rest) a =
    let start = a + 4 + padded (length name + 1) in
    (be32 m a ≡ fdt_begin_node)
    × (length name + 4 < 2 ^ 32)
    × Text m (a + 4) name
    × Holds m strtab inner start
    × (be32 m (behind inner start) ≡ fdt_end_node)
    × Holds m strtab rest (behind inner start + 4)

abbrev pub nodes : Items → ℕ
nodes none_left = 0
nodes (filler rest) = nodes rest
nodes (text_prop off name text more rest) = nodes rest
nodes (bytes_prop off name value rest) = nodes rest
nodes (node name inner rest) = suc (nodes inner + nodes rest)

-- One line for each node and property, indented by the depth, and then the others.
abbrev pub lines : Items → (depth : ℕ) → List Shown → List Shown
lines none_left depth others = others
lines (filler rest) depth others = lines rest depth others
lines (text_prop off name text more rest) depth others =
    text_line depth name (length text + 1 + more) text ∷ lines rest depth others
lines (bytes_prop off name value rest) depth others =
    bytes_line depth name (length value) value ∷ lines rest depth others
lines (node name inner rest) depth others =
    node_line depth name ∷ lines inner (depth + 1) (lines rest depth others)

-- The tokens of the parts, and others.
abbrev pub tokens : Items → ℕ → ℕ
tokens none_left others = others
tokens (filler rest) others = suc (tokens rest others)
tokens (text_prop off name text more rest) others = suc (tokens rest others)
tokens (bytes_prop off name value rest) others = suc (tokens rest others)
tokens (node name inner rest) others = suc (tokens inner (suc (tokens rest others)))
