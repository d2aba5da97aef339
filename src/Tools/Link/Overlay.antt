-- ===== src/Tools/Link/Overlay.antt =====
-- A memory with the parts of a file in it.
use os_workshop.Base.{
  ℕ, ◌+◌, ◌^◌, ◌≤◌, ◌<◌, ◌≡◌, ◌⊎◌, inl, inr, List, [], ◌∷◌, ◌++◌, Memory, AllBytes, slice, length,
  length-append, u32, slice-add, slice-eq_of_SameBytes, arith, ap, ap₂, ◌∙◌, sym, refl,
}
use mathlib.Core.Path.{subst}

-- What `read` gives before it ends.
abbrev pub IsChunks : List (List ℕ) → Type 0
IsChunks [] = Unit
IsChunks (c ∷ cs) = (0 < length c) × (length c ≤ 1024) × AllBytes c × IsChunks cs

abbrev pub contents : List (List ℕ) → List ℕ
contents [] = []
contents (c ∷ cs) = c ++ contents cs

-- `ram'` is `ram` with `xs` at `addr`.
pub record Loaded (addr : ℕ) (xs : List ℕ) (ram ram' : Memory) : Type 0 where
  pub stored : slice ram' addr (length xs) ≡ xs
  pub elsewhere : (a : ℕ) → (a < addr) ⊎ (addr + length xs ≤ a) → ram' a ≡ ram a

-- One behind the other; where the second is empty, its address does not matter.
pub Loaded-append :
    (addr next : ℕ) (xs ys : List ℕ) (ram ram1 ram2 : Memory)
    → (next ≡ addr + length xs) ⊎ (ys ≡ [])
    → Loaded addr xs ram ram1
    → Loaded next ys ram1 ram2
    → Loaded addr (xs ++ ys) ram ram2
Loaded-append addr next xs ys ram ram1 ram2 follows first second = record {
  stored =
      ap (slice ram2 addr) (length-append xs ys)
      ∙ slice-add ram2 addr (length xs) (length ys) (addr + length xs) refl
      ∙ ap₂ ◌++◌
          (slice-eq_of_SameBytes ram2 ram1 addr addr (length xs)
              (λ i lt. second.elsewhere (addr + i) (before follows (addr + i) (omega arith)))
            ∙ first.stored)
          (behind follows second.stored);
  elsewhere = λ a out.
      let n = length-append xs ys in
      second.elsewhere a (beside follows a (ground arith)) ∙ first.elsewhere a (ground arith);
}
  where
    empty : (next ≡ addr + length xs) ⊎ (ys ≡ []) → (next ≡ addr + length xs) ⊎ (length ys ≡ 0)
    empty (inl e) = inl e
    empty (inr e) = inr (ap length e)

    before :
        (next ≡ addr + length xs) ⊎ (ys ≡ [])
        → (a : ℕ) → a < addr + length xs
        → (a < next) ⊎ (next + length ys ≤ a)
    before f a lt = let n = empty f in ground arith

    beside :
        (next ≡ addr + length xs) ⊎ (ys ≡ [])
        → (a : ℕ) → (a < addr) ⊎ (addr + length xs + length ys ≤ a)
        → (a < next) ⊎ (next + length ys ≤ a)
    beside f a out = let n = empty f in ground arith

    behind :
        (next ≡ addr + length xs) ⊎ (ys ≡ [])
        → slice ram2 next (length ys) ≡ ys
        → slice ram2 (addr + length xs) (length ys) ≡ ys
    behind (inl e) h = subst (λ a. slice ram2 a (length ys) ≡ ys) e h
    behind (inr e) h = subst (λ zs. slice ram2 (addr + length xs) (length zs) ≡ zs) (sym e) refl

empty-of-length : (xs : List ℕ) → length xs ≡ 0 → xs ≡ []
empty-of-length [] e = refl
empty-of-length (x ∷ xs) e = absurd (omega arith)

-- The next address, also where the file ends at the end of the address space.
pub follows :
    (addr : ℕ) (c : List ℕ) (rest : List ℕ)
    → addr + length (c ++ rest) ≤ 2 ^ 32
    → (u32 (addr + length c) + length rest ≤ 2 ^ 32)
      × ((u32 (addr + length c) ≡ addr + length c) ⊎ (rest ≡ []))
follows addr c rest fits =
    let n = length-append c rest in
    let one : (u32 (addr + length c) ≡ addr + length c) ⊎ (length rest ≡ 0) = ground arith in
    (omega arith, elim one [ inl e ↦ inl e | inr e ↦ inr (empty-of-length rest e) ])
