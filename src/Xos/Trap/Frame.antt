-- ===== src/Xos/Trap/Frame.antt =====
-- The frame that `trap_entry` of xos/src/entry.S makes.
use os_workshop.Base.{
  ℕ, suc, ◌+◌, ◌≤◌, ◌<◌, ◌≡◌, ◌≢◌, ◌==◌, ==_false, Bool-cases, inl, inr, if◌then◌else◌, List, [],
  ◌∷◌, ◌++◌, arith, refl, ap, ◌∙◌, sym, u32,
}
use os_workshop.Xos.Trap.{Hart, set, run, trap_entry, minus}

-- A word of the frame at `s`.
pub record Slot : Type 0 where
  pub offset : ℕ
  pub value : ℕ

abbrev pub stored : (s : ℕ) → List Slot → (ℕ → ℕ) → ℕ → ℕ
stored s [] w = w
stored s (v ∷ vs) w = stored s vs (set w (u32 (s + v.offset)) v.value)

-- The frame holds these words.
abbrev pub Holds : (s : ℕ) → List Slot → (ℕ → ℕ) → Type 0
Holds s [] w = Unit
Holds s (v ∷ vs) w = (w (u32 (s + v.offset)) ≡ v.value) × Holds s vs w

-- Offsets below 128 that increase from `low` on.
abbrev pub Increases : (low : ℕ) → List Slot → Type 0
Increases low [] = Unit
Increases low (v ∷ vs) = (low ≤ v.offset) × (v.offset < 128) × Increases (suc v.offset) vs

pub set_ne : (f : ℕ → ℕ) (at value x : ℕ) → x ≢ at → set f at value x ≡ f x
set_ne f at value x ne = rw (==_false x at ne) refl

pub apart : (s i j : ℕ) → i < 128 → j < 128 → i ≢ j → u32 (s + i) ≢ u32 (s + j)
apart s i j hi hj ne = omega arith

set_self : (f : ℕ → ℕ) (at value : ℕ) → set f at value at ≡ value
set_self f at value = ground arith

stored-below :
    (s low : ℕ) (vs : List Slot) (w : ℕ → ℕ) (i : ℕ)
    → i < low
    → Increases low vs
    → stored s vs w (u32 (s + i)) ≡ w (u32 (s + i))
stored-below s low [] w i lt h = refl
stored-below s low (v ∷ vs) w i lt (above, small, h) =
    stored-below s (suc v.offset) vs (set w (u32 (s + v.offset)) v.value) i (omega arith) h
    ∙ set_ne w (u32 (s + v.offset)) v.value (u32 (s + i))
        (apart s i v.offset (omega arith) small (omega arith))

pub stored-Holds :
    (s low : ℕ) (vs : List Slot) (w : ℕ → ℕ) → Increases low vs → Holds s vs (stored s vs w)
stored-Holds s low [] w h = tt
stored-Holds s low (v ∷ vs) w (above, small, h) =
    let w' = set w (u32 (s + v.offset)) v.value in
    (
      stored-below s (suc v.offset) vs w' v.offset (omega arith) h
          ∙ set_self w (u32 (s + v.offset)) v.value,
      stored-Holds s (suc v.offset) vs w' h,
    )

abbrev pub slot : Hart → (offset r : ℕ) → Slot
slot h offset r = record { offset = offset; value = h.regs r }

-- ra and t0 to t6, a1 to a7, and sp, gp, tp and s0 to s11, in the order of the frame.
abbrev pub temporaries : Hart → List Slot
temporaries h =
    slot h 0x00 1
    ∷ slot h 0x04 5
    ∷ slot h 0x08 6
    ∷ slot h 0x0C 7
    ∷ slot h 0x10 28
    ∷ slot h 0x14 29
    ∷ slot h 0x18 30
    ∷ slot h 0x1C 31
    ∷ []

abbrev pub arguments : Hart → List Slot
arguments h =
    slot h 0x24 11
    ∷ slot h 0x28 12
    ∷ slot h 0x2C 13
    ∷ slot h 0x30 14
    ∷ slot h 0x34 15
    ∷ slot h 0x38 16
    ∷ slot h 0x3C 17
    ∷ []

abbrev pub preserved : Hart → List Slot
preserved h =
    slot h 0x44 2
    ∷ slot h 0x48 3
    ∷ slot h 0x4C 4
    ∷ slot h 0x50 8
    ∷ slot h 0x54 9
    ∷ slot h 0x58 18
    ∷ slot h 0x5C 19
    ∷ slot h 0x60 20
    ∷ slot h 0x64 21
    ∷ slot h 0x68 22
    ∷ slot h 0x6C 23
    ∷ slot h 0x70 24
    ∷ slot h 0x74 25
    ∷ slot h 0x78 26
    ∷ slot h 0x7C 27
    ∷ []

-- The words of the frame, with what the user's registers hold.
abbrev pub slots : Hart → List Slot
slots h =
    temporaries h
    ++ slot h 0x20 10 ∷ (arguments h ++ record { offset = 0x40; value = h.sepc } ∷ preserved h)

abbrev pub frame_at : Hart → ℕ
frame_at h = u32 (h.sscratch + minus 128)

pub trap_entry-words : (h : Hart) → (run trap_entry h).words ≡ stored (frame_at h) (slots h) h.words
trap_entry-words h = refl

-- One slot has a new value.
abbrev pub updated : (i value : ℕ) → List Slot → List Slot
updated i value [] = []
updated i value (v ∷ vs) =
    record { offset = v.offset; value = if v.offset == i then value else v.value }
    ∷ updated i value vs

updated-one :
    (s i value : ℕ) (v : Slot) (w : ℕ → ℕ)
    → i < 128
    → v.offset < 128
    → w (u32 (s + v.offset)) ≡ v.value
    → set w (u32 (s + i)) value (u32 (s + v.offset)) ≡ (if v.offset == i then value else v.value)
updated-one s i value v w hi hv e = elim (Bool-cases (v.offset == i)) [
  | inl same ↦
      let at : v.offset ≡ i = ground (arith, same) in
      ap (λ k. set w (u32 (s + i)) value (u32 (s + k))) at
      ∙ set_self w (u32 (s + i)) value
      ∙ sym (ap (λ b. if b then value else v.value) same)
  | inr other ↦
      let ne : v.offset ≢ i = ground (arith, other) in
      set_ne w (u32 (s + i)) value (u32 (s + v.offset)) (apart s v.offset i hv hi ne)
      ∙ e
      ∙ sym (ap (λ b. if b then value else v.value) other)
]

pub Holds-updated :
    (s low i value : ℕ) (vs : List Slot) (w : ℕ → ℕ)
    → i < 128
    → Increases low vs
    → Holds s vs w
    → Holds s (updated i value vs) (set w (u32 (s + i)) value)
Holds-updated s low i value [] w hi h held = tt
Holds-updated s low i value (v ∷ vs) w hi (above, small, h) (e, held) =
    (updated-one s i value v w hi small e, Holds-updated s (suc v.offset) i value vs w hi h held)

pub Holds-kept :
    (s low : ℕ) (vs : List Slot) (w w' : ℕ → ℕ)
    → Increases low vs
    → ((i : ℕ) → i < 128 → w' (u32 (s + i)) ≡ w (u32 (s + i)))
    → Holds s vs w
    → Holds s vs w'
Holds-kept s low [] w w' h same held = tt
Holds-kept s low (v ∷ vs) w w' (above, small, h) same (e, held) =
    (same v.offset small ∙ e, Holds-kept s (suc v.offset) vs w w' h same held)

pub Holds-split :
    (s : ℕ) (vs ws : List Slot) (w : ℕ → ℕ) → Holds s (vs ++ ws) w → Holds s vs w × Holds s ws w
Holds-split s [] ws w held = (tt, held)
Holds-split s (v ∷ vs) ws w (e, held) =
    let both = Holds-split s vs ws w held in ((e, both.0), both.1)
