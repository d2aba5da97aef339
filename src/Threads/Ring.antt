-- ===== src/Threads/Ring.antt =====
-- Circular doubly linked lists, as the `next` and `prev` of the threads of the examples make them.
use os_workshop.Base.{ℕ, ◌+◌, ◌≤◌, ◌≡◌, ◌≢◌, ◌⊎◌, List, [], ◌∷◌, ◌++◌, arith, ◌∙◌}

module _ {ℓ} (P : ℕ → Type ℓ) where
  abbrev pub All : List ℕ → Type ℓ
  All [] = Unit
  All (x ∷ xs) = P x × All xs

  pub All-append : (xs ys : List ℕ) → All xs → All ys → All (xs ++ ys)
  All-append [] ys h k = k
  All-append (x ∷ xs) ys h k = (h.0, All-append xs ys h.1 k)

pub All-map {ℓ κ} :
    (P : ℕ → Type ℓ) (Q : ℕ → Type κ) (xs : List ℕ) → ((x : ℕ) → P x → Q x) → All P xs → All Q xs
All-map P Q [] f h = tt
All-map P Q (x ∷ xs) f h = (f x h.0, All-map P Q xs f h.1)

pub All-zip {ℓ κ} :
    (P : ℕ → Type ℓ) (Q : ℕ → Type κ) (xs : List ℕ) → All P xs → All Q xs → All (λ x. P x × Q x) xs
All-zip P Q [] h k = tt
All-zip P Q (x ∷ xs) h k = ((h.0, k.0), All-zip P Q xs h.1 k.1)

pub All-of {ℓ} : (P : ℕ → Type ℓ) (xs : List ℕ) → ((x : ℕ) → P x) → All P xs
All-of P [] f = tt
All-of P (x ∷ xs) f = (f x, All-of P xs f)

-- Room for a `thread_t` of 80 bytes at both.
abbrev pub Apart : ℕ → ℕ → Type 0
Apart x y = (x + 80 ≤ y) ⊎ (y + 80 ≤ x)

abbrev pub AllApart : List ℕ → Type 0
AllApart [] = Unit
AllApart (x ∷ xs) = All (Apart x) xs × AllApart xs

pub AllApart-snoc :
    (xs : List ℕ) (t : ℕ) → AllApart xs → All (λ x. Apart x t) xs → AllApart (xs ++ t ∷ [])
AllApart-snoc [] t h k = (tt, tt)
AllApart-snoc (x ∷ xs) t h k =
    (All-append (Apart x) xs (t ∷ []) h.0 (k.0, tt), AllApart-snoc xs t h.1 k.1)

abbrev pub last_of : ℕ → List ℕ → ℕ
last_of a [] = a
last_of a (x ∷ xs) = last_of x xs

pub All-last_of {ℓ} : (P : ℕ → Type ℓ) (a : ℕ) (xs : List ℕ) → P a → All P xs → P (last_of a xs)
All-last_of P a [] h k = h
All-last_of P a (x ∷ xs) h k = All-last_of P x xs k.0 k.1

-- From `a` through `xs` to `b`, and back.
abbrev pub Linked : (next prev : ℕ → ℕ) → ℕ → List ℕ → ℕ → Type 0
Linked next prev a [] b = (next a ≡ b) × (prev b ≡ a)
Linked next prev a (x ∷ xs) b = (next a ≡ x) × (prev x ≡ a) × Linked next prev x xs b

module _ (next prev : ℕ → ℕ) where
  pub Linked-ends :
      (a : ℕ) (xs : List ℕ) (b : ℕ)
      → Linked next prev a xs b
      → (next (last_of a xs) ≡ b) × (prev b ≡ last_of a xs)
  Linked-ends a [] b h = h
  Linked-ends a (x ∷ xs) b h = Linked-ends x xs b h.2

  pub Linked-append :
      (a : ℕ) (xs : List ℕ) (b : ℕ) (ys : List ℕ) (d : ℕ)
      → Linked next prev a xs b
      → Linked next prev b ys d
      → Linked next prev a (xs ++ b ∷ ys) d
  Linked-append a [] b ys d h k = (h.0, h.1, k)
  Linked-append a (x ∷ xs) b ys d h k = (h.0, h.1, Linked-append x xs b ys d h.2 k)

  -- The last element is led to `d` instead.
  pub Linked-retarget :
      (next' prev' : ℕ → ℕ) (a : ℕ) (xs : List ℕ) (b d : ℕ)
      → Linked next prev a xs b
      → AllApart (a ∷ xs)
      → All (λ y. y ≢ last_of a xs → next' y ≡ next y) (a ∷ xs)
      → All (λ y. prev' y ≡ prev y) xs
      → next' (last_of a xs) ≡ d
      → prev' d ≡ last_of a xs
      → Linked next' prev' a xs d
  Linked-retarget next' prev' a [] b d h apart same_next same_prev en ep = (en, ep)
  Linked-retarget next' prev' a (x ∷ xs) b d h apart same_next same_prev en ep =
      let far : Apart a (last_of x xs) = All-last_of (Apart a) x xs apart.0.0 apart.0.1 in
      let ne : a ≢ last_of x xs = ground arith in
      (
        same_next.0 ne ∙ h.0,
        same_prev.0 ∙ h.1,
        Linked-retarget next' prev' x xs b d h.2 apart.1 same_next.1 same_prev.1 en ep,
      )

  pub Linked-agree :
      (next' prev' : ℕ → ℕ) (a : ℕ) (xs : List ℕ) (b : ℕ)
      → Linked next prev a xs b
      → All (λ y. next' y ≡ next y) (a ∷ xs)
      → All (λ y. prev' y ≡ prev y) xs
      → prev' b ≡ prev b
      → Linked next' prev' a xs b
  Linked-agree next' prev' a [] b h same_next same_prev e = (same_next.0 ∙ h.0, e ∙ h.1)
  Linked-agree next' prev' a (x ∷ xs) b h same_next same_prev e = (
    same_next.0 ∙ h.0,
    same_prev.0 ∙ h.1,
    Linked-agree next' prev' x xs b h.2 same_next.1 same_prev.1 e,
  )
