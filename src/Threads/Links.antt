-- ===== src/Threads/Links.antt =====
-- `link` and `unlink` on a circular list.
use os_workshop.Base.{ℕ, ◌≡◌, ◌≢◌, List, [], ◌∷◌, ◌++◌, arith}
use os_workshop.Threads.Machine.{Store, link, unlink}
use os_workshop.Threads.Ring.{
  All, All-map, All-zip, Apart, AllApart, last_of, All-last_of, Linked, Linked-ends, Linked-append,
  Linked-retarget,
}
use os_workshop.Threads.Queue.{next_in, prev_in}

module _ (s : Store) (t c id p : ℕ) (ep : prev_in s c ≡ p) (nc : t ≢ c) (np : t ≢ p) where
  pub next-link : (y : ℕ) → y ≢ t → y ≢ p → next_in (link s t c id) y ≡ next_in s y
  unfolding link
  next-link y h k = ground arith

  next-link_last : next_in (link s t c id) p ≡ t
  unfolding link
  next-link_last = ground arith

  next-link_self : next_in (link s t c id) t ≡ c
  unfolding link
  next-link_self = ground arith

  prev-link : (y : ℕ) → y ≢ t → y ≢ c → prev_in (link s t c id) y ≡ prev_in s y
  unfolding link
  prev-link y h k = ground arith

  prev-link_first : prev_in (link s t c id) c ≡ t
  unfolding link
  prev-link_first = ground arith

  prev-link_self : prev_in (link s t c id) t ≡ p
  unfolding link
  prev-link_self = ground arith

  pub ctxt-link : (y : ℕ) → (link s t c id y).ctxt ≡ (s y).ctxt
  unfolding link
  ctxt-link y = ground arith

-- A new thread stands behind the last one.
pub link-Linked :
    (s : Store) (t c id : ℕ) (ts : List ℕ)
    → Linked (next_in s) (prev_in s) c ts c
    → AllApart (c ∷ ts)
    → All (λ x. Apart x t) (c ∷ ts)
    → Linked (next_in (link s t c id)) (prev_in (link s t c id)) c (ts ++ t ∷ []) c
link-Linked s t c id ts ring apart far =
    let p = last_of c ts in
    let ep = (Linked-ends (next_in s) (prev_in s) c ts c ring).1 in
    let last_far : Apart p t = All-last_of (λ x. Apart x t) c ts far.0 far.1 in
    let nc : t ≢ c = let first_far = far.0 in ground arith in
    let np : t ≢ p = ground arith in
    let n = next_in (link s t c id) in
    let q = prev_in (link s t c id) in
    Linked-append n q c ts t [] c
      (Linked-retarget (next_in s) (prev_in s) n q c ts c t ring apart
        (All-map (λ x. Apart x t) (λ y. y ≢ p → n y ≡ next_in s y) (c ∷ ts)
          (λ y d ny. next-link s t c id p ep nc np y (ground arith) ny) far)
        (All-map (λ x. Apart x t × Apart c x) (λ y. q y ≡ prev_in s y) ts
          (λ y d. prev-link s t c id p ep nc np y (ground (arith, d.0)) (ground (arith, d.1)))
          (All-zip (λ x. Apart x t) (Apart c) ts far.1 apart.0))
        (next-link_last s t c id p ep nc np) (prev-link_self s t c id p ep nc np))
      (next-link_self s t c id p ep nc np, prev-link_first s t c id p ep nc np)

module _ (s : Store) (c n p : ℕ) (nn : n ≢ c) (np : p ≢ c) where
  next-unlink : (y : ℕ) → y ≢ c → y ≢ p → next_in (unlink s c n p) y ≡ next_in s y
  unfolding unlink
  next-unlink y h k = ground arith

  next-unlink_last : next_in (unlink s c n p) p ≡ n
  unfolding unlink
  next-unlink_last = ground arith

  prev-unlink : (y : ℕ) → y ≢ c → y ≢ n → prev_in (unlink s c n p) y ≡ prev_in s y
  unfolding unlink
  prev-unlink y h k = ground arith

  prev-unlink_first : prev_in (unlink s c n p) n ≡ p
  unfolding unlink
  prev-unlink_first = ground arith

  pub ctxt-unlink : (y : ℕ) → (unlink s c n p y).ctxt ≡ (s y).ctxt
  unfolding unlink
  ctxt-unlink y = ground arith

-- The list without the first thread.
pub unlink-Linked :
    (s : Store) (c n : ℕ) (ts : List ℕ)
    → Linked (next_in s) (prev_in s) n ts c
    → AllApart (c ∷ n ∷ ts)
    → Linked (next_in (unlink s c n (last_of n ts))) (prev_in (unlink s c n (last_of n ts))) n ts n
unlink-Linked s c n ts ring apart =
    let p = last_of n ts in
    let last_far : Apart c p = All-last_of (Apart c) n ts apart.0.0 apart.0.1 in
    let first_far = apart.0.0 in
    let nn : n ≢ c = ground arith in
    let np : p ≢ c = ground arith in
    let n' = next_in (unlink s c n p) in
    let q' = prev_in (unlink s c n p) in
    Linked-retarget (next_in s) (prev_in s) n' q' n ts c n ring apart.1
      (All-map (Apart c) (λ y. y ≢ p → n' y ≡ next_in s y) (n ∷ ts)
        (λ y d ny. next-unlink s c n p nn np y (ground arith) ny) apart.0)
      (All-map (λ x. Apart c x × Apart n x) (λ y. q' y ≡ prev_in s y) ts
        (λ y d. prev-unlink s c n p nn np y (ground (arith, d.0)) (ground (arith, d.1)))
        (All-zip (Apart c) (Apart n) ts apart.0.1 apart.1.0))
      (next-unlink_last s c n p nn np) (prev-unlink_first s c n p nn np)
