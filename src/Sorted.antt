-- ===== src/Sorted.antt =====
-- What a sorted list promises: its elements rise, and an element that is added goes to its place.
pub mod Cells
pub mod Delete
use libslablist.Prelude.{
  Option, none, some, ℕ, ◌≤◌, ◌<◌, ◌≡◌, ◌≢◌, refl, List, [], ◌∷◌, ◌++◌, All, All-append,
  All-append_left, All-append_right, All-map, arith,
}
use libslablist.Callbacks.{Elem, Callbacks, Ranked, under, same}

-- Put `e` in front of the first element that is greater.
unfoldable pub insert : Callbacks → Elem → List Elem → List Elem
insert cb e [] = e ∷ []
insert cb e (x ∷ xs) = elim (cb.cmp e x) [ under ↦ e ∷ (x ∷ xs) | _ ↦ x ∷ insert cb e xs ]

-- The element with the key of `e`.
unfoldable pub find : Callbacks → Elem → List Elem → Option Elem
find cb e [] = none
find cb e (x ∷ xs) = elim (cb.cmp e x) [ same ↦ some x | _ ↦ find cb e xs ]

-- The list without the first element that has the key of `e`.
unfoldable pub delete : Callbacks → Elem → List Elem → List Elem
delete cb e [] = []
delete cb e (x ∷ xs) = elim (cb.cmp e x) [ same ↦ xs | _ ↦ x ∷ delete cb e xs ]

module _ (rank : ℕ → ℕ) where
  abbrev pub Below : Elem → List Elem → Type 0
  Below e xs = All (λ x. rank x < rank e) xs

  abbrev pub Above : Elem → List Elem → Type 0
  Above e xs = All (λ x. rank e < rank x) xs

  -- No element has the key of `e`.
  abbrev pub Lacks : Elem → List Elem → Type 0
  Lacks e xs = All (λ x. rank x ≢ rank e) xs

  -- The elements rise, so no two have one key.
  abbrev pub Ascends : List Elem → Type 0
  Ascends [] = Unit
  Ascends (x ∷ xs) = Above x xs × Ascends xs

  pub Ascends-left : (xs ys : List Elem) → Ascends (xs ++ ys) → Ascends xs
  Ascends-left [] ys h = tt
  Ascends-left (x ∷ xs) ys h =
      (All-append_left (λ y. rank x < rank y) xs ys h.0, Ascends-left xs ys h.1)

  pub Ascends-right : (xs ys : List Elem) → Ascends (xs ++ ys) → Ascends ys
  Ascends-right [] ys h = h
  Ascends-right (x ∷ xs) ys h = Ascends-right xs ys h.1

  pub Ascends-between : (xs ys : List Elem) → Ascends (xs ++ ys) → All (λ x. Above x ys) xs
  Ascends-between [] ys h = tt
  Ascends-between (x ∷ xs) ys h =
      (All-append_right (λ y. rank x < rank y) xs ys h.0, Ascends-between xs ys h.1)

  pub Ascends-append :
      (xs ys : List Elem) → Ascends xs → Ascends ys → All (λ x. Above x ys) xs → Ascends (xs ++ ys)
  Ascends-append [] ys h k b = k
  Ascends-append (x ∷ xs) ys h k b =
      (All-append (λ y. rank x < rank y) xs ys h.0 b.0, Ascends-append xs ys h.1 k b.1)

  pub Above-mono : (a b : Elem) (xs : List Elem) → rank a ≤ rank b → Above b xs → Above a xs
  Above-mono a b xs h = All-map (λ y. rank b < rank y) (λ x p. omega arith) xs

  pub Below-mono : (a b : Elem) (xs : List Elem) → rank a ≤ rank b → Below a xs → Below b xs
  Below-mono a b xs h = All-map (λ y. rank y < rank a) (λ x p. omega arith) xs

module _ {cb : Callbacks} (r : Ranked cb) (e : Elem) where
  open r use {rank, cmp_rank}

  -- Where everything before is less and everything behind is greater, there is the place.
  pub insert-append :
      (xs ys : List Elem)
      → Below rank e xs
      → Above rank e ys
      → insert cb e (xs ++ ys) ≡ xs ++ (e ∷ ys)
  unfolding insert
  insert-append [] [] h k = refl
  insert-append [] (y ∷ ys) h k = ground (arith, cmp_rank e y)
  insert-append (x ∷ xs) ys h k = ground (arith, cmp_rank e x, insert-append xs ys h.1 k)

  -- An insertion keeps the order, unless the key was there.
  pub insert-Above :
      (a : Elem) (xs : List Elem)
      → rank a < rank e
      → Above rank a xs
      → Above rank a (insert cb e xs)
  unfolding insert
  insert-Above a [] l h = (l, tt)
  insert-Above a (x ∷ xs) l h = ground (arith, cmp_rank e x, insert-Above a xs l h.1)

  pub insert-Ascends :
      (xs : List Elem) → Ascends rank xs → Lacks rank e xs → Ascends rank (insert cb e xs)
  unfolding insert
  insert-Ascends [] h n = (tt, tt)
  insert-Ascends (x ∷ xs) h n =
      ground
        (arith, cmp_rank e x, Above-mono rank e x xs, insert-Above x xs, insert-Ascends xs h.1 n.1)

  -- What is less than `e` is passed over, and behind something greater it is not.
  pub find-Below : (xs ys : List Elem) → Below rank e xs → find cb e (xs ++ ys) ≡ find cb e ys
  unfolding find
  find-Below [] ys h = refl
  find-Below (x ∷ xs) ys h = ground (arith, cmp_rank e x, find-Below xs ys h.1)

  pub find-Above : (xs : List Elem) → Above rank e xs → find cb e xs ≡ none
  unfolding find
  find-Above [] h = refl
  find-Above (x ∷ xs) h = ground (arith, cmp_rank e x, find-Above xs h.1)

  pub find-Lacks : (xs : List Elem) → find cb e xs ≡ none → Lacks rank e xs
  unfolding find
  find-Lacks [] h = tt
  find-Lacks (x ∷ xs) h = ground (arith, cmp_rank e x, find-Lacks xs)
