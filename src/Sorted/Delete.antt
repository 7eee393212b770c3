-- ===== src/Sorted/Delete.antt =====
-- Removal from a sorted list undoes the insertion.
use libslablist.Prelude.{◌<◌, ◌≡◌, refl, List, [], ◌∷◌, ◌++◌, none, some, arith, suc, length}
use libslablist.Callbacks.{Elem, Callbacks, Ranked}
use libslablist.Sorted.{insert, find, delete, Ascends, Above, Below, Above-mono, find-Above}

module _ {cb : Callbacks} (r : Ranked cb) (e : Elem) where
  open r use {rank, cmp_rank}

  -- The element at the place is taken out.
  pub delete-append :
      (xs ys : List Elem) (y : Elem)
      → Below rank e xs
      → rank y ≡ rank e
      → delete cb e (xs ++ (y ∷ ys)) ≡ xs ++ ys
  unfolding delete
  delete-append [] ys y h k = ground (arith, cmp_rank e y)
  delete-append (x ∷ xs) ys y h k = ground (arith, cmp_rank e x, delete-append xs ys y h.1)

  -- Below the key there is nothing to take out.
  pub delete-Below : (xs : List Elem) → Below rank e xs → delete cb e xs ≡ xs
  unfolding delete
  delete-Below [] h = refl
  delete-Below (x ∷ xs) h = ground (arith, cmp_rank e x, delete-Below xs h.1)

  pub delete-Above : (a : Elem) (xs : List Elem) → Above rank a xs → Above rank a (delete cb e xs)
  unfolding delete
  delete-Above a [] h = tt
  delete-Above a (x ∷ xs) h = ground (arith, cmp_rank e x, delete-Above a xs h.1)

  pub delete-Ascends : (xs : List Elem) → Ascends rank xs → Ascends rank (delete cb e xs)
  unfolding delete
  delete-Ascends [] h = tt
  delete-Ascends (x ∷ xs) h =
      ground (arith, cmp_rank e x, delete-Above x xs h.0, delete-Ascends xs h.1)

  -- The key is gone.
  pub find-delete : (xs : List Elem) → Ascends rank xs → find cb e (delete cb e xs) ≡ none
  unfolding delete find
  find-delete [] h = refl
  find-delete (x ∷ xs) h =
      ground (arith, cmp_rank e x, find-delete xs h.1, find-Above r e xs, Above-mono rank e x xs)

  -- What is found has the key, and what all elements have.
  pub find_rank : (x : Elem) (xs : List Elem) → find cb e xs ≡ some x → rank x ≡ rank e
  unfolding find
  find_rank x [] k = cc
  find_rank x (y ∷ ys) k = ground (arith, cmp_rank e y, find_rank x ys)

  find-Above_found :
      (a x : Elem) (xs : List Elem) → Above rank a xs → find cb e xs ≡ some x → rank a < rank x
  unfolding find
  find-Above_found a x [] h k = cc
  find-Above_found a x (y ∷ ys) h k = ground (arith, cmp_rank e y, find-Above_found a x ys h.1)

  insert-least : (x : Elem) (xs : List Elem) → Above rank x xs → insert cb x xs ≡ x ∷ xs
  unfolding insert
  insert-least x [] h = refl
  insert-least x (y ∷ ys) h = ground (arith, cmp_rank x y)

  -- The element that was found goes back to its place.
  pub insert-delete :
      (x : Elem) (xs : List Elem)
      → Ascends rank xs
      → find cb e xs ≡ some x
      → insert cb x (delete cb e xs) ≡ xs
  unfolding delete find insert
  insert-delete x [] h k = cc
  insert-delete x (y ∷ ys) h k = ground (
    arith,
    cmp_rank e y,
    cmp_rank x y,
    insert-least y ys h.0,
    insert-delete x ys h.1,
    find-Above_found y x ys h.0,
  )

  pub length-delete :
      (x : Elem) (xs : List Elem)
      → find cb e xs ≡ some x
      → suc (length (delete cb e xs)) ≡ length xs
  unfolding delete find
  length-delete x [] k = cc
  length-delete x (y ∷ ys) k = ground (arith, cmp_rank e y, length-delete x ys)
