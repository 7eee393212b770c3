-- ===== src/Range/Filter.antt =====
-- What the removal of a range of keys leaves of a list of elements.
use libslablist.Prelude.{◌≤◌, ◌<◌, ◌≡◌, refl, List, [], ◌∷◌, ◌++◌, All, arith, length}
use libslablist.Callbacks.{Elem, Callbacks, Ranked, under, over}

-- The elements below `min` or above `max`.
unfoldable pub outside : Callbacks → Elem → Elem → List Elem → List Elem
outside cb min max [] = []
outside cb min max (x ∷ xs) =
    let rest = outside cb min max xs in
    elim (cb.cmp min x) [
      | over ↦ x ∷ rest
      | _ ↦ elim (cb.cmp max x) [ under ↦ x ∷ rest | _ ↦ rest ]
    ]

pub length-outside :
    (cb : Callbacks) (min max : Elem) (xs : List Elem) → length (outside cb min max xs) ≤ length xs
unfolding outside
length-outside cb min max [] = omega arith
length-outside cb min max (x ∷ xs) = ground (arith, length-outside cb min max xs)

module _ {cb : Callbacks} (r : Ranked cb) (min max : Elem) where
  open r use {rank, cmp_rank}

  pub outside-append :
      (xs ys : List Elem)
      → outside cb min max (xs ++ ys) ≡ outside cb min max xs ++ outside cb min max ys
  unfolding outside
  outside-append [] ys = refl
  outside-append (x ∷ xs) ys = ground (arith, outside-append xs ys)

  pub outside-below :
      (xs : List Elem) → All (λ x. rank x < rank min) xs → outside cb min max xs ≡ xs
  unfolding outside
  outside-below [] h = refl
  outside-below (x ∷ xs) h = ground (arith, cmp_rank min x, outside-below xs h.1)

  pub outside-above :
      (xs : List Elem) → All (λ x. rank max < rank x) xs → outside cb min max xs ≡ xs
  unfolding outside
  outside-above [] h = refl
  outside-above (x ∷ xs) h = ground (arith, cmp_rank min x, cmp_rank max x, outside-above xs h.1)

  pub outside-within :
      (xs : List Elem)
      → All (λ x. (rank min ≤ rank x) × (rank x ≤ rank max)) xs
      → outside cb min max xs ≡ []
  unfolding outside
  outside-within [] h = refl
  outside-within (x ∷ xs) h = ground (arith, cmp_rank min x, cmp_rank max x, outside-within xs h.1)
