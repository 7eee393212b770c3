-- ===== src/Range/Nodes.antt =====
-- The removal of a range of keys from a small list.
use libslablist.Prelude.{
  ℕ, ◌≤◌, ◌<◌, ◌^◌, ◌≡◌, refl, ap, List, [], ◌∷◌, Bool, true, false, inl, inr, All, sub64, Option,
  Bool-cases, ◌+◌, All-map, none, some, if◌then◌else◌, arith, length,
}
use libslablist.Callbacks.{Elem, Callbacks, Ranked, over, Sign-cases}
use libslablist.Sorted.{Above, Ascends, Above-mono}
use libslablist.Range.{drop_nodes, rem_range_nodes}
use libslablist.Range.Filter.{outside, outside-above}

-- Some element is not below `min`.
unfoldable pub reaches_from : Callbacks → Elem → List Elem → Bool
reaches_from cb min [] = false
reaches_from cb min (x ∷ xs) =
    let rest = reaches_from cb min xs in elim (cb.cmp min x) [ over ↦ rest | _ ↦ true ]

module _ {cb : Callbacks} (r : Ranked cb) (min max : Elem) (le : r.rank min ≤ r.rank max) where
  open r use {rank, cmp_rank}

  -- From the first node that is not below the range, `k` nodes on.
  drop_nodes-outside :
      (k m : ℕ) (xs : List Elem)
      → Ascends rank xs
      → All (λ x. rank min ≤ rank x) xs
      → m ≡ length xs + k
      → m < 2 ^ 64
      → drop_nodes cb max m xs ≡ (outside cb min max xs, length (outside cb min max xs) + k)
  unfolding drop_nodes outside
  drop_nodes-outside k m [] asc from count bound = ground arith
  drop_nodes-outside k m (x ∷ xs) asc from count bound =
      let rest = drop_nodes-outside k (sub64 m 1) xs asc.1 from.1 (omega arith) (omega arith) in
      elim (Sign-cases (cb.cmp max x)) [
        | inl o ↦ ground (arith, o, cmp_rank min x, rest)
        | inr (inl o) ↦ ground (arith, o, cmp_rank min x, rest)
        | inr (inr o) ↦
            let above : Above rank max (x ∷ xs) = (
              ground (arith, cmp_rank max x),
              Above-mono rank max x xs (ground (arith, cmp_rank max x)) asc.0,
            ) in
            rw (o, drop_nodes) (ground (arith, outside-above r min max (x ∷ xs) above))
      ]

  abbrev kept_nodes : ℕ → List Elem → Option (List Elem × ℕ)
  kept_nodes k xs =
      if reaches_from cb min xs
      then some (outside cb min max xs, length (outside cb min max xs) + k)
      else none

  walk-outside :
      (k m : ℕ) (xs : List Elem)
      → Ascends rank xs
      → m ≡ length xs + k
      → m < 2 ^ 64
      → rem_range_nodes cb min max m xs ≡ kept_nodes k xs
  unfolding rem_range_nodes reaches_from outside
  walk-outside k m [] asc count bound = refl
  walk-outside k m (x ∷ xs) asc count bound =
      let rest = walk-outside (k + 1) m xs asc.1 (omega arith) bound in
      elim (Sign-cases (cb.cmp min x)) [
        | inl o ↦ grow o rest
        | inr (inl o) ↦
            rw (o, rem_range_nodes, reaches_from)
              (ap some (
                drop_nodes-outside k m (x ∷ xs) asc (from (ground (arith, cmp_rank min x))) count
                  bound))
        | inr (inr o) ↦
            rw (o, rem_range_nodes, reaches_from)
              (ap some (
                drop_nodes-outside k m (x ∷ xs) asc (from (ground (arith, cmp_rank min x))) count
                  bound))
      ]
    where
      grow :
          cb.cmp min x ≡ over
          → rem_range_nodes cb min max m xs ≡ kept_nodes (k + 1) xs
          → rem_range_nodes cb min max m (x ∷ xs) ≡ kept_nodes k (x ∷ xs)
      grow o rest = elim (Bool-cases (reaches_from cb min xs)) [
        | inl t ↦
            rw (o, rem_range_nodes, reaches_from) (rw (rest, t) (rw (o, outside) (ground arith)))
        | inr t ↦ rw (o, rem_range_nodes, reaches_from) (rw (rest, t) refl)
      ]

      from : rank min ≤ rank x → All (λ y. rank min ≤ rank y) (x ∷ xs)
      from h = (h, All-map (λ y. rank x < rank y) (λ y p. omega arith) xs asc.0)

  -- A small list that is sorted and counted, with the lesser end first: where an element is not below
  -- the range, the nodes that stay are those outside the range and the count is theirs; where every
  -- element is below it, the walk leaves the list.
  pub rem_range_nodes-outside :
      (m : ℕ) (xs : List Elem)
      → Ascends rank xs
      → m ≡ length xs
      → m < 2 ^ 64
      → rem_range_nodes cb min max m xs ≡ (
          if reaches_from cb min xs
          then some (outside cb min max xs, length (outside cb min max xs))
          else none)
  rem_range_nodes-outside m xs asc count bound =
      ground (arith, walk-outside 0 m xs asc (omega arith) bound)
