-- ===== src/Span.antt =====
-- Passes over a range of keys, and its ends, in a list without sublayers: slablist_fold_range_sml,
-- slablist_foldr_range and slablist_foldl_range of src/slablist_cons.c, slablist_range_min and
-- slablist_range_max of src/slablist_find.c. A callback that folds is given the cells that it reads.
-- `none` is an access through NULL.
pub mod Filter
pub mod Cells
pub mod Right
pub mod Left
pub mod Nearest
pub mod Ends
use libslablist.Prelude.{
  ℕ, zero, suc, ◌+◌, ◌-◌, List, [], ◌∷◌, Bool, true, false, Option, none, some, if◌then◌else◌, ◌==◌,
  leb, sub64, slice, length,
}
use libslablist.Callbacks.{Elem, Callbacks, Sign, under, same, over}
use libslablist.Slab.{Slab, live}
use libslablist.Search.{slab_bin_srch}
use libslablist.Chain.{Place, at}
use libslablist.Scan.{find_linear_scan}
use libslablist.Insert.{is_same}
use libslablist.Slablist.{Slablist, small, chain, slist_is_sorting_temp}

-- The first `k` nodes, into an array.
unfoldable pub copy_nodes : ℕ → List Elem → Option (List Elem)
copy_nodes zero nodes = some []
copy_nodes (suc k) [] = none
copy_nodes (suc k) (x ∷ xs) = elim (copy_nodes k xs) [ none ↦ none | some ys ↦ some (x ∷ ys) ]

-- An index that the search returned, or the last one in use.
abbrev pub clamp : ℕ → ℕ → ℕ
clamp n i = if i == n then i - 1 else i

module _ (cb : Callbacks) (min max : Elem) where
  abbrev pub in_range : Elem → Bool
  in_range e = is_same (cb.bnd e min max)

  -- From the index `i` on: the first loop of slablist_fold_range_sml.
  unfoldable pub from_range : List Elem → List Elem
  from_range [] = []
  from_range (x ∷ xs) = let rest = from_range xs in if in_range x then x ∷ xs else rest

  -- Up to the index `j`: the second loop, from the end.
  unfoldable pub to_range : List Elem → List Elem
  to_range [] = []
  to_range (x ∷ xs) = elim (to_range xs) [
    | [] ↦ if in_range x then x ∷ [] else []
    | y ∷ ys ↦ x ∷ (y ∷ ys)
  ]

  module _ (f : Elem → List Elem → Elem) where
    -- Without a node no loop runs, and the callback is given no element.
    unfoldable pub fold_range_nodes : Elem → ℕ → List Elem → Option Elem
    unfolding from_range to_range copy_nodes
    fold_range_nodes z m nodes = elim (copy_nodes m nodes) [
      | none ↦ none
      | some [] ↦ some (f z [])
      | some (x ∷ xs) ↦ elim (from_range (x ∷ xs)) [
        | [] ↦ some z
        | y ∷ ys ↦ some (f z (to_range (y ∷ ys)))
      ]
    ]

    -- `while (slab != smax)`, over `d` slabs, along `s_next` or `s_prev`.
    unfoldable pub fold_gap : ℕ → Elem → List Slab → Option (Elem × Slab)
    fold_gap d a [] = none
    fold_gap zero a (s ∷ ss) = some (a, s)
    fold_gap (suc d) a (s ∷ ss) = fold_gap d (f a (live s)) ss

    module _ (sorting : Bool) where
      -- Both ends in one slab.
      unfoldable pub foldr_within : Elem → Slab → Elem
      foldr_within z s =
          let i = clamp s.s_elems (slab_bin_srch cb min sorting s) in
          let j = clamp s.s_elems (slab_bin_srch cb max sorting s) in
          let j' = if in_range (s.s_arr j) then j else j - 1 in
          if in_range (s.s_arr i) then f z (slice s.s_arr i (sub64 (j' + 1) i)) else z

      -- The last of several slabs.
      unfoldable pub foldr_last : Elem → Slab → Elem
      foldr_last a s =
          let i = clamp s.s_elems (slab_bin_srch cb max sorting s) in
          if in_range (s.s_arr i)
          then f a (slice s.s_arr 0 (i + 1))
          else if i == 0
          then a
          else f a (slice s.s_arr 0 i)

      -- Between two slabs, the second further on. With no cell in the range at the index, the next one is
      -- looked at, which may be that of the next slab, but the walk starts behind the first slab.
      unfoldable pub foldr_across : Elem → ℕ → Slab → List Slab → Option Elem
      unfolding fold_gap foldr_last
      foldr_across z d s ss =
          let i = slab_bin_srch cb min sorting s in
          let go : Elem → Option Elem =
            λ a. elim (fold_gap d a ss) [ none ↦ none | some (b, t) ↦ some (foldr_last b t) ] in
          if in_range (s.s_arr i)
          then go (f z (slice s.s_arr i (s.s_elems - i)))
          else if leb (s.s_elems - 1) i
          then elim ss [ [] ↦ some z | t ∷ _ ↦ if in_range (t.s_arr 0) then go z else some z ]
          else if in_range (s.s_arr (i + 1))
          then go z
          else some z

      -- From the two slabs found. With the second before the first the walk leaves the chain.
      unfoldable pub foldr_between : Elem → Place → Place → Option Elem
      unfolding foldr_within foldr_across
      foldr_between z p q =
          let d = length q.before - length p.before - 1 in
          if length p.before == length q.before
          then some (foldr_within z p.cur)
          else if leb (length p.before) (length q.before)
          then foldr_across z d p.cur p.after
          else foldr_across z (length p.after) p.cur p.after

      unfoldable pub foldl_between : Elem → Place → Place → Option Elem
      unfolding fold_gap
      foldl_between z p q =
          let s = p.cur in
          let i = slab_bin_srch cb min sorting s in
          let j = slab_bin_srch cb max sorting q.cur in
          let d = length q.before - length p.before - 1 in
          if length p.before == length q.before
          then some (f z (slice s.s_arr i (sub64 j i)))
          else if leb (length p.before) (length q.before)
          then elim (fold_gap d (f z (slice q.cur.s_arr 0 (j + 1))) q.before) [
            | none ↦ none
            | some (a, t) ↦ some (f a (slice t.s_arr i (t.s_elems - i)))
          ]
          else none

unfoldable pub slablist_foldr_range :
    Callbacks → (Elem → List Elem → Elem) → Elem → Elem → Elem → Slablist → Option Elem
unfolding fold_range_nodes foldr_between
slablist_foldr_range cb f min max z sl = if sl.sl_elems == 0 then some z else elim sl.sl_head [
  | small nodes ↦ fold_range_nodes cb min max f z sl.sl_elems nodes
  | chain n [] ↦ none
  | chain n (s ∷ ss) ↦
      let sorting = slist_is_sorting_temp sl.sl_flags in
      foldr_between cb min max f sorting z (find_linear_scan cb min sorting (at n [] s ss)).1
        (find_linear_scan cb max sorting (at n [] s ss)).1
]

unfoldable pub slablist_foldl_range :
    Callbacks → (Elem → List Elem → Elem) → Elem → Elem → Elem → Slablist → Option Elem
unfolding fold_range_nodes foldl_between
slablist_foldl_range cb f min max z sl = elim sl.sl_head [
  | small nodes ↦ fold_range_nodes cb min max f z sl.sl_elems nodes
  | chain n [] ↦ none
  | chain n (s ∷ ss) ↦
      let sorting = slist_is_sorting_temp sl.sl_flags in
      foldl_between cb min max f sorting z (find_linear_scan cb min sorting (at n [] s ss)).1
        (find_linear_scan cb max sorting (at n [] s ss)).1
]

-- What is returned, and what is stored through `ret`.
pub record Bound : Type 0 where
  pub bnd : Sign
  pub ret : Elem

-- The loop of slablist_next over a small list, from a bookmark that is not set: to the first element
-- that is not under the range, or to the end.
unfoldable pub range_nodes : Callbacks → Elem → Elem → List Elem → Option Bound
range_nodes cb min max [] = none
range_nodes cb min max (x ∷ []) = some (record { bnd = cb.bnd x min max; ret = x })
range_nodes cb min max (x ∷ (y ∷ ys)) =
    let rest = range_nodes cb min max (y ∷ ys) in
    elim (cb.bnd x min max) [ under ↦ rest | b ↦ some (record { bnd = b; ret = x }) ]

-- In the slab that the search for an end `e` of the range finds.
unfoldable pub range_at : Callbacks → Elem → Elem → Elem → Bool → Slab → Bound
range_at cb min max e sorting s =
    let i = slab_bin_srch cb e sorting s in
    let i' = if leb s.s_elems i then s.s_elems - 1 else i in
    record { bnd = cb.bnd (s.s_arr i') min max; ret = s.s_arr i' }

-- slablist_range_min for `e` the lesser end, slablist_range_max for the greater one. The two differ in
-- nothing else, and on a small list in nothing.
unfoldable pub range_end : Callbacks → Elem → Elem → Elem → Slablist → Option Bound
unfolding range_nodes range_at
range_end cb min max e sl = elim sl.sl_head [
  | small nodes ↦ range_nodes cb min max nodes
  | chain n [] ↦ none
  | chain n (s ∷ ss) ↦
      let sorting = slist_is_sorting_temp sl.sl_flags in
      some (range_at cb min max e sorting (find_linear_scan cb e sorting (at n [] s ss)).1.cur)
]

unfoldable pub slablist_range_min : Callbacks → Elem → Elem → Slablist → Option Bound
unfolding range_end
slablist_range_min cb min max sl = range_end cb min max min sl

unfoldable pub slablist_range_max : Callbacks → Elem → Elem → Slablist → Option Bound
unfolding range_end
slablist_range_max cb min max sl = range_end cb min max max sl
