-- ===== src/Walk.antt =====
-- Passes over a whole list: slablist_map, slablist_foldr and slablist_foldl with slablist_map_sml and
-- slablist_fold_sml (src/slablist_cons.c). The callbacks are parameters: one that maps is given an
-- array and a count and may write its cells, one that folds is given the cells to read.
pub mod Whole
pub mod Mapped
use libslablist.Prelude.{ℕ, zero, suc, List, [], ◌∷◌, Option, none, some, ◌==◌, if◌then◌else◌}
use libslablist.Callbacks.{Elem}
use libslablist.Slab.{Slab, live}
use libslablist.Chain.{rewind}
use libslablist.Slablist.{Slablist, Head, small, chain}

-- `while (slab < slabs)`, along `s_next`, or along `s_prev` on the list turned round. `none` is a step
-- past the end.
pub fold_loop : (Elem → List Elem → Elem) → ℕ → Elem → List Slab → Option Elem
fold_loop f zero accumulator ss = some accumulator
fold_loop f (suc k) accumulator [] = none
fold_loop f (suc k) accumulator (s ∷ ss) = fold_loop f k (f accumulator (live s)) ss

unfoldable pub slablist_foldr : (Elem → List Elem → Elem) → Elem → Slablist → Option Elem
slablist_foldr f z sl =
    if sl.sl_elems == 0
    then some z
    else elim sl.sl_head [ small nodes ↦ some (f z nodes) | chain n ss ↦ fold_loop f n z ss ]

-- From `sl_end`.
unfoldable pub slablist_foldl : (Elem → List Elem → Elem) → Elem → Slablist → Option Elem
slablist_foldl f z sl = if sl.sl_elems == 0 then some z else elim sl.sl_head [
  | small nodes ↦ some (f z nodes)
  | chain n ss ↦ fold_loop f n z (rewind ss [])
]

pub map_loop : ((ℕ → Elem) → ℕ → ℕ → Elem) → ℕ → List Slab → Option (List Slab)
map_loop f zero ss = some ss
map_loop f (suc k) [] = none
map_loop f (suc k) (s ∷ ss) = elim (map_loop f k ss) [
  | none ↦ none
  | some ss' ↦ some (record s { s_arr = f s.s_arr s.s_elems } ∷ ss')
]

-- slablist_map_sml gives the callback a copy of the elements and drops it.
unfoldable pub slablist_map : ((ℕ → Elem) → ℕ → ℕ → Elem) → Slablist → Option Slablist
slablist_map f sl = elim sl.sl_head [
  | small nodes ↦ some sl
  | chain n ss ↦ elim (map_loop f n ss) [
    | none ↦ none
    | some ss' ↦ some (record sl { sl_head = chain n ss' })
  ]
]
