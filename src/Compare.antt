-- ===== src/Compare.antt =====
-- slablist_cmp of src/slablist_cons.c: whether two lists hold equivalent elements. `none` is an access
-- through NULL, or to a slab as if it were a node.
pub mod Blind
use libslablist.Prelude.{
  ℕ, zero, suc, ◌+◌, List, [], ◌∷◌, Bool, true, false, Option, none, some, ◌==◌, leb, if◌then◌else◌,
}
use libslablist.Callbacks.{Elem, Callbacks, same}
use libslablist.Slab.{Slab}
use libslablist.Small.{smelem_max}
use libslablist.Slablist.{Slablist, small, chain}

-- Whether the lists differ: what is returned is 1 or 0.
unfoldable pub cmp_nodes : Callbacks → ℕ → List Elem → List Elem → Option Bool
cmp_nodes cb zero xs ys = some false
cmp_nodes cb (suc k) [] ys = none
cmp_nodes cb (suc k) (x ∷ xs) [] = none
cmp_nodes cb (suc k) (x ∷ xs) (y ∷ ys) = elim (cb.cmp x y) [
  | same ↦ cmp_nodes cb k xs ys
  | _ ↦ some true
]

-- The rounds left, and for both lists the index and the slabs from the one in view on. Both elements
-- are read from the slab of the first list.
unfoldable pub cmp_slabs : Callbacks → ℕ → ℕ → List Slab → ℕ → List Slab → Option Bool
cmp_slabs cb zero i1 ss1 i2 ss2 = some false
cmp_slabs cb (suc k) i1 [] i2 ss2 = none
cmp_slabs cb (suc k) i1 (s ∷ ss1) i2 [] = none
cmp_slabs cb (suc k) i1 (s ∷ ss1) i2 (t ∷ ss2) = elim (cb.cmp (s.s_arr i1) (s.s_arr i2)) [
  | same ↦
      cmp_slabs cb k (if i1 + 1 == s.s_elems then 0 else i1 + 1)
        (if i1 + 1 == s.s_elems then ss1 else (s ∷ ss1)) (if i2 + 1 == t.s_elems then 0 else i2 + 1)
        (if i2 + 1 == t.s_elems then ss2 else (t ∷ ss2))
  | _ ↦ some true
]

unfoldable pub slablist_cmp : Callbacks → Slablist → Slablist → Option Bool
unfolding cmp_nodes cmp_slabs
slablist_cmp cb sl1 sl2 =
    if sl1.sl_elems == sl2.sl_elems
    then elim sl1.sl_head [
      | small xs ↦ elim sl2.sl_head [
        | small ys ↦ if leb sl1.sl_elems smelem_max then cmp_nodes cb sl1.sl_elems xs ys else none
        | chain _ _ ↦ none
      ]
      | chain _ ss1 ↦ elim sl2.sl_head [
        | small ys ↦ none
        | chain _ ss2 ↦
            if leb sl1.sl_elems smelem_max then none else cmp_slabs cb sl1.sl_elems 0 ss1 0 ss2
      ]
    ]
    else some true
