-- ===== src/Examples/Passes.antt =====
-- Folds, a map and the steps of a bookmark on two slabs.
use libslablist.Prelude.{
  none, ◌+◌, ◌*◌, ◌≡◌, refl, List, [], ◌∷◌, ◌++◌, some, arith, length-slice, reverse,
}
use libslablist.Callbacks.{Elem}
use libslablist.Chain.{at, flat}
use libslablist.Slablist.{elems}
use libslablist.Slablist.Get.{IsAt}
use libslablist.Slablist.Ends.{slablist_head}
use libslablist.Reverse.{slablist_reverse, turn, turn_slabs}
use libslablist.Reverse.Turned.{slablist_reverse-reverse}
use libslablist.Walk.{slablist_foldr, slablist_map}
use libslablist.Walk.Whole.{slablist_foldr_lem}
use libslablist.Walk.Mapped.{MapOutcome, slablist_map-MapOutcome}
use libslablist.Bookmark.{slablist_prev}
use libslablist.Bookmark.Pass.{visit, visit-flat}
use libslablist.Bookmark.Steps.{Backward, slablist_prev-Backward}
use libslablist.Examples.{
  two_slabs-length, ramp, two_slabs, two_slabs-IsValid, slab_list, slab_list-IsList,
}

-- A sum that doubles at each element.
abbrev pub from_start : Elem → List Elem → Elem
from_start z [] = z
from_start z (x ∷ xs) = from_start (2 * z + x) xs

pub start_then :
    (z : Elem) (xs ys : List Elem) → from_start z (xs ++ ys) ≡ from_start (from_start z xs) ys
start_then z [] ys = refl
start_then z (x ∷ xs) ys = start_then (2 * z + x) xs ys

slablist_foldr_lem_example :
    slablist_foldr from_start 1 (slab_list 0) ≡ some (from_start 1 (elems (slab_list 0).sl_head))
slablist_foldr_lem_example =
    slablist_foldr_lem from_start 1 (slab_list 0) (record { start = λ z. refl; then = start_then })
      (slab_list-IsList 0)

slablist_map-MapOutcome_example :
    MapOutcome
      (λ arr n k. arr k + 1)
      (λ x. x + 1)
      (slab_list 0)
      (slab_list 0).sl_head
      (slablist_map (λ arr n k. arr k + 1) (slab_list 0))
slablist_map-MapOutcome_example =
    slablist_map-MapOutcome (λ arr n k. arr k + 1) (λ x. x + 1) (slab_list 0) (λ arr n k h. refl)
      (slab_list-IsList 0)

-- The last element of the first slab, and the first of the second.
past_edge : IsAt two_slabs 61 (at 2 (ramp 0 61 ∷ []) (ramp 200 61) []) 0
past_edge = record {
  kept = refl;
  left = (two_slabs-IsValid.0, tt);
  here = two_slabs-IsValid.1.0;
  right = tt;
  counted = omega arith;
  inside = omega arith;
  offset = omega (arith, length-slice (ramp 0 61).s_arr 0 61);
}

visit-flat_example : visit 2 (ramp 0 61) (ramp 200 61 ∷ []) 123 none ≡ flat two_slabs
visit-flat_example =
    visit-flat 2 (ramp 0 61) (ramp 200 61 ∷ []) 123 two_slabs-IsValid
      (omega (arith, two_slabs-length))

slablist_prev-Backward_example : Backward two_slabs 61 0 (
    slablist_prev 2
      (ramp 0 61 ∷ [])
      (ramp 200 61)
      (some (at 2 (ramp 0 61 ∷ []) (ramp 200 61) [], 0)))
slablist_prev-Backward_example =
    slablist_prev-Backward two_slabs 61 0 2 (ramp 0 61 ∷ []) (ramp 200 61)
      (at 2 (ramp 0 61 ∷ []) (ramp 200 61) []) past_edge

slablist_reverse-reverse_example :
    elems (slablist_reverse (slab_list 0)).sl_head ≡ reverse (elems (slab_list 0).sl_head)
slablist_reverse-reverse_example = slablist_reverse-reverse (slab_list 0) (slab_list-IsList 0) refl

-- After a reversal the minimum of the slab that is first is still its old first element.
stale_head : slablist_head (slablist_reverse (slab_list 0)) ≡ some 200
unfolding slablist_head slablist_reverse turn turn_slabs
stale_head = refl
