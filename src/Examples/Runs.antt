-- ===== src/Examples/Runs.antt =====
-- The operations on a chain of slabs and on the nodes of a small list.
use libslablist.Prelude.{
  ◌*◌, ◌≢◌, ◌<◌, ◌+◌, none, some, ◌≡◌, refl, inr, [], ◌∷◌, true, false, arith,
}
use libslablist.Sorted.{find, delete, Ascends}
use libslablist.Chain.{Place, at, contents}
use libslablist.Sorted.Cells.{All-slice}
use libslablist.Search.{slab_bin_srch}
use libslablist.Slablist.Rem.{take_key}
use libslablist.Slablist.Rem.Absent.{Refuses, take_key_absent}
use libslablist.Scan.{status, find_linear_scan}
use libslablist.Scan.Found.{IsFound, find_linear_scan-IsFound}
use libslablist.Insert.{slab_gen_add}
use libslablist.Insert.Total.{Stops}
use libslablist.Insert.Outcome.{Outcome, slab_gen_add-Outcome}
use libslablist.Merge.{slab_generic_rem}
use libslablist.Merge.Keeps.{IsChain, slab_generic_rem-IsChain}
use libslablist.Reap.{try_reap}
use libslablist.Reap.Keeps.{Reaps, try_reap-Reaps}
use libslablist.Small.{Small, SmallAdd, small_list_add, small_list_rem}
use libslablist.Small.Nodes.{SmallOutcome, small_list_add-Outcome}
use libslablist.Small.Takes.{Removes, TakesAt, small_list_rem-Removes, small_list_rem-TakesAt}
use libslablist.Examples.{
  numbers, numbers_ranked, share, ramp, slab_list, two_slabs, two_slabs-IsValid, two_slabs-Ascends,
  from_head, from_head-IsWhole,
}

find_linear_scan-IsFound_example :
    IsFound numbers_ranked 204 from_head (find_linear_scan numbers 204 false from_head)
find_linear_scan-IsFound_example =
    find_linear_scan-IsFound numbers_ranked 204 from_head refl (omega arith) from_head-IsWhole
      two_slabs-Ascends

from_head-Stops : Stops numbers_ranked 7 from_head
from_head-Stops = record {
  whole = from_head-IsWhole;
  asc = two_slabs-Ascends;
  low = tt;
  last = λ p. cc;
}

slab_gen_add-Outcome_example :
    Outcome numbers_ranked 7 from_head from_head-Stops
      (find numbers 7 (contents from_head))
      (slab_gen_add numbers false 7 false (status numbers 7 (ramp 0 61)) from_head)
slab_gen_add-Outcome_example = slab_gen_add-Outcome numbers_ranked 7 from_head from_head-Stops

slab_generic_rem-IsChain_example : IsChain (contents from_head) (slab_generic_rem from_head)
slab_generic_rem-IsChain_example =
    slab_generic_rem-IsChain from_head (omega arith) (omega arith) tt (inr two_slabs-IsValid.0)
      two_slabs-IsValid.1

try_reap-Reaps_example : Reaps 2 two_slabs (try_reap share 0 0 122 2 two_slabs)
try_reap-Reaps_example =
    try_reap-Reaps share 0 0 122 2 two_slabs refl (omega arith) two_slabs-IsValid

abbrev three : Small
three = record { nodes = 2 ∷ (5 ∷ (9 ∷ [])); sl_elems = 3 }

three-Ascends : Ascends (λ x. x) (2 ∷ (5 ∷ (9 ∷ [])))
three-Ascends = ((omega arith, (omega arith, tt)), ((omega arith, tt), (tt, tt)))

small_list_add-Outcome_example :
    (a : SmallAdd) × (small_list_add numbers true false 7 three ≡ some a)
    × SmallOutcome numbers_ranked 7 (find numbers 7 three.nodes) three a
small_list_add-Outcome_example = small_list_add-Outcome numbers_ranked 7 three three-Ascends refl

small_list_rem-Removes_example :
    Removes numbers 5 0 three
      (find numbers 5 three.nodes)
      (delete numbers 5 three.nodes)
      (small_list_rem numbers true false 5 0 three)
small_list_rem-Removes_example = small_list_rem-Removes numbers false 5 0 three (omega arith) refl

small_list_rem-TakesAt_example : TakesAt true 4 three (small_list_rem numbers false true 0 4 three)
small_list_rem-TakesAt_example = small_list_rem-TakesAt numbers true 0 4 three (omega arith) refl

-- The second slab, for a key that its first cell out of use happens to hold.
abbrev at_end : Place
at_end = at 2 (ramp 0 61 ∷ []) (ramp 200 61) []

at_end-Stops : Stops numbers_ranked 322 at_end
at_end-Stops = record {
  whole = record {
    left = (two_slabs-IsValid.0, tt);
    here = two_slabs-IsValid.1.0;
    right = tt;
    counted = omega arith;
  };
  asc = two_slabs-Ascends;
  low = All-slice (λ x. x < 322) (λ k. 0 + 2 * k) 0 61 (λ k _ h. omega arith);
  last = λ _. refl;
}

take_key_absent_example :
    ((ramp 200 61).s_arr 61 ≢ 322
      → Refuses numbers_ranked share 322
          (slab_list 128)
          (take_key share (slab_list 128) numbers 322 at_end))
    × (slab_bin_srch numbers 322 false (ramp 200 61) ≡ 61
        → (ramp 200 61).s_arr 61 ≡ 322
        → take_key share (slab_list 128) numbers 322 at_end ≡ none)
unfolding find
take_key_absent_example =
    take_key_absent numbers_ranked share 322 (slab_list 128) at_end at_end-Stops refl refl
