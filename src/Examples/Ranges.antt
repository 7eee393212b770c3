-- ===== src/Examples/Ranges.antt =====
-- Ranges of keys taken out of a list of two slabs, of one slab, and of a small list.
use libslablist.Prelude.{◌≡◌, refl, [], ◌∷◌, arith, length, if◌then◌else◌, append-nil, subst, sym}
use libslablist.Slab.{live}
use libslablist.Sorted.{Ascends}
use libslablist.Small.{success}
use libslablist.Slablist.{Slablist, own, null, small, chain, elems}
use libslablist.Slablist.Shape.{IsSorted}
use libslablist.Range.{fault, done, slablist_rem_range, is_slab_range}
use libslablist.Range.Filter.{outside}
use libslablist.Range.Nodes.{reaches_from}
use libslablist.Range.Entry.{
  ClearsFrom, Miscounts, slablist_rem_range-Clears, slablist_rem_range_small,
  slablist_rem_range-Miscounts,
}
use libslablist.Examples.{
  numbers, numbers_ranked, share, slab_list, slab_list-IsSorted, ramp, ramp-IsValid, ramp-Ascends,
}

-- The list of two slabs once it had a sublayer.
abbrev detached : Slablist
detached = record (slab_list 128) { sl_baselayer = own }

detached-IsSorted : IsSorted numbers_ranked detached
detached-IsSorted = record {
  list = record {
    counted = slab_list-IsSorted.list.counted;
    bounded = slab_list-IsSorted.list.bounded;
    shape = slab_list-IsSorted.list.shape;
  };
  sorted = refl;
  no_temp = refl;
  rises = slab_list-IsSorted.rises;
}

slablist_rem_range-Clears_example :
    ClearsFrom own
      (outside numbers 100 210 (elems detached.sl_head))
      (slablist_rem_range numbers share 100 210 detached)
unfolding outside
slablist_rem_range-Clears_example =
    slablist_rem_range-Clears numbers_ranked share 100 210 (omega arith) detached detached-IsSorted
      (omega arith)

abbrev sorted_frame : Slablist
sorted_frame = record {
  sl_flags = 128;
  sl_req_sublayer = 10;
  sl_mpslabs = 30;
  sl_mslabs = 30;
  sl_elems = 3;
  sl_head = small [];
  sl_baselayer = null;
}

three_nodes-IsSorted :
    IsSorted numbers_ranked (record sorted_frame { sl_head = small (3 ∷ (5 ∷ (9 ∷ []))) })
three_nodes-IsSorted = record {
  list = record { counted = refl; bounded = omega arith; shape = omega arith };
  sorted = refl;
  no_temp = refl;
  rises = omega arith;
}

slablist_rem_range_small_example :
    slablist_rem_range numbers share 4 8
      (record sorted_frame { sl_head = small (3 ∷ (5 ∷ (9 ∷ []))) })
    ≡ (if reaches_from numbers 4 (3 ∷ (5 ∷ (9 ∷ [])))
        then done success [] (record sorted_frame {
          sl_elems = length (outside numbers 4 8 (3 ∷ (5 ∷ (9 ∷ []))));
          sl_head = small (outside numbers 4 8 (3 ∷ (5 ∷ (9 ∷ []))));
        })
        else fault)
slablist_rem_range_small_example =
    slablist_rem_range_small numbers_ranked share 4 8 (omega arith) sorted_frame
      (3 ∷ (5 ∷ (9 ∷ []))) three_nodes-IsSorted

abbrev pub full_frame : Slablist
full_frame = record sorted_frame { sl_elems = 100; sl_baselayer = own }

pub one_slab-IsSorted :
    IsSorted numbers_ranked (record full_frame { sl_head = chain 1 (ramp 0 100 ∷ []) })
one_slab-IsSorted = record {
  list = record {
    counted = refl;
    bounded = omega arith;
    shape = (refl, omega arith, (ramp-IsValid 0 100 (omega arith) (omega arith), tt), omega arith);
  };
  sorted = refl;
  no_temp = refl;
  rises = subst (Ascends (λ x. x)) (sym (append-nil (live (ramp 0 100)))) (ramp-Ascends 0 100);
}

slablist_rem_range-Miscounts_example : Miscounts 100 (outside numbers 10 20 (live (ramp 0 100))) (
    slablist_rem_range numbers share 10 20
      (record full_frame { sl_head = chain 1 (ramp 0 100 ∷ []) }))
unfolding outside is_slab_range
slablist_rem_range-Miscounts_example =
    slablist_rem_range-Miscounts numbers_ranked share 10 20 full_frame (ramp 0 100) (omega arith)
      refl one_slab-IsSorted refl (omega arith)
