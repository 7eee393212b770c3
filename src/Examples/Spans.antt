-- ===== src/Examples/Spans.antt =====
-- Folds over a range of keys and its ends, on a list of two slabs and on one of one slab.
use libslablist.Prelude.{◌<◌, ◌≡◌, refl, [], ◌∷◌, ◌++◌, some, arith, slice}
use libslablist.Callbacks.{over}
use libslablist.Slab.{live}
use libslablist.Sorted.{delete}
use libslablist.Sorted.Cells.{All-slice}
use libslablist.Slablist.{chain, elems}
use libslablist.Span.{
  Bound, slablist_foldr_range, slablist_foldl_range, slablist_range_min, slablist_range_max,
}
use libslablist.Span.Filter.{inside}
use libslablist.Span.Right.{slablist_foldr_range-inside}
use libslablist.Span.Left.{slablist_foldl_range-delete}
use libslablist.Span.Ends.{Least, slablist_range_min-Least, slablist_range_max_overshoots}
use libslablist.Examples.{numbers, numbers_ranked, slab_list, slab_list-IsSorted, two_slabs, ramp}
use libslablist.Examples.Passes.{from_start, start_then}
use libslablist.Examples.Ranges.{full_frame, one_slab-IsSorted}

slablist_foldr_range-inside_example :
    slablist_foldr_range numbers from_start 100 210 1 (slab_list 128)
    ≡ some (from_start 1 (inside numbers 100 210 (elems (slab_list 128).sl_head)))
slablist_foldr_range-inside_example =
    slablist_foldr_range-inside numbers_ranked 100 210 (omega arith) from_start
      (record { start = λ z. refl; then = start_then }) 1 (slab_list 128) slab_list-IsSorted

slablist_foldl_range-delete_example :
    slablist_foldl_range numbers from_start 10 20 1
      (record full_frame { sl_head = chain 1 (ramp 0 100 ∷ []) })
    ≡ some (from_start 1 (delete numbers 20 (inside numbers 10 20 (live (ramp 0 100)))))
slablist_foldl_range-delete_example =
    slablist_foldl_range-delete numbers_ranked 10 20 (omega arith) from_start 1 full_frame
      (ramp 0 100) one_slab-IsSorted

slablist_range_min-Least_example :
    (b : Bound) × (slablist_range_min numbers 100 210 (slab_list 128) ≡ some b)
    × Least numbers_ranked 100 210
        (omega arith)
        (inside numbers 100 210 (elems (slab_list 128).sl_head))
        b
slablist_range_min-Least_example =
    slablist_range_min-Least numbers_ranked 100 210 (omega arith) (slab_list 128) slab_list-IsSorted
      (omega arith)

-- 100, 102, … 120 are in the range, and 200 is reported.
slablist_range_max_overshoots_example :
    slablist_range_max numbers 100 150 (slab_list 128) ≡ some (record { bnd = over; ret = 200 })
slablist_range_max_overshoots_example =
    slablist_range_max_overshoots numbers_ranked 100 150 (omega arith) (slab_list 128) 2 two_slabs
      (live (ramp 0 61)) (slice (ramp 200 61).s_arr 1 60 ++ []) 200 slab_list-IsSorted refl
      (All-slice (λ x. x < 150) (ramp 0 61).s_arr 0 61 (λ k p q. omega arith)) (omega arith)
