-- ===== src/Slablist/Shape.antt =====
-- When a list is well-formed, and what follows for its counts.
use libslablist.Prelude.{
  ℕ, ◌≤◌, ◌<◌, ◌^◌, ◌≡◌, refl, sym, subst, ◌∙◌, List, [], ◌∷◌, All, true, false, arith, length,
  length-append, length-slice,
}
use libslablist.Callbacks.{Elem, Callbacks, Ranked}
use libslablist.Slab.{Slab, live}
use libslablist.Slab.Edit.{IsValid}
use libslablist.Small.{smelem_max}
use libslablist.Sorted.{Ascends}
use libslablist.Chain.{at, flat}
use libslablist.Scan.{find_linear_scan}
use libslablist.Scan.Found.{IsFound, find_linear_scan-IsFound}
use libslablist.Insert.Total.{Stops}
use libslablist.Slablist.{Head, small, chain, Slablist, elems, slist_sorted, slist_is_sorting_temp}

-- A small list is no longer than SMELEM_MAX; a slab list has a slab, its slabs are valid and
-- counted, and it holds no fewer elements.
abbrev pub Shape : Head → Type 0
Shape (small nodes) = length nodes ≤ smelem_max
Shape (chain n ss) = (n ≡ length ss) × (0 < n) × All IsValid ss × (smelem_max ≤ length (flat ss))

pub record IsList (sl : Slablist) : Type 0 where
  pub counted : sl.sl_elems ≡ length (elems sl.sl_head)
  pub bounded : sl.sl_elems < 2 ^ 64
  pub shape : Shape sl.sl_head

-- A list that the user keeps sorted: its elements rise.
pub record IsSorted {cb : Callbacks} (r : Ranked cb) (sl : Slablist) : Type 0 where
  pub list : IsList sl
  pub sorted : slist_sorted sl.sl_flags ≡ true
  pub no_temp : slist_is_sorting_temp sl.sl_flags ≡ false
  pub rises : Ascends r.rank (elems sl.sl_head)

abbrev pub OneSlab : Head → Type 0
OneSlab (small nodes) = Unit
OneSlab (chain n ss) = length ss ≡ 1

-- Each valid slab holds an element.
pub length-flat : (ss : List Slab) → All IsValid ss → length ss ≤ length (flat ss)
length-flat [] v = omega arith
length-flat (s ∷ ss) v = omega (
  arith,
  v.0.used,
  length-append (live s) (flat ss),
  length-slice s.s_arr 0 s.s_elems,
  length-flat ss v.1,
)

pub some_slab : (ss : List Slab) → 0 < length (flat ss) → 0 < length ss
some_slab [] h = absurd (omega arith)
some_slab (s ∷ ss) h = omega arith

-- The search of a sorted slab list, from its head on.
module _ {cb : Callbacks} (r : Ranked cb) (e : Elem) where
  open r use {rank}

  pub found_at :
      (n m : ℕ) (s : Slab) (ss : List Slab)
      → Shape (chain n (s ∷ ss))
      → Ascends rank (flat (s ∷ ss))
      → m ≡ length (flat (s ∷ ss))
      → m < 2 ^ 64
      → IsFound r e (at n [] s ss) (find_linear_scan cb e false (at n [] s ss))
  found_at n m s ss shape asc counted bounded =
      find_linear_scan-IsFound r e (at n [] s ss) refl shape.0
        (record {
          left = tt;
          here = shape.2.0;
          right = shape.2.1;
          counted = omega (arith, shape, counted, bounded, length-flat (s ∷ ss) shape.2);
        })
        asc

  pub stops_at :
      (n : ℕ) (s : Slab) (ss : List Slab)
      → Ascends rank (flat (s ∷ ss))
      → IsFound r e (at n [] s ss) (find_linear_scan cb e false (at n [] s ss))
      → Stops r e (find_linear_scan cb e false (at n [] s ss)).1
  stops_at n s ss asc found = record {
    whole = found.whole;
    asc = subst (Ascends rank) (sym found.kept) asc;
    low = found.low;
    last = λ h. found.last (found.stat ∙ h);
  }
