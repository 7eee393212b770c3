-- ===== src/Span/Left.antt =====
-- slablist_foldl_range on a sorted list of one slab.
use libslablist.Prelude.{
  ℕ, ◌+◌, ◌-◌, ◌≤◌, ◌<◌, ◌≡◌, sym, subst, ap, ◌∙◌, List, [], ◌∷◌, append-nil, some, false, sub64,
  arith, slice, slice-add, dec_lt,
}
use libslablist.Callbacks.{Elem, Callbacks, Ranked}
use libslablist.Slab.{Slab, live}
use libslablist.Sorted.{Ascends, delete}
use libslablist.Sorted.Cells.{All-slice}
use libslablist.Sorted.Delete.{delete-append, delete-Below}
use libslablist.Chain.{at}
use libslablist.Scan.{find_linear_scan}
use libslablist.Slablist.{chain, Slablist}
use libslablist.Slablist.Shape.{IsSorted}
use libslablist.Range.Entry.{alone}
use libslablist.Slab.Edit.{IsValid}
use libslablist.Span.{foldl_between, slablist_foldl_range}
use libslablist.Span.Filter.{inside}
use libslablist.Span.Cells.{first, last, stop, last-Splits, at_last, first-le-last, inside_stop}

module _ {cb : Callbacks} (r : Ranked cb) (min max : Elem) (le : r.rank min ≤ r.rank max) where
  open r use {rank}

  module _ (s : Slab) (v : IsValid s) (asc : Ascends rank (live s)) where
    open s use {s_arr as f, s_elems as n}

    abbrev i : ℕ
    i = first r min max le s v asc

    abbrev j : ℕ
    j = last r min max le s v asc

    abbrev up : ℕ
    up = stop r min max le s v asc

    low : (k : ℕ) → i ≤ k → k < i + (j - i) → rank (f k) < rank max
    low k p q =
        (last-Splits r min max le s v asc).1 k (omega (arith, first-le-last r min max le s v asc))

    -- The cells in the range, less the one with the key of its greater end.
    taken : slice f i (j - i) ≡ delete cb max (inside cb min max (live s))
    taken =
        let order = first-le-last r min max le s v asc in
        let top = at_last r min max le s v asc in
        let fits = (last-Splits r min max le s v asc).0 in
        let below = All-slice (λ x. rank x < rank max) f i (j - i) low in
        let cells = ap (delete cb max) (inside_stop r min max le s v asc) in
        elim (dec_lt j up) [
          | yes l ↦
              let one : up - i ≡ j - i + 1 = ground (arith, l, order, fits) in
              let place : i + (j - i) ≡ j = omega (arith, order) in
              let equal : rank (f (i + (j - i))) ≡ rank max =
                subst (λ k. rank (f k) ≡ rank max) (sym place) (ground (arith, l, top, fits)) in
              sym (
                cells
                ∙ ap (λ m. delete cb max (slice f i m)) one
                ∙ ap (delete cb max) (slice-add f i (j - i) 1)
                ∙ delete-append r max (slice f i (j - i)) [] (f (i + (j - i))) below equal
                ∙ append-nil (slice f i (j - i)))
          | no l ↦
              let all : up ≡ j = ground (arith, l, fits) in
              sym (
                cells
                ∙ ap (λ m. delete cb max (slice f i (m - i))) all
                ∙ delete-Below r max (slice f i (j - i)) below)
        ]

  -- slablist_foldl_range on a sorted, well-formed list of one slab that is not used for sorting,
  -- with the lesser end first: it returns, and the callback is given the elements in the range
  -- less the one with the key of the greater end.
  pub slablist_foldl_range-delete :
      (f : Elem → List Elem → Elem) (z : Elem) (sl : Slablist) (s : Slab)
      → IsSorted r (record sl { sl_head = chain 1 (s ∷ []) })
      → slablist_foldl_range cb f min max z (record sl { sl_head = chain 1 (s ∷ []) })
        ≡ some (f z (delete cb max (inside cb min max (live s))))
  unfolding slablist_foldl_range foldl_between
  slablist_foldl_range-delete f z sl s w =
      let v = w.list.shape.2.0 in
      let asc : Ascends rank (live s) = subst (Ascends rank) (append-nil (live s)) w.rises in
      let order = first-le-last r min max le s v asc in
      let fits = (last-Splits r min max le s v asc).0 in
      let count : sub64 (j s v asc) (i s v asc) ≡ j s v asc - i s v asc =
        omega (arith, order, fits, v.fits) in
      let run : foldl_between cb min max f false z (at 1 [] s []) (at 1 [] s [])
          ≡ some (f z (delete cb max (inside cb min max (live s)))) =
        rw count (ap (λ l. some (f z l)) (taken s v asc)) in
      subst
        (λ b.
          foldl_between cb min max f b z (find_linear_scan cb min b (at 1 [] s [])).1
            (find_linear_scan cb max b (at 1 [] s [])).1
          ≡ some (f z (delete cb max (inside cb min max (live s)))))
        (sym w.no_temp) (rw (alone cb min s, alone cb max s) run)
