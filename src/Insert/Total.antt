-- ===== src/Insert/Total.antt =====
-- Lookup and addition together: what the search of a chain and of its slab tell about the whole list,
-- and `slab_gen_add` after `find_linear_scan`.
use libslablist.Prelude.{
  ℕ, suc, ◌-◌, ◌<◌, ◌≡◌, ap, ◌∙◌, List, [], ◌++◌, All-append, false, none, some, append_assoc,
  arith, ◌==◌, if◌then◌else◌, slice, slice-cut, dec_lt,
}
use libslablist.Callbacks.{Elem, Callbacks, Ranked, over}
use libslablist.Slab.{live}
use libslablist.Search.{slab_bin_srch}
use libslablist.Sorted.{find, find-Below, find-Above, Below, Above, Ascends, Above-mono}
use libslablist.Sorted.Cells.{All-slice}
use libslablist.Chain.{Place, flat, rflat, contents, IsWhole}
use libslablist.Scan.{status}
use libslablist.Scan.Found.{status-bounds, min-le-max}
use libslablist.Insert.{is_same}
use libslablist.Insert.Sort.{split, cur_asc, rises, high_of}

module _ {cb : Callbacks} (r : Ranked cb) (e : Elem) where
  open r use {rank}

  -- A slab of a sorted chain at which a search for `e` stops.
  pub record Stops (p : Place) : Type 0 where
    pub whole : IsWhole p
    pub asc : Ascends rank (contents p)
    pub low : Below rank e (rflat p.before)
    pub last : status cb e p.cur ≡ over → flat p.after ≡ []

  module _ (p : Place) (s : Stops p) where
    abbrev pub at : ℕ
    at = slab_bin_srch cb e false p.cur

    pub in_slab : Ascends rank (live p.cur)
    in_slab = cur_asc r e p s.whole s.asc

    -- Past the last cell of the slab nothing follows that is not greater.
    end_high : at ≡ p.cur.s_elems → Above rank e (flat p.after)
    end_high h = elim (dec_lt (rank p.cur.s_max) (rank e)) [
      | yes over_max ↦
          let stat : status cb e p.cur ≡ over = ground (
            arith,
            status-bounds r e p.cur s.whole.here in_slab,
            min-le-max r e p.cur s.whole.here in_slab,
          ) in
          rw (s.last stat) tt
      | no in_range ↦
          let last_cell = (split r e p s.whole s.asc).1 (p.cur.s_elems - 1) in
          absurd (ground (arith, s.whole.here, last_cell))
    ]

    -- Everything from the place on that is not equal is greater.
    rest_high :
        at < p.cur.s_elems
        → Above rank
            (p.cur.s_arr at)
            (slice p.cur.s_arr (suc at) (p.cur.s_elems - at - 1) ++ flat p.after)
    rest_high h =
        All-append (λ x. rank (p.cur.s_arr at) < rank x) _ (flat p.after)
          (All-slice (λ x. rank (p.cur.s_arr at) < rank x) p.cur.s_arr (suc at)
            (p.cur.s_elems - at - 1) (λ k l m. rises r e p s.whole s.asc at k l (omega arith)))
          (high_of r (p.cur.s_arr at) p s.whole s.asc at h (omega arith))

    abbrev tail : List Elem
    tail = slice p.cur.s_arr at (p.cur.s_elems - at) ++ flat p.after

    -- The search passes over all that stands before the place.
    find-tail : find cb e (contents p) ≡ find cb e tail
    find-tail =
        let place = split r e p s.whole s.asc in
        ap (λ t. find cb e (rflat p.before ++ (t ++ flat p.after)))
          (slice-cut p.cur.s_arr at (p.cur.s_elems - at) p.cur.s_elems (omega (arith, place.0)))
        ∙ ap (λ t. find cb e (rflat p.before ++ t)) (append_assoc (slice p.cur.s_arr 0 at) _ _)
        ∙ find-Below r e (rflat p.before) (slice p.cur.s_arr 0 at ++ tail) s.low
        ∙ find-Below r e (slice p.cur.s_arr 0 at) tail
            (All-slice (λ x. rank x < rank e) p.cur.s_arr 0 at (λ k _ l. place.1 k (omega arith)))

    tail_found :
        at < p.cur.s_elems
        → find cb e tail
          ≡ (if is_same (cb.cmp e (p.cur.s_arr at)) then some (p.cur.s_arr at) else none)
    unfolding find
    tail_found h =
        let count : p.cur.s_elems - at ≡ suc (p.cur.s_elems - at - 1) = omega arith in
        let rest : List Elem =
          slice p.cur.s_arr (suc at) (p.cur.s_elems - at - 1) ++ flat p.after in
        ap (λ k. find cb e (slice p.cur.s_arr at k ++ flat p.after)) count
        ∙ ground (
          arith,
          (split r e p s.whole s.asc).2 at,
          r.cmp_rank e (p.cur.s_arr at),
          find-Above r e rest,
          Above-mono rank e (p.cur.s_arr at) rest,
          rest_high h,
        )

    -- The key is in the list only if it stands at the place that the search of the slab returns.
    pub find-at : find cb e (contents p) ≡ (
        if at == p.cur.s_elems
        then none
        else if is_same (cb.cmp e (p.cur.s_arr at))
        then some (p.cur.s_arr at)
        else none)
    find-at = find-tail ∙ elim (dec_lt at p.cur.s_elems) [
      | yes h ↦ tail_found h ∙ ground arith
      | no h ↦
          let place = split r e p s.whole s.asc in
          let none_left : p.cur.s_elems - at ≡ 0 = omega arith in
          let at_end : at ≡ p.cur.s_elems = omega (arith, place.0) in
          ap (λ k. find cb e (slice p.cur.s_arr at k ++ flat p.after)) none_left
          ∙ find-Above r e (flat p.after) (end_high at_end)
          ∙ ground arith
    ]
