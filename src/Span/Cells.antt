-- ===== src/Span/Cells.antt =====
-- The cells of one sorted slab that are in a range of keys.
use libslablist.Prelude.{
  ℕ, ◌+◌, ◌-◌, ◌≤◌, ◌<◌, ◌≡◌, refl, sym, ap, ap₂, ◌∙◌, List, [], ◌++◌, append-nil, false, true,
  arith, leb, ◌==◌, if◌then◌else◌, slice, slice-cut, slice-add, sub64, Bool-cases, inl, inr, ◌&&◌,
}
use libslablist.Callbacks.{Elem, Callbacks, Ranked}
use libslablist.Slab.{Slab, live}
use libslablist.Slab.Edit.{IsValid}
use libslablist.Search.{slab_bin_srch}
use libslablist.Search.Order.{Splits}
use libslablist.Search.Place.{slab_bin_srch-Splits}
use libslablist.Sorted.{Ascends}
use libslablist.Sorted.Cells.{All-slice, Ascends→Rises}
use libslablist.Span.{clamp, in_range, foldr_within, foldr_last}
use libslablist.Span.Filter.{
  inside, in_range-leb, inside-append, inside-Below, inside-Above, inside-Within,
}

module _ {cb : Callbacks} (r : Ranked cb) (min max : Elem) (le : r.rank min ≤ r.rank max) (s : Slab)
    (v : IsValid s) (asc : Ascends r.rank (live s)) where
  open r use {rank}
  open s use {s_arr as f, s_elems as n}

  -- The cells from the index `i` up to `t` are those in the range.
  pub record Spans (i t : ℕ) : Type 0 where
    pub le_stop : i ≤ t
    pub le_all : t ≤ n
    pub low : (k : ℕ) → k < i → rank (f k) < rank min
    pub from : (k : ℕ) → i ≤ k → k < n → rank min ≤ rank (f k)
    pub upto : (k : ℕ) → k < t → rank (f k) ≤ rank max
    pub high : (k : ℕ) → t ≤ k → k < n → rank max < rank (f k)

  pub inside-slice : (i t : ℕ) → Spans i t → inside cb min max (live s) ≡ slice f i (t - i)
  inside-slice i t p =
      ap (inside cb min max) (
        slice-cut f i (n - i) n (omega (arith, p.le_stop, p.le_all))
        ∙ ap (λ m. slice f 0 i ++ slice f i m) (omega (arith, p.le_stop, p.le_all))
        ∙ ap (λ l. slice f 0 i ++ l) (slice-add f i (t - i) (n - t)))
      ∙ inside-append r min max le (slice f 0 i)
          (slice f i (t - i) ++ slice f (i + (t - i)) (n - t))
      ∙ ap₂ ◌++◌
          (inside-Below r min max le (slice f 0 i)
            (All-slice (λ x. rank x < rank min) f 0 i (λ k _ q. p.low k (omega arith))))
          (inside-append r min max le (slice f i (t - i)) (slice f (i + (t - i)) (n - t))
            ∙ ap₂ ◌++◌
                (inside-Within r min max le (slice f i (t - i)) (
                  All-slice (λ x. (rank min ≤ rank x) × (rank x ≤ rank max)) f i (t - i)
                    (λ k q q'. (
                      p.from k q (omega (arith, p.le_all, p.le_stop)),
                      p.upto k (omega (arith, p.le_stop)),
                    ))))
                (inside-Above r min max le (slice f (i + (t - i)) (n - t)) (
                  All-slice (λ x. rank max < rank x) f (i + (t - i)) (n - t)
                    (λ k q q'.
                      p.high k (omega (arith, p.le_stop)) (omega (arith, p.le_all, p.le_stop)))))
            ∙ append-nil (slice f i (t - i)))

  pub rises : (i j : ℕ) → i < j → j < n → rank (f i) < rank (f j)
  rises = Ascends→Rises rank f n asc

  abbrev pub first : ℕ
  first = slab_bin_srch cb min false s

  abbrev pub last : ℕ
  last = slab_bin_srch cb max false s

  pub first-Splits : Splits rank min f n first
  first-Splits = slab_bin_srch-Splits r min s rises v.used

  pub last-Splits : Splits rank max f n last
  last-Splits = slab_bin_srch-Splits r max s rises v.used

  -- Where the cells in the range end: behind the cell at the index for `max`, if it is in the range.
  abbrev pub stop : ℕ
  stop = if leb n last then n else if leb (rank (f last)) (rank max) then last + 1 else last

  pub first-le-last : first ≤ last
  first-le-last =
      ground (arith, first-Splits.0, first-Splits.1 last, last-Splits.0, last-Splits.2 last)

  pub at_last : last < n → rank max ≤ rank (f last)
  at_last p = last-Splits.2 last (omega arith) p

  at_first : first < n → rank min ≤ rank (f first)
  at_first p = first-Splits.2 first (omega arith) p

  pub stop-Spans : Spans first stop
  stop-Spans = record {
    le_stop = ground (arith, first-le-last, first-Splits.0);
    le_all = ground (arith, last-Splits.0);
    low = first-Splits.1;
    from = first-Splits.2;
    upto = λ k p. ground (arith, p, last-Splits.1 k, last-Splits.0, rises k last);
    high = λ k p q. ground (arith, p, q, at_last, last-Splits.0, last-Splits.2 k, rises last k);
  }

  pub inside_stop : inside cb min max (live s) ≡ slice f first (stop - first)
  inside_stop = inside-slice first stop stop-Spans

  in_at :
      (k : ℕ)
      → in_range cb min max (f k) ≡ (leb (rank min) (rank (f k)) && leb (rank (f k)) (rank max))
  in_at k = in_range-leb r min max le (f k)

  -- The cell behind `first` is in the range where the index is not behind the cells.
  lo_first :
      in_range cb min max (f (clamp n first)) ≡ true → (clamp n first ≡ first) × (first < stop)
  lo_first t =
      let end : n - 1 < first → rank (f (n - 1)) < rank min = first-Splits.1 (n - 1) in
      let high : stop ≤ first → first < n → rank max < rank (f first) = stop-Spans.high first in
      let seen = in_at (clamp n first) in
      let here = in_at first in
      elim (Bool-cases (first == n)) [
        | inl e ↦
            let e' : clamp n first ≡ n - 1 = ground (arith, e) in
            absurd (ground (arith, seen, t, e, v.used, end))
        | inr e ↦ ground (arith, seen, t, e, first-Splits.0, high)
      ]

  lo_none : in_range cb min max (f (clamp n first)) ≡ false → stop ≤ first
  lo_none t =
      let upto : first < stop → rank (f first) ≤ rank max = stop-Spans.upto first in
      let seen = in_at (clamp n first) in
      elim (Bool-cases (first == n)) [
        | inl e ↦ ground (arith, e, stop-Spans.le_all)
        | inr e ↦ ground (arith, seen, t, e, first-Splits.0, at_first, upto)
      ]

  hi_stop :
      first < stop
      → (if in_range cb min max (f (clamp n last)) then clamp n last else clamp n last - 1) + 1
        ≡ stop
  hi_stop h =
      let seen = in_at (clamp n last) in
      let low : first ≤ clamp n last → clamp n last < n → rank min ≤ rank (f (clamp n last)) =
        first-Splits.2 (clamp n last) in
      let end : n - 1 < last → rank (f (n - 1)) < rank max = last-Splits.1 (n - 1) in
      elim (Bool-cases (last == n)) [
        | inl e ↦ ground (arith, seen, e, h, first-Splits.0, v.used, low, end)
        | inr e ↦ ground (arith, seen, e, h, first-le-last, last-Splits.0, low, at_last)
      ]

  module _ (g : Elem → List Elem → Elem) (z : Elem) (start : g z [] ≡ z) where
    none_inside : stop ≤ first → z ≡ g z (inside cb min max (live s))
    none_inside h =
        let empty : slice f first (stop - first) ≡ [] =
          let e : stop - first ≡ 0 = omega (arith, h) in rw e refl in
        sym (ap (g z) (inside_stop ∙ empty) ∙ start)

    -- Both ends in one slab: the callback is given the cells in the range.
    pub foldr_within-inside : foldr_within cb min max g false z s ≡ g z (inside cb min max (live s))
    unfolding foldr_within
    foldr_within-inside = elim (Bool-cases (in_range cb min max (f (clamp n first)))) [
      | inl t ↦
          let at = lo_first t in
          let count : sub64 stop first ≡ stop - first =
            omega (arith, at.1, stop-Spans.le_all, v.fits) in
          rw t (rw (at.0, hi_stop at.1, count) (ap (g z) (sym inside_stop)))
      | inr t ↦ rw t (none_inside (lo_none t))
    ]

    -- Where every cell is above the lesser end, the last slab of several: the cells up to the greater
    -- end.
    pub foldr_last-inside :
        ((k : ℕ) → k < n → rank min < rank (f k))
        → foldr_last cb min max g false z s ≡ g z (inside cb min max (live s))
    unfolding foldr_last
    foldr_last-inside above =
        let zero_first : first ≡ 0 =
          ground (arith, first-Splits.0, first-Splits.1 0, above 0, v.used) in
        let all : inside cb min max (live s) ≡ slice f 0 stop =
          inside_stop ∙ rw zero_first (ap (slice f 0) (omega arith)) in
        let seen = in_at (clamp n last) in
        let ended : first < stop
            → (if in_range cb min max (f (clamp n last)) then clamp n last else clamp n last - 1)
                + 1
              ≡ stop =
          hi_stop in
        let past : stop ≤ clamp n last → clamp n last < n → rank max < rank (f (clamp n last)) =
          stop-Spans.high (clamp n last) in
        let within : clamp n last < stop → rank (f (clamp n last)) ≤ rank max =
          stop-Spans.upto (clamp n last) in
        let over_all : stop ≤ 0 → 0 < n → rank max < rank (f 0) = stop-Spans.high 0 in
        let under_all : 0 < last → rank (f 0) < rank max = last-Splits.1 0 in
        let above_at : clamp n last < n → rank min < rank (f (clamp n last)) =
          above (clamp n last) in
        elim (Bool-cases (in_range cb min max (f (clamp n last)))) [
          | inl t ↦
              let count : clamp n last + 1 ≡ stop =
                ground (arith, t, seen, ended, past, zero_first, last-Splits.0, v.used) in
              rw (t, count) (ap (g z) (sym all))
          | inr t ↦ elim (Bool-cases (clamp n last == 0)) [
            | inl e ↦
                let empty : stop ≡ 0 =
                  ground (arith, t, e, seen, ended, within, zero_first, above_at, v.used) in
                rw (t, e) (sym (ap (g z) (all ∙ ap (slice f 0) empty) ∙ start))
            | inr e ↦
                let count : clamp n last ≡ stop =
                  ground (arith, t, e, ended, over_all, under_all, zero_first, v.used) in
                rw (t, e) (ap (g z) (ap (slice f 0) count ∙ sym all))
          ]
        ]

  -- The first of several slabs, which the lesser end is not over and the greater one is: the cells from
  -- the index on.
  pub first_part :
      rank min ≤ rank s.s_max
      → rank s.s_max < rank max
      → (in_range cb min max (f first) ≡ true)
        × (slice f first (n - first) ≡ inside cb min max (live s))
  first_part low over =
      let end : n - 1 < first → rank (f (n - 1)) < rank min = first-Splits.1 (n - 1) in
      let here : first < n = ground (arith, first-Splits.0, end, v.max_last, v.used, low) in
      let climb : first < n - 1 → rank (f first) < rank (f (n - 1)) =
        λ p. rises first (n - 1) p (omega (arith, v.used)) in
      let under_all : n - 1 < last → rank (f (n - 1)) < rank max = last-Splits.1 (n - 1) in
      let past : last < n - 1 → rank (f last) < rank (f (n - 1)) =
        λ p. rises last (n - 1) p (omega (arith, v.used)) in
      let whole : stop ≡ n =
        ground (arith, past, last-Splits.0, at_last, v.max_last, over, v.used) in
      (
        ground (arith, in_at first, at_first, here, climb, v.max_last, over),
        sym (inside_stop ∙ ap (λ m. slice f first (m - first)) whole),
      )
