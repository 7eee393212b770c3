-- ===== src/Range/Cells.antt =====
-- One slab at an edge of the range.
use libslablist.Prelude.{
  ℕ, ◌+◌, ◌-◌, ◌^◌, ◌≤◌, ◌<◌, ◌≡◌, refl, sym, ap, ap₂, ◌∙◌, List, [], ◌++◌, true, false, arith,
  slice, slice_ext, slice-add, slice-cut, Bool-cases, All, inl, inr, suc, length, length-slice,
  length-append,
}
use libslablist.Callbacks.{Elem, Callbacks, Ranked}
use libslablist.Slab.{Slab, live}
use libslablist.Slab.Edit.{IsValid}
use libslablist.Search.{slab_bin_srch}
use libslablist.Search.Order.{Rises, Rises→Climbs}
use libslablist.Search.Place.{slab_bin_srch-Splits}
use libslablist.Sorted.{Ascends}
use libslablist.Sorted.Cells.{All-slice, Ascends→Rises}
use libslablist.Chain.{flat}
use libslablist.Range.{
  is_slab_range, is_slab_part_range, range_stop, remove_range_elems, decruftify_slab, Cut,
}
use libslablist.Range.Filter.{outside, outside-append, outside-below, outside-above, outside-within}

module _ {cb : Callbacks} (r : Ranked cb) (min max : Elem) (le : r.rank min ≤ r.rank max) (s : Slab)
    (v : IsValid s) (asc : Ascends r.rank (live s)) where
  open r use {rank, cmp_rank}

  abbrev f : ℕ → Elem
  f = s.s_arr

  abbrev i : ℕ
  i = slab_bin_srch cb min false s

  abbrev j : ℕ
  j = slab_bin_srch cb max false s

  abbrev stop : ℕ
  stop = range_stop cb min max false s

  rises : Rises rank s.s_arr s.s_elems
  rises = Ascends→Rises rank s.s_arr s.s_elems asc

  start_at :
      (k : ℕ)
      → (i ≤ s.s_elems)
        × (k < i → rank (f k) < rank min)
        × (i ≤ k → k < s.s_elems → rank min ≤ rank (f k))
  start_at k = let p = slab_bin_srch-Splits r min s rises v.used in (p.0, p.1 k, p.2 k)

  last_at :
      (k : ℕ)
      → (j ≤ s.s_elems)
        × (k < j → rank (f k) < rank max)
        × (j ≤ k → k < s.s_elems → rank max ≤ rank (f k))
  last_at k = let p = slab_bin_srch-Splits r max s rises v.used in (p.0, p.1 k, p.2 k)

  stop_at :
      (k : ℕ)
      → (stop ≤ s.s_elems)
        × (k < stop → rank (f k) ≤ rank max)
        × (stop ≤ k → k < s.s_elems → rank max < rank (f k))
  unfolding range_stop
  stop_at k = ground (arith, last_at k, last_at j, cmp_rank max (f j), rises j k)

  start-le-stop : i ≤ stop
  start-le-stop = ground (arith, start_at stop, stop_at stop)

  before : List Elem
  before = slice f 0 i

  within : List Elem
  within = slice f i (stop - i)

  beyond : List Elem
  beyond = slice f stop (s.s_elems - stop)

  -- The cells before the range, in it, and after it.
  parts : live s ≡ before ++ (within ++ beyond)
  unfolding before within beyond
  parts =
      let le_i = start-le-stop in
      let le_n = (stop_at 0).0 in
      let e : i + (stop - i) ≡ stop = omega (arith, le_i) in
      slice-cut f i ((stop - i) + (s.s_elems - stop)) s.s_elems (omega (arith, le_i, le_n))
      ∙ ap (λ t. before ++ t)
          (slice-add f i (stop - i) (s.s_elems - stop)
            ∙ ap (λ t. within ++ slice f t (s.s_elems - stop)) e)

  outside_parts : outside cb min max (live s) ≡ before ++ beyond
  unfolding before within beyond
  outside_parts =
      let le_n = (stop_at 0).0 in
      ap (outside cb min max) parts
      ∙ outside-append r min max before (within ++ beyond)
      ∙ ap₂ ◌++◌
          (outside-below r min max before
            (All-slice (λ x. rank x < rank min) f 0 i (λ k _ l. (start_at k).1 (omega arith))))
          (outside-append r min max within beyond
            ∙ ap₂ ◌++◌
                (outside-within r min max within (
                  All-slice (λ x. (rank min ≤ rank x) × (rank x ≤ rank max)) f i (stop - i)
                    (λ k p l.
                      ((start_at k).2 p (omega (arith, le_n)), (stop_at k).1 (omega arith)))))
                (outside-above r min max beyond (
                  All-slice (λ x. rank max < rank x) f stop (s.s_elems - stop)
                    (λ k p l. (stop_at k).2 p (omega (arith, le_n))))))

  abbrev trimmed : Slab
  trimmed = (remove_range_elems cb min max false s).0

  count : trimmed.s_elems ≡ i + (s.s_elems - stop)
  unfolding remove_range_elems
  count = omega (arith, v.fits, start-le-stop, stop_at 0)

  pub live-remove_range_elems : live trimmed ≡ outside cb min max (live s)
  unfolding remove_range_elems before beyond
  live-remove_range_elems =
      slice-cut trimmed.s_arr i (s.s_elems - stop) trimmed.s_elems count
      ∙ ap₂ ◌++◌ (slice_ext trimmed.s_arr f 0 0 i (λ k p. ground arith))
          (slice_ext trimmed.s_arr f i stop (s.s_elems - stop) (λ k p. ground arith))
      ∙ sym outside_parts

  -- A slab that is not wholly in the range keeps an element.
  keeps : is_slab_part_range cb min max s ≡ true → 0 < i + (s.s_elems - stop)
  unfolding is_slab_part_range
  keeps h = ground (
    arith,
    h,
    cmp_rank min s.s_min,
    cmp_rank max s.s_max,
    v.used,
    v.min_first,
    v.max_last,
    start_at 0,
    stop_at (s.s_elems - 1),
  )

  pub remove_range_elems-IsValid : is_slab_part_range cb min max s ≡ true → IsValid trimmed
  unfolding remove_range_elems
  remove_range_elems-IsValid h = record {
    used = omega (arith, count, keeps h);
    fits = omega (arith, count, v.fits, start-le-stop, stop_at 0);
    min_first = refl;
    max_last = refl;
  }

  trimmed_fits : (ss : List Slab) → length (live trimmed ++ flat ss) ≤ s.s_elems + length (flat ss)
  trimmed_fits ss = omega (
    arith,
    length-append (live trimmed) (flat ss),
    length-slice trimmed.s_arr 0 trimmed.s_elems,
    count,
    start-le-stop,
    stop_at 0,
  )

  -- A slab whose extrema lie in the range has nothing outside it.
  outside_range : is_slab_range cb min max s ≡ true → outside cb min max (live s) ≡ []
  unfolding is_slab_range
  outside_range h = outside-within r min max (live s) (
      All-slice (λ x. (rank min ≤ rank x) × (rank x ≤ rank max)) f 0 s.s_elems
        (λ k _ l.
          let climbs = Rises→Climbs rank f s.s_elems rises in
          ground (
            arith,
            h,
            cmp_rank min s.s_min,
            cmp_rank max s.s_max,
            v.min_first,
            v.max_last,
            climbs 0 k,
            climbs k (s.s_elems - 1),
          )))

  -- The slab goes wholly or keeps what is outside the range, and the counts follow. `ss` stands behind.
  pub record Edge (n m : ℕ) (ss : List Slab) (c : Cut) : Type 0 where
    pub left : flat c.chain ≡ outside cb min max (live s) ++ flat ss
    pub valid : All IsValid ss → All IsValid c.chain
    pub most : c.sl_elems ≤ m
    pub least : m + length (flat c.chain) ≤ c.sl_elems + (s.s_elems + length (flat ss))
    pub few : length c.chain ≤ suc (length ss)
    pub slabs : c.sl_slabs + suc (length ss) ≡ n + length c.chain

  pub decruftify_slab-Edge :
      (n m : ℕ) (ss : List Slab)
      → 0 < n
      → n < 2 ^ 64
      → s.s_elems ≤ m
      → m < 2 ^ 64
      → Edge n m ss (decruftify_slab cb min max false n m s ss)
  unfolding decruftify_slab is_slab_range is_slab_part_range
  decruftify_slab-Edge n m ss some bound inside count_bound =
      elim (Bool-cases (is_slab_range cb min max s)) [
        | inl whole ↦ rw whole (record {
          left = ap (λ t. t ++ flat ss) (sym (outside_range whole));
          valid = λ w. w;
          most = omega arith;
          least = omega arith;
          few = omega arith;
          slabs = omega arith;
        })
        | inr not_whole ↦
            let part : is_slab_part_range cb min max s ≡ true = part_or_whole not_whole in
            rw (not_whole, part)
              (record {
                left = ap (λ t. t ++ flat ss) live-remove_range_elems;
                valid = λ w. (remove_range_elems-IsValid part, w);
                most = omega arith;
                least = omega (arith, trimmed_fits ss);
                few = omega arith;
                slabs = omega arith;
              })
      ]
    where
      part_or_whole : is_slab_range cb min max s ≡ false → is_slab_part_range cb min max s ≡ true
      part_or_whole h = ground arith
