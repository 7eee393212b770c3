-- ===== src/Search/Place.antt =====
-- The index that the searches of a slab return: where the element belongs.
use libslablist.Prelude.{Option, none, some, ℕ, ◌+◌, ◌-◌, ◌≤◌, ◌<◌, ◌≡◌, arith, true, false}
use libslablist.Callbacks.{Elem, Callbacks, Ranked}
use libslablist.Slab.{Slab}
use libslablist.Search.{
  Probe, hit, miss, bin_loop, slab_get_last_elem, slab_bin_srch, slab_lin_srch, settle, ended,
}
use libslablist.Search.Order.{
  Climbs, Rises, Splits, Rises→Climbs, Tells, bin_loop-Tells, last_loop-Splits, lin_loop-Splits,
}

module _ {cb : Callbacks} (r : Ranked cb) (e : Elem) (s : Slab) where
  open r use {rank, cmp_rank}

  -- What a place in the slab means for one cell: equals stand at it or after, or before it.
  abbrev Before : ℕ → ℕ → Type 0
  Before k i =
      (i ≤ s.s_elems)
      × (k < i → rank (s.s_arr k) < rank e)
      × (i ≤ k → k < s.s_elems → rank e ≤ rank (s.s_arr k))

  abbrev After : ℕ → ℕ → Type 0
  After k i =
      (i ≤ s.s_elems)
      × (k < i → rank (s.s_arr k) ≤ rank e)
      × (i ≤ k → k < s.s_elems → rank e < rank (s.s_arr k))

  ended-Before :
      (rises : Rises rank s.s_arr s.s_elems) (used : 0 < s.s_elems) (p : Option Probe)
      (tells : (k : ℕ) → Tells r e s.s_arr s.s_elems k p) (k : ℕ)
      → Before k (ended cb e false s p)
  unfolding ended settle
  ended-Before rises used none tells k = absurd (tells k)
  ended-Before rises used (some (hit m)) tells k = ground (arith, tells k, rises k m, rises m k)
  ended-Before rises used (some (miss m)) tells k = ground (
    arith,
    tells k,
    tells m,
    tells (s.s_elems - 1),
    cmp_rank e (s.s_arr m),
    cmp_rank e (s.s_arr (s.s_elems - 1)),
  )

  -- A slab that keeps duplicates: the place is behind the last of them.
  ended-After :
      (climbs : Climbs rank s.s_arr s.s_elems) (used : 0 < s.s_elems) (p : Option Probe)
      (tells : (k : ℕ) → Tells r e s.s_arr s.s_elems k p) (k : ℕ)
      → After k (ended cb e true s p)
  unfolding ended settle slab_get_last_elem
  ended-After climbs used none tells k = absurd (tells k)
  ended-After climbs used (some (hit m)) tells k = ground (
    arith,
    tells k,
    climbs k m,
    last_loop-Splits r e s.s_arr s.s_elems climbs (s.s_elems - m) k m,
  )
  ended-After climbs used (some (miss m)) tells k = ground (
    arith,
    tells k,
    tells m,
    tells (s.s_elems - 1),
    cmp_rank e (s.s_arr m),
    cmp_rank e (s.s_arr (s.s_elems - 1)),
    last_loop-Splits r e s.s_arr s.s_elems climbs (s.s_elems - m) k m,
    last_loop-Splits r e s.s_arr s.s_elems climbs (s.s_elems - (s.s_elems - 1 + 1)) k
        (s.s_elems - 1 + 1),
  )

  probe-Tells :
      Climbs rank s.s_arr s.s_elems
      → (k : ℕ) → Tells r e s.s_arr s.s_elems k (bin_loop cb e s.s_elems s.s_arr 0 s.s_elems)
  probe-Tells climbs k =
      bin_loop-Tells r e s.s_arr s.s_elems climbs s.s_elems k 0 s.s_elems (omega arith)
        (omega arith) (omega arith) (omega arith) (omega arith)

  module _ (rises : Rises rank s.s_arr s.s_elems) (used : 0 < s.s_elems) where
    bin_at : (k : ℕ) → Before k (slab_bin_srch cb e false s)
    unfolding slab_bin_srch
    bin_at = ended-Before rises used _ (probe-Tells (Rises→Climbs rank s.s_arr s.s_elems rises))

    lin_at : (k : ℕ) → Before k (slab_lin_srch cb e false s)
    unfolding slab_lin_srch
    lin_at k =
        lin_loop-Splits r e s.s_arr s.s_elems (Rises→Climbs rank s.s_arr s.s_elems rises) s.s_elems
          k 0 (omega arith) (omega arith) (omega arith)

    -- On a slab that holds an element and whose cells rise, the binary search returns an index
    -- with only smaller elements before it and no smaller one from it on.
    pub slab_bin_srch-Splits : Splits rank e s.s_arr s.s_elems (slab_bin_srch cb e false s)
    slab_bin_srch-Splits = ((bin_at 0).0, λ k. (bin_at k).1, λ k. (bin_at k).2)

    -- On a slab that holds an element and whose cells rise, the binary search and the linear
    -- search return the same index.
    pub slab_bin_srch-lin_srch : slab_bin_srch cb e false s ≡ slab_lin_srch cb e false s
    slab_bin_srch-lin_srch =
        let i = slab_bin_srch cb e false s in
        let j = slab_lin_srch cb e false s in ground (arith, bin_at i, lin_at i, bin_at j, lin_at j)

  module _ (climbs : Climbs rank s.s_arr s.s_elems) (used : 0 < s.s_elems) where
    sort_at : (k : ℕ) → After k (slab_bin_srch cb e true s)
    unfolding slab_bin_srch
    sort_at = ended-After climbs used _ (probe-Tells climbs)

    -- In a list that is used for sorting, on a slab that holds an element and whose cells do not
    -- fall, the binary search returns the index behind every element that is not greater.
    pub slab_bin_srch_stable :
        (slab_bin_srch cb e true s ≤ s.s_elems)
        × ((k : ℕ) → k < slab_bin_srch cb e true s → rank (s.s_arr k) ≤ rank e)
        × ((k : ℕ) → slab_bin_srch cb e true s ≤ k → k < s.s_elems → rank e < rank (s.s_arr k))
    slab_bin_srch_stable = ((sort_at 0).0, λ k. (sort_at k).1, λ k. (sort_at k).2)
