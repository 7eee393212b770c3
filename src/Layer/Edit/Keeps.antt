-- ===== src/Layer/Edit/Keeps.antt =====
-- A cell put into a subslab where the search for it leads keeps the subslab well-formed.
use libslablist.Prelude.{
  ℕ, suc, ◌+◌, ◌-◌, ◌≤◌, ◌<◌, ◌≡◌, ◌⊎◌, ap, inl, inr, false, arith, write, bcopy, insert_at, dec_lt,
}
use libslablist.Callbacks.{Callbacks, Ranked}
use libslablist.Search.{Probe, hit, miss}
use libslablist.Layer.{Subslab, Cell, kind, Kind, refs, subelem_max, settle_sub, subslab_bin_srch}
use libslablist.Layer.Order.{IsOrdered, IsIndex, min-le-max, Tells, sub_bin_loop-Tells, status_at}
use libslablist.Layer.Edit.{add_slab, remove_slab}
use libslablist.Layer.Edit.Refs.{
  ss_arr-add_slab, ss_elems-add_slab, refs-add_slab, ss_elems-remove_slab,
}

module _ {cb : Callbacks} (r : Ranked cb) {A : Type 0} (k : Kind A) (Q : A → Type 0) (s : Subslab A)
    (x : A) (v : IsOrdered r.rank k Q s) where
  open r use {rank}

  -- The index parts the cells below the new one from those above it.
  abbrev Parts : ℕ → Type 0
  Parts i =
      (i ≤ s.ss_elems)
      × ((j : ℕ) → j < i → rank (k.max_of (s.ss_arr j)) < rank (k.min_of x))
      × ((j : ℕ) → i ≤ j → j < s.ss_elems → rank (k.max_of x) < rank (k.min_of (s.ss_arr j)))

  module _ (room : s.ss_elems < subelem_max) (q : Q x) (i : ℕ) (parts : Parts i) where
    open s use {ss_arr as f, ss_elems as n}

    abbrev arr : ℕ → A
    arr = write (bcopy f i f (i + 1) (n - i)) i x

    -- What stands in each cell afterwards.
    cells :
        (j : ℕ)
        → j ≤ n
        → ((j < i) × (arr j ≡ f j)) ⊎ ((j ≡ i) × (arr j ≡ x)) ⊎ ((i < j) × (arr j ≡ f (j - 1)))
    cells j p = elim (dec_lt j i) [
      | yes l ↦ inl (l, ground arith)
      | no l ↦ elim (dec_lt i j) [
        | yes m ↦
            let e : j - (i + 1) + i ≡ j - 1 = omega arith in inr (inr (m, ground (arith, ap f e)))
        | no m ↦ inr (inl (omega arith, ground arith))
      ]
    ]

    each_cell : (j : ℕ) → j ≤ n → Q (arr j)
    each_cell j p = elim (cells j p) [
      | inl (l, e) ↦ rw e (v.each j (omega (arith, parts.0)))
      | inr (inl (l, e)) ↦ rw e q
      | inr (inr (l, e)) ↦ rw e (v.each (j - 1) (omega arith))
    ]

    rising : (j l : ℕ) → j < l → l ≤ n → rank (k.max_of (arr j)) < rank (k.min_of (arr l))
    rising j l p p' = elim (cells j (omega arith)) [
      | inl (a, e) ↦ elim (cells l p') [
        | inl (b, e') ↦ rw (e, e') (v.rises j l p (omega (arith, parts.0)))
        | inr (inl (b, e')) ↦ rw (e, e') (parts.1 j a)
        | inr (inr (b, e')) ↦ rw (e, e') (v.rises j (l - 1) (omega arith) (omega arith))
      ]
      | inr (inl (a, e)) ↦ elim (cells l p') [
        | inl (b, e') ↦ absurd (omega arith)
        | inr (inl (b, e')) ↦ absurd (omega arith)
        | inr (inr (b, e')) ↦ rw (e, e') (parts.2 (l - 1) (omega arith) (omega arith))
      ]
      | inr (inr (a, e)) ↦ elim (cells l p') [
        | inl (b, e') ↦ absurd (omega arith)
        | inr (inl (b, e')) ↦ absurd (omega arith)
        | inr (inr (b, e')) ↦ rw (e, e') (v.rises (j - 1) (l - 1) (omega arith) (omega arith))
      ]
    ]

    add_slab-IsOrdered : IsOrdered rank k Q (add_slab cb k false s x i)
    unfolding add_slab
    add_slab-IsOrdered = record {
      used = ground arith;
      fits = ground arith;
      min_first = ground (arith, v.min_first, v.used, parts.0);
      max_last = ground (arith, v.max_last, v.used, parts.0);
      each = λ j p.
          rw (ss_arr-add_slab cb k s x i)
            (each_cell j (omega (arith, p, ss_elems-add_slab cb k s x i room parts.0)));
      rises = λ j l p p'.
          rw (ss_arr-add_slab cb k s x i)
            (rising j l p (omega (arith, p', ss_elems-add_slab cb k s x i room parts.0)));
    }

  -- The cell's range is apart from those of the cells that are there.
  module _
      (lows : (j : ℕ)
        → j < s.ss_elems
        → rank (k.min_of (s.ss_arr j)) ≤ rank (k.max_of (s.ss_arr j)))
      (low : rank (k.min_of x) ≤ rank (k.max_of x))
      (apart : (j : ℕ)
        → j < s.ss_elems
        → (rank (k.max_of (s.ss_arr j)) < rank (k.min_of x))
          ⊎ (rank (k.max_of x) < rank (k.min_of (s.ss_arr j)))) where
    abbrev PartsAt : ℕ → ℕ → Type 0
    PartsAt j i =
        (i ≤ s.ss_elems)
        × (j < i → rank (k.max_of (s.ss_arr j)) < rank (k.min_of x))
        × (i ≤ j → j < s.ss_elems → rank (k.max_of x) < rank (k.min_of (s.ss_arr j)))

    settle_sub-PartsAt :
        (p : Probe) (tells : (j : ℕ) → Tells r (k.max_of x) k s.ss_arr s.ss_elems j p) (j : ℕ)
        → PartsAt j (settle_sub cb (k.max_of x) k false s p)
    unfolding settle_sub
    settle_sub-PartsAt (hit m) tells j =
        ground (arith, low, tells j, apart j, apart m, lows j, lows m, v.rises m j)
    settle_sub-PartsAt (miss m) tells j = ground (
      arith,
      low,
      v.used,
      tells j,
      tells m,
      tells (s.ss_elems - 1),
      apart j,
      lows j,
      lows m,
      lows (s.ss_elems - 1),
      status_at r (k.max_of x) k s.ss_arr s.ss_elems lows v.rises m,
      status_at r (k.max_of x) k s.ss_arr s.ss_elems lows v.rises (s.ss_elems - 1),
    )

    searched : (j : ℕ) → PartsAt j (subslab_bin_srch cb (k.max_of x) k false s)
    unfolding subslab_bin_srch
    searched = settle_sub-PartsAt _ (λ j.
        sub_bin_loop-Tells r (k.max_of x) k s.ss_arr s.ss_elems lows v.rises s.ss_elems j 0
          s.ss_elems (omega arith) (omega arith) (omega arith) (omega arith) (omega arith))

    pub add_slab_search :
        s.ss_elems < subelem_max
        → Q x
        → IsOrdered rank k Q (add_slab cb k false s x (subslab_bin_srch cb (k.max_of x) k false s))
          × (refs (add_slab cb k false s x (subslab_bin_srch cb (k.max_of x) k false s))
              ≡ insert_at (subslab_bin_srch cb (k.max_of x) k false s) x (refs s))
    add_slab_search room q =
        let i = subslab_bin_srch cb (k.max_of x) k false s in
        let parts : Parts i = ((searched 0).0, λ j. (searched j).1, λ j. (searched j).2) in
        (add_slab-IsOrdered room q i parts, refs-add_slab cb k s x i room parts.0)

-- add_slab of a well-formed slab or subslab, into a well-formed subslab with room whose cells are
-- all below or above the new one, at the index where a search for the maximum of the new one
-- stops, in a list that is not used for sorting: the subslab is again well-formed and its cells
-- are those of before with the new one at that index.
pub add_slab-IsIndex :
    {cb : Callbacks} (r : Ranked cb) (n : ℕ) (s : Cell (suc n)) (x : Cell n)
    → IsIndex r.rank (suc n) s
    → IsIndex r.rank n x
    → s.ss_elems < subelem_max
    → ((j : ℕ)
        → j < s.ss_elems
        → (r.rank ((kind n).max_of (s.ss_arr j)) < r.rank ((kind n).min_of x))
          ⊎ (r.rank ((kind n).max_of x) < r.rank ((kind n).min_of (s.ss_arr j))))
    → IsIndex r.rank
        (suc n)
        (add_slab cb (kind n) false s x (subslab_bin_srch cb ((kind n).max_of x) (kind n) false s))
      × (refs (
            add_slab cb
              (kind n)
              false
              s
              x
              (subslab_bin_srch cb ((kind n).max_of x) (kind n) false s))
          ≡ insert_at (subslab_bin_srch cb ((kind n).max_of x) (kind n) false s) x (refs s))
add_slab-IsIndex r n s x v w room apart =
    add_slab_search r (kind n) (IsIndex r.rank n) s x v
      (λ j p. min-le-max r.rank n (s.ss_arr j) (v.each j p)) (min-le-max r.rank n x w) apart room w

module _ (rank : ℕ → ℕ) {A : Type 0} (k : Kind A) (Q : A → Type 0) (s : Subslab A)
    (v : IsOrdered rank k Q s) (i : ℕ) (at : i < s.ss_elems) (more : 1 < s.ss_elems) where
  open s use {ss_arr as f, ss_elems as n}

  abbrev gone : ℕ → A
  gone = (remove_slab k i s).ss_arr

  left_cells : (j : ℕ) → j + 1 < n → ((j < i) × (gone j ≡ f j)) ⊎ ((i ≤ j) × (gone j ≡ f (j + 1)))
  unfolding remove_slab
  left_cells j p = elim (dec_lt j i) [
    | yes l ↦ inl (l, ground arith)
    | no l ↦
        let e : j - i + (i + 1) ≡ j + 1 = omega arith in inr (omega arith, ground (arith, ap f e))
  ]

  each_left : (j : ℕ) → j + 1 < n → Q (gone j)
  each_left j p = elim (left_cells j p) [
    | inl (l, e) ↦ rw e (v.each j (omega arith))
    | inr (l, e) ↦ rw e (v.each (j + 1) p)
  ]

  rises_left : (j l : ℕ) → j < l → l + 1 < n → rank (k.max_of (gone j)) < rank (k.min_of (gone l))
  rises_left j l p p' = elim (left_cells j (omega arith)) [
    | inl (a, e) ↦ elim (left_cells l p') [
      | inl (b, e') ↦ rw (e, e') (v.rises j l p (omega arith))
      | inr (b, e') ↦ rw (e, e') (v.rises j (l + 1) (omega arith) p')
    ]
    | inr (a, e) ↦ elim (left_cells l p') [
      | inl (b, e') ↦ absurd (omega arith)
      | inr (b, e') ↦ rw (e, e') (v.rises (j + 1) (l + 1) (omega arith) p')
    ]
  ]

  -- remove_slab of a cell of a well-formed subslab that holds another keeps it well-formed.
  pub remove_slab-IsOrdered : IsOrdered rank k Q (remove_slab k i s)
  unfolding remove_slab
  remove_slab-IsOrdered =
      let count = ss_elems-remove_slab k s i at v.fits in
      record {
        used = omega (arith, count);
        fits = omega (arith, count, v.fits);
        min_first = ground (arith, v.min_first, v.fits);
        max_last = ground (arith, v.max_last, v.fits);
        each = λ j p. each_left j (omega (arith, p, count));
        rises = λ j l p p'. rises_left j l p (omega (arith, p', count));
      }
