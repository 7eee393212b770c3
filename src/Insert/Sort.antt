-- ===== src/Insert/Sort.antt =====
-- Adding to a sorted list: the element goes to its place among the elements of the whole chain, on
-- every branch.
use libslablist.Prelude.{
  ℕ, ◌-◌, ◌≤◌, ◌<◌, ◌≡◌, ◌≢◌, sym, subst, inl, inr, ap, ap₂, ◌∙◌, List, ◌∷◌, ◌++◌, All-append,
  All-append_left, All-append_right, false, append_assoc, arith, ltb, insert_at, insert_at-append,
  slice, slice-cut, length-slice, Bool-cases,
}
use libslablist.Callbacks.{Elem, Callbacks, Ranked}
use libslablist.Slab.{live, selem_max}
use libslablist.Search.{slab_bin_srch}
use libslablist.Search.Order.{Rises, Splits}
use libslablist.Search.Place.{slab_bin_srch-Splits}
use libslablist.Sorted.{
  insert, insert-append, Above-mono, Below, Above, Lacks, Ascends, Ascends-left, Ascends-right,
  Ascends-between,
}
use libslablist.Sorted.Cells.{All-slice, All-at, Ascends→Rises}
use libslablist.Chain.{Place, flat, rflat, contents, IsWhole}
use libslablist.Insert.{is_same, ira_spill, gen_add_ira}
use libslablist.Insert.Spills.{ira_spill-Puts}
use libslablist.Insert.Branches.{Puts, into-Puts}

module _ {cb : Callbacks} (r : Ranked cb) (e : Elem) (p : Place) (w : IsWhole p) where
  open r use {rank}

  -- `i` cuts the slab at the place of `e`.
  abbrev pub Cuts : ℕ → Type 0
  Cuts i =
      (i ≤ p.cur.s_elems)
      × ((k : ℕ) → k < i → rank (p.cur.s_arr k) < rank e)
      × ((k : ℕ) → i ≤ k → k < p.cur.s_elems → rank e < rank (p.cur.s_arr k))

  -- The chain with `e` in its place.
  pub record Adds (q : Place) : Type 0 where
    pub sorted : contents q ≡ insert cb e (contents p)
    pub whole : IsWhole q

  module _ (low : Below rank e (rflat p.before)) (high : Above rank e (flat p.after)) where
    pub Puts→Adds : (i : ℕ) (q : Place) → Cuts i → Puts e i p q → Adds q
    Puts→Adds i q cuts puts = record {
      sorted =
          puts.put
          ∙ ap (λ t. rf ++ (t ++ fa)) cut_at
          ∙ regrouped (e ∷ back)
          ∙ sym (
              insert-append r e (rf ++ front) (back ++ fa)
                (All-append (λ x. rank x < rank e) rf front low
                  (All-slice (λ x. rank x < rank e) arr 0 i (λ k _ h. cuts.1 k (omega arith))))
                (All-append (λ x. rank e < rank x) back fa
                  (All-slice (λ x. rank e < rank x) arr i (n - i)
                    (λ k h h'. cuts.2 k h (omega (arith, cuts.0))))
                  high))
          ∙ ap (insert cb e) (sym (ap (λ t. rf ++ (t ++ fa)) cut_live ∙ regrouped back));
      whole = puts.whole;
    }
      where
        n : ℕ
        n = p.cur.s_elems

        arr : ℕ → Elem
        arr = p.cur.s_arr

        rf : List Elem
        rf = rflat p.before

        fa : List Elem
        fa = flat p.after

        front : List Elem
        front = slice arr 0 i

        back : List Elem
        back = slice arr i (n - i)

        cut_live : live p.cur ≡ front ++ back
        cut_live = slice-cut arr i (n - i) n (omega (arith, cuts.0))

        cut_at : insert_at i e (live p.cur) ≡ front ++ (e ∷ back)
        cut_at =
            ap₂ (λ k t. insert_at k e t) (sym (length-slice arr 0 i)) cut_live
            ∙ insert_at-append front back e

        regrouped : (t : List Elem) → rf ++ ((front ++ t) ++ fa) ≡ (rf ++ front) ++ (t ++ fa)
        regrouped t =
            ap (λ u. rf ++ u) (append_assoc front t fa) ∙ sym (append_assoc rf front (t ++ fa))

  module _ (asc : Ascends rank (contents p)) where
    pub cur_asc : Ascends rank (live p.cur)
    cur_asc =
        Ascends-left rank (live p.cur) (flat p.after)
          (Ascends-right rank (rflat p.before) (live p.cur ++ flat p.after) asc)

    pub rises : Rises rank p.cur.s_arr p.cur.s_elems
    rises = Ascends→Rises rank p.cur.s_arr p.cur.s_elems cur_asc

    abbrev pub i : ℕ
    i = slab_bin_srch cb e false p.cur

    pub split : Splits rank e p.cur.s_arr p.cur.s_elems i
    split = slab_bin_srch-Splits r e p.cur rises w.here.used

    -- The slabs behind hold what is greater than any element of this one.
    pub high_of :
        (k : ℕ) → k < p.cur.s_elems → rank e ≤ rank (p.cur.s_arr k) → Above rank e (flat p.after)
    high_of k h le = Above-mono rank e (p.cur.s_arr k) (flat p.after) le (
        All-at (λ x. Above rank x (flat p.after)) p.cur.s_arr 0 p.cur.s_elems k
          (Ascends-between rank (live p.cur) (flat p.after)
            (Ascends-right rank (rflat p.before) (live p.cur ++ flat p.after) asc))
          (omega arith) (omega arith))

    pub full_of : ltb p.cur.s_elems selem_max ≡ false → p.cur.s_elems ≡ selem_max
    full_of t = let fits = w.here.fits in ground arith

    module _ (lacks : Lacks rank e (contents p)) where
      lacks_at : (k : ℕ) → k < p.cur.s_elems → rank (p.cur.s_arr k) ≢ rank e
      lacks_at k h =
          All-at (λ x. rank x ≢ rank e) p.cur.s_arr 0 p.cur.s_elems k
            (All-append_left (λ x. rank x ≢ rank e) (live p.cur) (flat p.after)
              (All-append_right (λ x. rank x ≢ rank e) (rflat p.before) (live p.cur ++ flat p.after)
                lacks))
            (omega arith) (omega arith)

      pub cuts : Cuts i
      cuts = (split.0, split.1, λ k h h'. omega (arith, split.2 k h h', lacks_at k h'))

      -- The two tests for an equal element fail.
      pub differs : (k : ℕ) → k < p.cur.s_elems → is_same (cb.cmp e (p.cur.s_arr k)) ≡ false
      differs k h = ground (arith, r.cmp_rank e (p.cur.s_arr k), lacks_at k h)

      differs' : (k : ℕ) → k < p.cur.s_elems → is_same (cb.cmp (p.cur.s_arr k) e) ≡ false
      differs' k h = ground (arith, r.cmp_rank (p.cur.s_arr k) e, lacks_at k h)

      module _ (low : Below rank e (rflat p.before)) where
        -- In the range of the slab.
        module _ (lo : rank p.cur.s_min ≤ rank e) (hi : rank e ≤ rank p.cur.s_max) where
          pub inside : (0 < i) × (i < p.cur.s_elems)
          inside = ground (
            arith,
            w.here.used,
            w.here.min_first,
            w.here.max_last,
            split.0,
            cuts.2 0,
            split.1 (p.cur.s_elems - 1),
          )

          ira_high : Above rank e (flat p.after)
          ira_high = high_of i inside.1 (split.2 i (omega arith) inside.1)

          pub ira-Adds : Adds (gen_add_ira cb false false e p).1
          unfolding gen_add_ira
          ira-Adds = elim (Bool-cases (ltb p.cur.s_elems selem_max)) [
            | inl t ↦
                rw (differs i inside.1, t, differs' i inside.1)
                  (Puts→Adds low ira_high i _ cuts (into-Puts e i p w (ground arith) split.0))
            | inr t ↦
                rw (differs i inside.1, t)
                  (Puts→Adds low ira_high i _ cuts (
                    subst (λ k. Puts e k p (ira_spill e k p).1) (omega (arith, inside.0))
                      (ira_spill-Puts e (i - 1) p.sl_slabs p.cur (full_of t)
                        (omega (arith, inside.1, w.here.fits)) p.before p.after w)))
          ]
