-- ===== src/Insert/Edges.antt =====
-- Adding under or over the range of the slab that was found, and the whole of `slab_gen_add`.
use libslablist.Prelude.{
  ℕ, ◌-◌, ◌<◌, ◌≡◌, refl, sym, subst, inl, inr, List, [], ◌∷◌, ◌++◌, All-append_left,
  All-append_right, dec_lt, true, false, arith, ltb, Bool-cases,
}
use libslablist.Callbacks.{Elem, Callbacks, Ranked}
use libslablist.Slab.{Slab, live, selem_max}
use libslablist.Search.{slab_bin_srch}
use libslablist.Search.Place.{slab_bin_srch-Splits}
use libslablist.Sorted.{Below, Above, Lacks, Ascends, Ascends-left, Ascends-right}
use libslablist.Sorted.Cells.{All-at, Ascends→Rises}
use libslablist.Chain.{Place, at, flat, rflat, contents, IsWhole, has_room}
use libslablist.Insert.{
  add_before, add_after, srch_in, ura_rest, ora_rest, gen_add_ura, gen_add_ora,
}
use libslablist.Insert.Branches.{Puts, into-Puts, before-Puts, after-Puts}
use libslablist.Insert.Spills.{under_rest, over_rest}
use libslablist.Insert.Sort.{Cuts, Adds, Puts→Adds, cuts, high_of, full_of}

module _ {cb : Callbacks} (r : Ranked cb) (e : Elem) where
  open r use {rank}

  -- In a slab that lies wholly below, the place is its end; in one wholly above, its start.
  srch_end :
      (s : Slab)
      → 0 < s.s_elems
      → Ascends rank (live s)
      → Below rank e (live s)
      → slab_bin_srch cb e false s ≡ s.s_elems
  srch_end s used asc low =
      let at_place = slab_bin_srch-Splits r e s (Ascends→Rises rank s.s_arr s.s_elems asc) used in
      let j = slab_bin_srch cb e false s in
      elim (dec_lt j s.s_elems) [
        | yes h ↦ absurd (
            omega (
              arith,
              at_place.2 j (omega arith) h,
              All-at (λ x. rank x < rank e) s.s_arr 0 s.s_elems j low (omega arith) (omega arith),
            ))
        | no h ↦ omega (arith, at_place.0)
      ]

  srch_start :
      (s : Slab)
      → 0 < s.s_elems
      → Ascends rank (live s)
      → Above rank e (live s)
      → slab_bin_srch cb e false s ≡ 0
  srch_start s used asc high =
      let at_place = slab_bin_srch-Splits r e s (Ascends→Rises rank s.s_arr s.s_elems asc) used in
      elim (dec_lt 0 (slab_bin_srch cb e false s)) [
        | yes h ↦ absurd (
            omega (
              arith,
              at_place.1 0 h,
              All-at (λ x. rank e < rank x) s.s_arr 0 s.s_elems 0 high (omega arith) (omega arith),
            ))
        | no h ↦ omega arith
      ]

  -- The neighbour before has room, or not.
  under_before :
      (n : ℕ) (s : Slab) (full : s.s_elems ≡ selem_max) (b a : List Slab) (w : IsWhole (at n b s a))
      → Ascends rank (rflat b)
      → Below rank e (rflat b)
      → has_room b ≡ true
      → Puts e 0 (at n b s a) (add_before e (srch_in cb false e b) (at n b s a))
  unfolding srch_in
  under_before n s full [] a w asc low t = cc
  under_before n s full (spv ∷ b) a w asc low t =
      before-Puts e (at n (spv ∷ b) s a) w spv b n (ground arith) (inr w.left.0) w.left.1 w.counted
        refl (slab_bin_srch cb e false spv)
        (srch_end spv w.left.0.used (Ascends-right rank (rflat b) (live spv) asc)
          (All-append_right (λ x. rank x < rank e) (rflat b) (live spv) low))

  over_after :
      (n : ℕ) (s : Slab) (b a : List Slab) (w : IsWhole (at n b s a))
      → Ascends rank (flat a)
      → Above rank e (flat a)
      → has_room a ≡ true
      → Puts e s.s_elems (at n b s a) (add_after e (srch_in cb false e a) (at n b s a))
  unfolding srch_in
  over_after n s b [] w asc high t = cc
  over_after n s b (snx ∷ a) w asc high t =
      rw
        (srch_start snx w.right.0.used (Ascends-left rank (live snx) (flat a) asc)
          (All-append_left (λ x. rank e < rank x) (live snx) (flat a) high))
        (after-Puts e (at n b s (snx ∷ a)) w snx a n (ground arith) (inr w.right.0) w.right.1
          w.counted refl)

  module _ (p : Place) (w : IsWhole p) (asc : Ascends rank (contents p))
      (lacks : Lacks rank e (contents p)) (low : Below rank e (rflat p.before)) where
    at_place : Cuts r e p w (slab_bin_srch cb e false p.cur)
    at_place = cuts r e p w asc lacks

    full_at : ltb p.cur.s_elems selem_max ≡ false → p.cur.s_elems ≡ selem_max
    full_at = full_of r e p w asc

    -- Under the range of the slab.
    module _ (lo : rank e < rank p.cur.s_min) where
      start : slab_bin_srch cb e false p.cur ≡ 0
      start = ground (arith, w.here.min_first, w.here.used, at_place.1 0)

      under_high : Above rank e (flat p.after)
      under_high = high_of r e p w asc 0 w.here.used (ground (arith, w.here.min_first))

      pub ura-Adds : Adds r e p w (gen_add_ura cb false e p).1
      unfolding gen_add_ura
      ura-Adds = elim (Bool-cases (ltb p.cur.s_elems selem_max)) [
        | inl t ↦ rw t (
            Puts→Adds r e p w low under_high (slab_bin_srch cb e false p.cur) _ at_place
              (into-Puts e (slab_bin_srch cb e false p.cur) p w (ground arith) at_place.0))
        | inr t ↦ elim (Bool-cases (has_room p.before)) [
          | inl u ↦
              rw (t, u)
                (Puts→Adds r e p w low under_high 0 _ (subst (Cuts r e p w) start at_place) (
                  under_before p.sl_slabs p.cur (full_at t) p.before p.after w
                    (Ascends-left rank (rflat p.before) (live p.cur ++ flat p.after) asc) low u))
          | inr u ↦
              rw (t, u)
                (Puts→Adds r e p w low under_high 0 _ (subst (Cuts r e p w) start at_place) (
                  subst (λ k. Puts e 0 p (ura_rest e k p).1) (sym start)
                    (under_rest e p.sl_slabs p.cur (full_at t) p.before p.after w)))
        ]
      ]

    -- Over the range of the slab, and under what follows.
    module _ (hi : rank p.cur.s_max < rank e) (high : Above rank e (flat p.after)) where
      stop : slab_bin_srch cb e false p.cur ≡ p.cur.s_elems
      stop =
          let last_cell = at_place.2 (p.cur.s_elems - 1) in
          ground (arith, w.here.max_last, w.here.used, at_place.0, last_cell)

      pub ora-Adds : Adds r e p w (gen_add_ora cb false e p).1
      unfolding gen_add_ora
      ora-Adds = elim (Bool-cases (ltb p.cur.s_elems selem_max)) [
        | inl t ↦ rw t (
            Puts→Adds r e p w low high (slab_bin_srch cb e false p.cur) _ at_place
              (into-Puts e (slab_bin_srch cb e false p.cur) p w (ground arith) at_place.0))
        | inr t ↦ elim (Bool-cases (has_room p.after)) [
          | inl u ↦
              rw (t, u)
                (Puts→Adds r e p w low high p.cur.s_elems _ (subst (Cuts r e p w) stop at_place) (
                  over_after p.sl_slabs p.cur p.before p.after w
                    (Ascends-right rank (live p.cur) (flat p.after)
                      (Ascends-right rank (rflat p.before) (live p.cur ++ flat p.after) asc))
                    high u))
          | inr u ↦
              rw (t, u)
                (Puts→Adds r e p w low high p.cur.s_elems _ (subst (Cuts r e p w) stop at_place) (
                  subst (λ k. Puts e p.cur.s_elems p (ora_rest e k p).1) (sym stop)
                    (over_rest e p.sl_slabs p.cur (full_at t) p.before p.after w)))
        ]
      ]
