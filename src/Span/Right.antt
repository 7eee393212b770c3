-- ===== src/Span/Right.antt =====
-- slablist_foldr_range on a sorted list.
use libslablist.Prelude.{
  ℕ, ◌-◌, ◌≤◌, ◌<◌, ◌≡◌, sym, subst, ap, ap₂, ◌∙◌, inl, inr, List, [], ◌∷◌, ◌++◌, append-nil, some,
  false, true, leb, ◌==◌, arith, length, All, Bool-cases, length-append, length-slice,
}
use libslablist.Callbacks.{Elem, Callbacks, Ranked, over, Sign-cases}
use libslablist.Slab.{Slab, live}
use libslablist.Slab.Edit.{IsValid}
use libslablist.Sorted.{Below, Above, Ascends}
use libslablist.Sorted.Cells.{All-at}
use libslablist.Chain.{Place, at, flat, rflat, contents}
use libslablist.Scan.{status, find_linear_scan}
use libslablist.Scan.Found.{min-le-max, status-bounds}
use libslablist.Slablist.{Head, small, chain, Slablist, elems}
use libslablist.Slablist.Shape.{IsSorted}
use libslablist.Walk.Whole.{FoldsRight, none_left}
use libslablist.Range.Between.{Reaches, Over}
use libslablist.Range.Split.{cur_asc, Apart, reaches-Apart, BothEnds, find_both}
use libslablist.Span.{fold_range_nodes, fold_gap, foldr_across, foldr_between, slablist_foldr_range}
use libslablist.Span.Filter.{
  inside, copy_nodes_all, inside-append, inside-Below, inside-Above, inside-Within,
  from_range-inside,
}
use libslablist.Span.Cells.{foldr_within-inside, foldr_last-inside, first_part}

module _ {cb : Callbacks} (r : Ranked cb) (min max : Elem) (le : r.rank min ≤ r.rank max)
    (f : Elem → List Elem → Elem) (law : FoldsRight f) (z : Elem) where
  open r use {rank}

  abbrev range : List Elem → List Elem
  range = inside cb min max

  fold_gap-flat :
      (mid : List Slab) (a : Elem) (t : Slab) (ss : List Slab)
      → fold_gap cb min max f (length mid) a (mid ++ (t ∷ ss)) ≡ some (f a (flat mid), t)
  unfolding fold_gap
  fold_gap-flat [] a t ss = ap (λ b. some (b, t)) (sym (law.start a))
  fold_gap-flat (s ∷ mid) a t ss =
      fold_gap-flat mid (f a (live s)) t ss
      ∙ ap (λ b. some (b, t)) (sym (law.then a (live s) (flat mid)))

  module _ (p : Place) (valid : IsValid p.cur) (asc : Ascends rank (contents p))
      (low : Below rank min (rflat p.before)) where
    own : Ascends rank (live p.cur)
    own = cur_asc r min max le p asc

    -- What is before the slab is not in the range.
    range_from : range (contents p) ≡ range (live p.cur) ++ range (flat p.after)
    range_from =
        inside-append r min max le (rflat p.before) (live p.cur ++ flat p.after)
        ∙ ap₂ ◌++◌ (inside-Below r min max le (rflat p.before) low)
            (inside-append r min max le (live p.cur) (flat p.after))

    in_one :
        Above rank max (flat p.after)
        → foldr_between cb min max f false z p p ≡ some (f z (range (contents p)))
    unfolding foldr_between
    in_one high =
        let same_index : (length p.before == length p.before) ≡ true = ground arith in
        rw same_index (
          ap some (
            foldr_within-inside r min max le p.cur valid own f z (law.start z)
            ∙ ap (f z) (
                sym (
                  range_from
                  ∙ ap (λ l. range (live p.cur) ++ l)
                      (inside-Above r min max le (flat p.after) high)
                  ∙ append-nil (range (live p.cur))))))

    module _ (q : Place) (right : All IsValid p.after) (rising : Above rank min (flat p.after))
        (high : Above rank max (flat q.after))
        (last : status cb min p.cur ≡ over → flat p.after ≡ [])
        (x : Reaches p q (Over r min max le)) where
      apart : Apart r min max le p q x
      apart = reaches-Apart r min max le p q x right asc rising

      -- Something follows the first slab, so it was not passed for want of another.
      reached : rank min ≤ rank p.cur.s_max
      reached =
          let more : 0 < length (flat p.after) = omega (
            arith,
            ap length apart.after_p,
            length-append (flat x.mid) (live q.cur ++ flat q.after),
            length-append (live q.cur) (flat q.after),
            length-slice q.cur.s_arr 0 q.cur.s_elems,
            apart.stop_valid.0.used,
          ) in
          let known = status-bounds r min p.cur valid own in
          elim (Sign-cases (status cb min p.cur)) [
            | inl o ↦ absurd (omega (arith, more, ap length (last o)))
            | inr (inl o) ↦ ground (arith, known, o)
            | inr (inr o) ↦ ground (arith, known, o, min-le-max r min p.cur valid own)
          ]

      parts : range (contents p) ≡ range (live p.cur) ++ (flat x.mid ++ range (live q.cur))
      parts =
          range_from
          ∙ ap (λ l. range (live p.cur) ++ l)
              (ap range apart.after_p
                ∙ inside-append r min max le (flat x.mid) (live q.cur ++ flat q.after)
                ∙ ap₂ ◌++◌ (inside-Within r min max le (flat x.mid) apart.mid_within) (
                    inside-append r min max le (live q.cur) (flat q.after)
                    ∙ ap (λ l. range (live q.cur) ++ l)
                        (inside-Above r min max le (flat q.after) high)
                    ∙ append-nil (range (live q.cur))))

      in_two : foldr_between cb min max f false z p q ≡ some (f z (range (contents p)))
      unfolding foldr_between foldr_across
      in_two =
          let gap : length q.before - length p.before - 1 ≡ length x.mid = omega (arith, x.ahead) in
          let other : (length p.before == length q.before) ≡ false = ground (arith, x.ahead) in
          let ahead : leb (length p.before) (length q.before) ≡ true = ground (arith, x.ahead) in
          let start = first_part r min max le p.cur valid own reached x.start in
          let a = f z (range (live p.cur)) in
          let walk : fold_gap cb min max f (length x.mid) a p.after
              ≡ some (f a (flat x.mid), q.cur) =
            ap (fold_gap cb min max f (length x.mid) a) x.split
            ∙ fold_gap-flat x.mid a q.cur q.after in
          let above : (k : ℕ) → k < q.cur.s_elems → rank min < rank (q.cur.s_arr k) = λ k h.
            All-at (λ y. rank min < rank y) q.cur.s_arr 0 q.cur.s_elems k apart.stop_from
              (omega arith) (omega arith) in
          let ends =
            foldr_last-inside r min max le q.cur apart.stop_valid.0 apart.stop_asc f
              (f a (flat x.mid)) (law.start (f a (flat x.mid))) above in
          rw (other, ahead, gap)
            (rw (start.0, start.1)
              (rw walk (
                ap some (
                  ends
                  ∙ sym (law.then a (flat x.mid) (range (live q.cur)))
                  ∙ sym (law.then z (range (live p.cur)) (flat x.mid ++ range (live q.cur)))
                  ∙ ap (f z) (sym parts)))))

  by_meet :
      (p q : Place) (xs : List Elem)
      → BothEnds r min max le xs p q
      → Ascends rank xs
      → foldr_between cb min max f false z p q ≡ some (f z (range xs))
  by_meet p q xs b asc =
      let asc' = subst (Ascends rank) (sym b.kept) asc in
      elim b.meet [
        | inl e ↦
            let high = subst (λ y. Above rank max (flat y.after)) (sym e) b.high in
            subst (λ y. foldr_between cb min max f false z p y ≡ some (f z (range xs))) e
              (in_one p b.whole.here asc' b.low high ∙ ap (λ l. some (f z (range l))) b.kept)
        | inr x ↦
            in_two p b.whole.here asc' b.low q b.whole.right b.rising b.high b.last x
            ∙ ap (λ l. some (f z (range l))) b.kept
      ]

  from_head :
      (sl : Slablist) (h : Head)
      → IsSorted r (record sl { sl_head = h })
      → slablist_foldr_range cb f min max z (record sl { sl_head = h })
        ≡ some (f z (range (elems h)))
  unfolding slablist_foldr_range fold_range_nodes
  from_head sl h w = elim (Bool-cases (sl.sl_elems == 0)) [
    | inl t ↦
        let gone : elems h ≡ [] = none_left (elems h) (ground (arith, t, w.list.counted)) in
        let empty : range (elems h) ≡ [] = ap range gone ∙ inside-Below r min max le [] tt in
        rw t (ap some (sym (ap (f z) empty ∙ law.start z)))
    | inr t ↦ full h w t
  ]
    where
      full :
          (h : Head)
          → IsSorted r (record sl { sl_head = h })
          → (sl.sl_elems == 0) ≡ false
          → slablist_foldr_range cb f min max z (record sl { sl_head = h })
            ≡ some (f z (range (elems h)))
      full (small []) w t = absurd (ground (arith, t, w.list.counted))
      full (small (x ∷ xs)) w t = rw t (
          rw (copy_nodes_all sl.sl_elems (x ∷ xs) w.list.counted, fold_range_nodes)
            (from_range-inside r min max le f z (x ∷ xs) (law.start z) w.rises))
      full (chain n []) w t = absurd (omega (arith, w.list.shape))
      full (chain n (s ∷ ss)) w t = rw t (
          subst
            (λ b.
              foldr_between cb min max f b z (find_linear_scan cb min b (at n [] s ss)).1
                (find_linear_scan cb max b (at n [] s ss)).1
              ≡ some (f z (range (flat (s ∷ ss)))))
            (sym w.no_temp)
            (by_meet (find_linear_scan cb min false (at n [] s ss)).1
              (find_linear_scan cb max false (at n [] s ss)).1 (flat (s ∷ ss))
              (find_both r min max le n s ss w.list.shape.0 w.list.shape.2
                (omega (arith, w.list.counted, w.list.bounded)) w.rises)
              w.rises))

  -- slablist_foldr_range on a sorted, well-formed list that is not used for sorting, with the
  -- lesser end first and for a callback that folds an array from its start, returns, and its
  -- result is the fold of the elements in the range, in order, whether the list is small or of
  -- slabs.
  pub slablist_foldr_range-inside :
      (sl : Slablist)
      → IsSorted r sl
      → slablist_foldr_range cb f min max z sl ≡ some (f z (inside cb min max (elems sl.sl_head)))
  slablist_foldr_range-inside sl w = from_head sl sl.sl_head w
