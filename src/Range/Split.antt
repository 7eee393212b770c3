-- ===== src/Range/Split.antt =====
-- Two slabs of a sorted chain where the searches for the ends of a range stop, and the elements
-- between them.
use libslablist.Prelude.{
  false, ℕ, suc, ◌-◌, ◌^◌, length, ◌≤◌, ◌<◌, ◌≡◌, refl, sym, subst, ap, ◌∙◌, inl, inr, List, [],
  ◌∷◌, ◌++◌, append_assoc, All, All-append, All-append_left, All-append_right, All-both, All-map,
  arith,
}
use libslablist.Callbacks.{Elem, Sign, Callbacks, Ranked, over, Sign-cases}
use libslablist.Slab.{Slab, live}
use libslablist.Slab.Edit.{IsValid}
use libslablist.Sorted.{
  Below, Above, Ascends, Ascends-left, Ascends-right, Ascends-between, Above-mono,
}
use libslablist.Sorted.Cells.{All-at}
use libslablist.Chain.{Place, at, flat, rflat, contents, IsWhole}
use libslablist.Scan.{status, find_linear_scan}
use libslablist.Slablist.Shape.{length-flat}
use libslablist.Scan.Found.{
  min-le-max, over-Below, status-bounds, IsFound, find_linear_scan-IsFound,
}
use libslablist.Range.Between.{Reaches, Meet, Ranges, Over, find_linear_scan-Meet}

pub flat-append : (xs ys : List Slab) → flat (xs ++ ys) ≡ flat xs ++ flat ys
flat-append [] ys = refl
flat-append (x ∷ xs) ys =
    ap (λ t. live x ++ t) (flat-append xs ys) ∙ sym (append_assoc (live x) (flat xs) (flat ys))

module _ {cb : Callbacks} (r : Ranked cb) (min max : Elem) (le : r.rank min ≤ r.rank max) where
  open r use {rank}

  -- What is behind a slab that the element is not over is greater.
  pub behind-Above :
      (e : Elem) (s : Slab) (rest : List Elem)
      → IsValid s
      → Ascends rank (live s ++ rest)
      → (status cb e s ≡ over → rest ≡ [])
      → Above rank e rest
  behind-Above e s rest v asc last =
      let own = Ascends-left rank (live s) rest asc in
      let known = status-bounds r e s v own in
      let top : Above rank s.s_max rest = rw (v.max_last) (
        All-at (λ x. Above rank x rest) s.s_arr 0 s.s_elems (s.s_elems - 1)
          (Ascends-between rank (live s) rest asc) (omega arith) (omega (arith, v.used))) in
      elim (Sign-cases (status cb e s)) [
        | inl o ↦ rw (last o) tt
        | inr (inl o) ↦ Above-mono rank e s.s_max rest (ground (arith, known)) top
        | inr (inr o) ↦
            Above-mono rank e s.s_max rest (ground (arith, known, min-le-max r e s v own)) top
      ]

  pub All-Ranges :
      (ss : List Slab) → All IsValid ss → Ascends rank (flat ss) → All (Ranges r min max le) ss
  All-Ranges [] v asc = tt
  All-Ranges (s ∷ ss) v asc = (
    min-le-max r min s v.0 (Ascends-left rank (live s) (flat ss) asc),
    All-Ranges ss v.1 (Ascends-right rank (live s) (flat ss) asc),
  )

  passed-Below :
      (ss : List Slab)
      → All IsValid ss
      → Ascends rank (flat ss)
      → All (Over r min max le) ss
      → Below rank max (flat ss)
  passed-Below [] v asc h = tt
  passed-Below (s ∷ ss) v asc h =
      All-append (λ x. rank x < rank max) (live s) (flat ss)
        (over-Below r max s v.0 (Ascends-left rank (live s) (flat ss) asc) h.0)
        (passed-Below ss v.1 (Ascends-right rank (live s) (flat ss) asc) h.1)

  pub cur_asc : (p : Place) → Ascends rank (contents p) → Ascends rank (live p.cur)
  cur_asc p asc =
      Ascends-left rank (live p.cur) (flat p.after)
        (Ascends-right rank (rflat p.before) (live p.cur ++ flat p.after) asc)

  -- The elements behind the first slab: those between the two are in the range, those of the second are
  -- above its lesser end.
  pub record Apart (p q : Place) (x : Reaches p q (Over r min max le)) : Type 0 where
    pub after_p : flat p.after ≡ flat x.mid ++ (live q.cur ++ flat q.after)
    pub stop_valid : All IsValid (q.cur ∷ q.after)
    pub stop_asc : Ascends rank (live q.cur)
    pub mid_within : All (λ y. (rank min ≤ rank y) × (rank y ≤ rank max)) (flat x.mid)
    pub stop_from : Above rank min (live q.cur)

  pub reaches-Apart :
      (p q : Place) (x : Reaches p q (Over r min max le))
      → All IsValid p.after
      → Ascends rank (contents p)
      → Above rank min (flat p.after)
      → Apart p q x
  reaches-Apart p q x right asc rising =
      let rest = live q.cur ++ flat q.after in
      let after_p : flat p.after ≡ flat x.mid ++ rest =
        ap flat x.split ∙ flat-append x.mid (q.cur ∷ q.after) in
      let tail_asc : Ascends rank (flat x.mid ++ rest) = subst (Ascends rank) after_p (
        Ascends-right rank (live p.cur) (flat p.after)
          (Ascends-right rank (rflat p.before) (live p.cur ++ flat p.after) asc)) in
      let right' : All IsValid (x.mid ++ (q.cur ∷ q.after)) = subst (All IsValid) x.split right in
      let rising' : Above rank min (flat x.mid ++ rest) = subst (Above rank min) after_p rising in
      let mid_valid = All-append_left IsValid x.mid (q.cur ∷ q.after) right' in
      record {
        after_p = after_p;
        stop_valid = All-append_right IsValid x.mid (q.cur ∷ q.after) right';
        stop_asc =
            Ascends-left rank (live q.cur) (flat q.after)
              (Ascends-right rank (flat x.mid) rest tail_asc);
        mid_within =
            All-map (λ y. (rank min < rank y) × (rank y < rank max))
              (λ y h. (omega arith, omega arith)) (flat x.mid)
              (All-both (λ y. rank min < rank y) (λ y. rank y < rank max) (flat x.mid)
                (All-append_left (λ y. rank min < rank y) (flat x.mid) rest rising')
                (passed-Below x.mid mid_valid (Ascends-left rank (flat x.mid) rest tail_asc)
                  x.passed));
        stop_from =
            All-append_left (λ y. rank min < rank y) (live q.cur) (flat q.after)
              (All-append_right (λ y. rank min < rank y) (flat x.mid) rest rising');
      }

  -- What follows the slab found is greater.
  found-Above :
      (e : Elem) (o : Place) (res : Sign × Place)
      → IsFound r e o res
      → Ascends rank (contents o)
      → Above rank e (flat res.1.after)
  found-Above e o res f asc =
      let here = subst (Ascends rank) (sym f.kept) asc in
      behind-Above e res.1.cur (flat res.1.after) f.whole.here
        (Ascends-right rank (rflat res.1.before) (live res.1.cur ++ flat res.1.after) here)
        (λ h. f.last (f.stat ∙ h))

  -- What the searches for the two ends of the range find.
  pub record BothEnds (xs : List Elem) (p q : Place) : Type 0 where
    pub whole : IsWhole p
    pub kept : contents p ≡ xs
    pub low : Below rank min (rflat p.before)
    pub rising : Above rank min (flat p.after)
    pub high : Above rank max (flat q.after)
    pub last : status cb min p.cur ≡ over → flat p.after ≡ []
    pub meet : Meet p q (Over r min max le)

  -- From the head of a counted, valid and sorted chain.
  pub find_both :
      (n : ℕ) (s : Slab) (ss : List Slab)
      → n ≡ suc (length ss)
      → All IsValid (s ∷ ss)
      → length (flat (s ∷ ss)) < 2 ^ 64
      → Ascends rank (flat (s ∷ ss))
      → BothEnds
          (flat (s ∷ ss))
          (find_linear_scan cb min false (at n [] s ss)).1
          (find_linear_scan cb max false (at n [] s ss)).1
  find_both n s ss count v bound asc =
      let o = at n [] s ss in
      let whole : IsWhole o = record {
        left = tt;
        here = v.0;
        right = v.1;
        counted = omega (arith, count, bound, length-flat (s ∷ ss) v);
      } in
      let f = find_linear_scan-IsFound r min o refl count whole asc in
      let g = find_linear_scan-IsFound r max o refl count whole asc in
      record {
        whole = f.whole;
        kept = f.kept;
        low = f.low;
        rising = found-Above min o (find_linear_scan cb min false o) f asc;
        high = found-Above max o (find_linear_scan cb max false o) g asc;
        last = λ h. f.last (f.stat ∙ h);
        meet = find_linear_scan-Meet r min max le n s ss count (All-Ranges (s ∷ ss) v asc);
      }
