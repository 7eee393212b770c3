-- ===== src/Span/Nearest.antt =====
-- The search for one end of a range: it reports the first element that is not below the end, or the
-- last one.
use libslablist.Prelude.{
  ℕ, suc, ◌+◌, ◌-◌, ◌≤◌, ◌<◌, ◌≡◌, refl, sym, subst, ap, ◌∙◌, ◌⊎◌, inl, inr, List, [], ◌∷◌, ◌++◌,
  some, false, if◌then◌else◌, leb, arith, length, All-append, slice, dec_lt,
}
use libslablist.Callbacks.{Elem, Callbacks, Ranked, same, over, Sign-cases}
use libslablist.Slab.{Slab, live}
use libslablist.Slab.Edit.{IsValid}
use libslablist.Search.{slab_bin_srch}
use libslablist.Search.Order.{Splits}
use libslablist.Search.Place.{slab_bin_srch-Splits}
use libslablist.Sorted.{Below, Ascends}
use libslablist.Sorted.Cells.{All-slice, Ascends→Rises}
use libslablist.Chain.{Place, at, flat, rflat, contents}
use libslablist.Chain.Contents.{ahead, behind, cut_at}
use libslablist.Scan.{status, find_linear_scan}
use libslablist.Scan.Found.{min-le-max, status-bounds}
use libslablist.Slablist.{chain, Slablist}
use libslablist.Slablist.Shape.{IsSorted, found_at}
use libslablist.Range.Split.{cur_asc}
use libslablist.Span.{Bound, range_nodes, range_at, range_end}
use libslablist.Span.Filter.{in_range-rank}

module _ {cb : Callbacks} (r : Ranked cb) (min max : Elem) (le : r.rank min ≤ r.rank max) where
  open r use {rank}

  -- What is reported is an element of the list: the first that is not below `e`, or the last one.
  pub record Nearest (e : Elem) (xs : List Elem) (b : Bound) : Type 0 where
    pub lower : List Elem
    pub upper : List Elem
    pub split : xs ≡ lower ++ (b.ret ∷ upper)
    pub low : Below rank e lower
    pub reach : (rank e ≤ rank b.ret) ⊎ ((rank b.ret < rank e) × (upper ≡ []))
    pub tells : b.bnd ≡ cb.bnd b.ret min max

  module _ (e : Elem) (p : Place) (valid : IsValid p.cur) (asc : Ascends rank (contents p))
      (before : Below rank e (rflat p.before))
      (last : status cb e p.cur ≡ over → flat p.after ≡ []) where
    open p.cur use {s_arr as f, s_elems as n}

    abbrev i : ℕ
    i = slab_bin_srch cb e false p.cur

    abbrev i' : ℕ
    i' = if leb n i then n - 1 else i

    own : Ascends rank (live p.cur)
    own = cur_asc r min max le p asc

    at_i : Splits rank e f n i
    at_i = slab_bin_srch-Splits r e p.cur (Ascends→Rises rank f n own) valid.used

    used : i' < n
    used = ground (arith, valid.used)

    reached : (rank e ≤ rank (f i')) ⊎ ((rank (f i') < rank e) × (behind p i' ≡ []))
    reached = elim (dec_lt i n) [
      | yes l ↦
          let here : i' ≡ i = ground (arith, l) in
          inl (subst (λ k. rank e ≤ rank (f k)) (sym here) (at_i.2 i (omega arith) l))
      | no l ↦
          let here : i' ≡ n - 1 = ground (arith, l) in
          let less : rank (f (n - 1)) < rank e =
            at_i.1 (n - 1) (omega (arith, l, at_i.0, valid.used)) in
          let passed : status cb e p.cur ≡ over = ground (
            arith,
            status-bounds r e p.cur valid own,
            min-le-max r e p.cur valid own,
            valid.max_last,
            less,
          ) in
          let none_here : n - (n - 1 + 1) ≡ 0 = omega arith in
          inr (
            subst (λ k. (rank (f k) < rank e) × (behind p k ≡ [])) (sym here)
              (less, ap (λ m. slice f (suc (n - 1)) m ++ flat p.after) none_here ∙ last passed))
    ]

    range_at-Nearest : Nearest e (contents p) (range_at cb min max e false p.cur)
    unfolding range_at
    range_at-Nearest = record {
      lower = ahead p i';
      upper = behind p i';
      split = cut_at p i' used;
      low =
          All-append (λ x. rank x < rank e) (rflat p.before) (slice f 0 i') before
            (All-slice (λ x. rank x < rank e) f 0 i'
              (λ k _ q. at_i.1 k (ground (arith, q, at_i.0))));
      reach = reached;
      tells = refl;
    }

  -- The first node, or the only one.
  front :
      (x : Elem) (xs : List Elem) (b : Bound)
      → b.ret ≡ x
      → b.bnd ≡ cb.bnd x min max
      → (rank min ≤ rank x) ⊎ ((rank x < rank min) × (xs ≡ []))
      → Nearest min (x ∷ xs) b
  front x xs b e t h = record {
    lower = [];
    upper = xs;
    split = ap (λ y. y ∷ xs) (sym e);
    low = tt;
    reach = subst (λ y. (rank min ≤ rank y) ⊎ ((rank y < rank min) × (xs ≡ []))) (sym e) h;
    tells = t ∙ ap (λ y. cb.bnd y min max) (sym e);
  }

  pub range_nodes-Nearest :
      (xs : List Elem)
      → 0 < length xs
      → (b : Bound) × (range_nodes cb min max xs ≡ some b) × Nearest min xs b
  unfolding range_nodes
  range_nodes-Nearest [] h = absurd (omega arith)
  range_nodes-Nearest (x ∷ []) h =
      let b : Bound = record { bnd = cb.bnd x min max; ret = x } in
      elim (dec_lt (rank x) (rank min)) [
        | yes l ↦ (b, refl, front x [] b refl refl (inr (l, refl)))
        | no l ↦ (b, refl, front x [] b refl refl (inl (omega arith)))
      ]
  range_nodes-Nearest (x ∷ (y ∷ ys)) h =
      let rest = range_nodes-Nearest (y ∷ ys) (omega arith) in
      let known = in_range-rank r min max le x in
      elim (Sign-cases (cb.bnd x min max)) [
        | inl o ↦
            let b : Bound = record { bnd = over; ret = x } in
            (
              b,
              rw (o, range_nodes) refl,
              front x (y ∷ ys) b refl (sym o) (inl (ground (arith, known, o))),
            )
        | inr (inl o) ↦
            let b : Bound = record { bnd = same; ret = x } in
            (
              b,
              rw (o, range_nodes) refl,
              front x (y ∷ ys) b refl (sym o) (inl (ground (arith, known, o))),
            )
        | inr (inr o) ↦
            let below : rank x < rank min = ground (arith, known, o) in
            (
              rest.0,
              rw (o, range_nodes) rest.1,
              record {
                lower = x ∷ rest.2.lower;
                upper = rest.2.upper;
                split = ap (λ l. x ∷ l) rest.2.split;
                low = (below, rest.2.low);
                reach = rest.2.reach;
                tells = rest.2.tells;
              },
            )
      ]

  -- The search for one end `e` in a list of slabs.
  pub chain_end :
      (e : Elem) (sl : Slablist) (n : ℕ) (ss : List Slab)
      → IsSorted r (record sl { sl_head = chain n ss })
      → (b : Bound) × (range_end cb min max e (record sl { sl_head = chain n ss }) ≡ some b)
        × Nearest e (flat ss) b
  unfolding range_end
  chain_end e sl n [] w = absurd (omega (arith, w.list.shape))
  chain_end e sl n (s ∷ ss) w =
      let found = (find_linear_scan cb e false (at n [] s ss)) in
      let f = found_at r e n sl.sl_elems s ss w.list.shape w.rises w.list.counted w.list.bounded in
      let b = range_at cb min max e false found.1.cur in
      (
        b,
        ap (λ k. some (range_at cb min max e k (find_linear_scan cb e k (at n [] s ss)).1.cur))
            w.no_temp,
        subst (λ xs. Nearest e xs b) f.kept
            (range_at-Nearest e found.1 f.whole.here (subst (Ascends rank) (sym f.kept) w.rises)
              f.low (λ h. f.last (f.stat ∙ h))),
      )
