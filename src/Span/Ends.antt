-- ===== src/Span/Ends.antt =====
-- What slablist_range_min and slablist_range_max report of a sorted list.
use libslablist.Prelude.{
  ℕ, ◌≤◌, ◌<◌, ◌≡◌, ◌≢◌, refl, sym, subst, ap, ◌∙◌, ◌⊎◌, inl, inr, List, [], ◌∷◌, ◌++◌, some, arith,
  length, length-append,
}
use libslablist.Callbacks.{Elem, Callbacks, Ranked, same, over, Sign-cases}
use libslablist.Slab.{Slab}
use libslablist.Sorted.{Below, Above, Ascends, Ascends-right, Above-mono}
use libslablist.Chain.{flat}
use libslablist.Slablist.{Head, small, chain, Slablist, elems}
use libslablist.Slablist.Shape.{IsSorted}
use libslablist.Span.{Bound, range_end, slablist_range_min, slablist_range_max}
use libslablist.Span.Filter.{inside, in_range-rank, inside-append, inside-Below, inside-Above}
use libslablist.Span.Nearest.{Nearest, range_nodes-Nearest, chain_end}

module _ {cb : Callbacks} (r : Ranked cb) (min max : Elem) (le : r.rank min ≤ r.rank max) where
  open r use {rank}

  -- What is reported, by the elements in the range: the first of them and FS_IN_RANGE, or anything else.
  abbrev pub Least : List Elem → Bound → Type 0
  Least [] b = b.bnd ≢ same
  Least (x ∷ _) b = (b.bnd ≡ same) × (b.ret ≡ x)

  inside_low :
      (xs : List Elem) (b : Bound)
      → Ascends rank xs
      → Nearest r min max le min xs b
      → Least (inside cb min max xs) b
  unfolding inside
  inside_low xs b asc near =
      let known = in_range-rank r min max le b.ret in
      let tail : inside cb min max xs ≡ inside cb min max (b.ret ∷ near.upper) =
        ap (inside cb min max) near.split
        ∙ inside-append r min max le near.lower (b.ret ∷ near.upper)
        ∙ ap (λ l. l ++ inside cb min max (b.ret ∷ near.upper))
            (inside-Below r min max le near.lower near.low) in
      let here : Above rank b.ret near.upper =
        (Ascends-right rank near.lower (b.ret ∷ near.upper)
          (subst (Ascends rank) near.split asc)).0 in
      subst (λ l. Least l b) (sym tail)
        (elim (Sign-cases (cb.bnd b.ret min max)) [
          | inr (inl o) ↦ rw (o, inside) (near.tells ∙ o, refl)
          | inl o ↦
              let above : Above rank max near.upper =
                Above-mono rank max b.ret near.upper (ground (arith, known, o)) here in
              rw (o, inside)
                (rw (inside-Above r min max le near.upper above) (ground (arith, near.tells, o)))
          | inr (inr o) ↦
              let none_above : near.upper ≡ [] = ground (arith, near.reach, known, o) in
              rw (o, inside) (rw (none_above, inside) (ground (arith, near.tells, o)))
        ])

  by_head :
      (sl : Slablist) (h : Head)
      → IsSorted r (record sl { sl_head = h })
      → 0 < length (elems h)
      → (b : Bound) × (slablist_range_min cb min max (record sl { sl_head = h }) ≡ some b)
        × Least (inside cb min max (elems h)) b
  unfolding slablist_range_min range_end
  by_head sl (small xs) w some_used =
      let res = range_nodes-Nearest r min max le xs some_used in
      (res.0, res.1, inside_low xs res.0 w.rises res.2)
  by_head sl (chain n ss) w some_used =
      let res = chain_end r min max le min sl n ss w in
      (res.0, res.1, inside_low (flat ss) res.0 w.rises res.2)

  -- slablist_range_min on a sorted, well-formed list that is not used for sorting and holds an
  -- element, with the lesser end first and no bookmark set: it returns. If an element is in the
  -- range it returns 0 and stores the smallest such element; otherwise it does not return 0.
  pub slablist_range_min-Least :
      (sl : Slablist)
      → IsSorted r sl
      → 0 < length (elems sl.sl_head)
      → (b : Bound) × (slablist_range_min cb min max sl ≡ some b)
        × Least (inside cb min max (elems sl.sl_head)) b
  slablist_range_min-Least sl w some_used = by_head sl sl.sl_head w some_used

  -- The element that is reported is settled by the split.
  only :
      (e : Elem) (xs ys cs bs : List Elem) (x y : Elem)
      → cs ++ (x ∷ xs) ≡ bs ++ (y ∷ ys)
      → Below rank e cs
      → Below rank e bs
      → rank e ≤ rank y
      → (rank e ≤ rank x) ⊎ ((rank x < rank e) × (xs ≡ []))
      → x ≡ y
  only e xs ys [] [] x y h a b k s = ground (arith, h)
  only e xs ys [] (c ∷ bs) x y h a b k s =
      absurd (ground (arith, h, b, s, length-append bs (y ∷ ys)))
  only e xs ys (c ∷ cs) [] x y h a b k s = ground (arith, h, a, k)
  only e xs ys (c ∷ cs) (d ∷ bs) x y h a b k s =
      only e xs ys cs bs x y (ground (arith, h)) a.1 b.1 k s

  -- slablist_range_max on a sorted, well-formed list of slabs that is not used for sorting, with
  -- the lesser end first, where an element `y` is above the range and all elements before it are
  -- below the greater end: it returns a value above 0 and stores `y`, whether or not an element is
  -- in the range.
  pub slablist_range_max_overshoots :
      (sl : Slablist) (n : ℕ) (ss : List Slab) (xs ys : List Elem) (y : Elem)
      → IsSorted r (record sl { sl_head = chain n ss })
      → flat ss ≡ xs ++ (y ∷ ys)
      → Below rank max xs
      → rank max < rank y
      → slablist_range_max cb min max (record sl { sl_head = chain n ss })
        ≡ some (record { bnd = over; ret = y })
  unfolding slablist_range_max
  slablist_range_max_overshoots sl n ss xs ys y w split low above =
      let res = chain_end r min max le max sl n ss w in
      let near = res.2 in
      let at : res.0.ret ≡ y =
        only max near.upper ys near.lower xs res.0.ret y (sym near.split ∙ split) near.low low
          (omega arith) near.reach in
      let told : res.0.bnd ≡ over =
        ground (arith, near.tells, at, in_range-rank r min max le y, above, le) in
      res.1 ∙ ap some (ground (arith, told, at))
