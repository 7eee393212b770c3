-- ===== src/Slablist/Rem/Effect.antt =====
-- What a removal by key takes out of a sorted list.
use libslablist.Prelude.{
  ℕ, ◌≤◌, ◌<◌, ◌^◌, ◌≡◌, refl, sym, subst, ap, ◌∙◌, inl, inr, List, [], ◌∷◌, ◌++◌, All-append, Bool,
  true, false, Option, none, some, append-nil, arith, length, slice, ◌==◌, sub64, Bool-cases,
}
use libslablist.Callbacks.{Elem, Callbacks, Ranked}
use libslablist.Slab.{Slab, live}
use libslablist.Search.{slab_bin_srch}
use libslablist.Sorted.{find, delete, Ascends}
use libslablist.Sorted.Cells.{All-slice}
use libslablist.Sorted.Delete.{delete-append, delete-Ascends, length-delete}
use libslablist.Chain.{Place, at, flat, rflat, contents}
use libslablist.Chain.Contents.{ahead, behind, cut_at}
use libslablist.Scan.{find_linear_scan}
use libslablist.Insert.{is_same}
use libslablist.Insert.Sort.{split}
use libslablist.Insert.Total.{Stops, find-at}
use libslablist.Small.{Small, success, smelem_max, small_list_rem, slab_to_small_list}
use libslablist.Small.Takes.{Removes, small_list_rem-Removes}
use libslablist.Small.Convert.{slab_to_small_list-live}
use libslablist.Slablist.{
  Head, small, chain, Slablist, elems, slist_sorted, slist_is_circular, slist_is_sorting_temp,
}
use libslablist.Slablist.Shape.{IsSorted, OneSlab, found_at, stops_at}
use libslablist.Slablist.Rem.{Removed, take_key, slab_list_rem, node_rem, slablist_rem_impl}
use libslablist.Slablist.Rem.Cut.{IsOpen, whole-IsOpen, taken, take_at-taken, holds, taken-IsList}

-- Before the conversion to a small list no more than one slab is left.
abbrev pub Lone : Slablist → Type 0
Lone sl = sl.sl_elems ≡ smelem_max → OneSlab sl.sl_head

-- A removal that succeeds and leaves the elements `xs`.
pub record Leaves (P : Slablist → Type 0) (xs : List Elem) (res : Option Removed) : Type 0 where
  pub out : Removed
  pub is : res ≡ some out
  pub says : out.ret ≡ success
  pub holds : elems out.list.sl_head ≡ xs
  pub sound : P out.list

module _ {cb : Callbacks} (r : Ranked cb) (enough : ℕ → ℕ → ℕ → Bool) (e x : Elem) where
  open r use {rank}

  module _ (sl : Slablist) (p : Place) (s : Stops r e p) (old : find cb e (contents p) ≡ some x)
      (sorted : slist_sorted sl.sl_flags ≡ true)
      (no_temp : slist_is_sorting_temp sl.sl_flags ≡ false)
      (counted : sl.sl_elems ≡ length (contents p)) (many : smelem_max < sl.sl_elems)
      (bounded : sl.sl_elems < 2 ^ 64) where
    abbrev i : ℕ
    i = slab_bin_srch cb e false p.cur

    there : (i < p.cur.s_elems) × (is_same (cb.cmp e (p.cur.s_arr i)) ≡ true)
    there = ground (arith, find-at r e p s, (split r e p s.whole s.asc).0)

    equal : (is_same (cb.cmp (p.cur.s_arr i) e) ≡ true) × (rank (p.cur.s_arr i) ≡ rank e)
    equal = ground (arith, there, r.cmp_rank e (p.cur.s_arr i), r.cmp_rank (p.cur.s_arr i) e)

    open_here : IsOpen p
    open_here = whole-IsOpen p s.whole (omega (arith, counted, bounded))

    deleted : delete cb e (contents p) ≡ ahead p i ++ behind p i
    deleted =
        ap (delete cb e) (cut_at p i there.0)
        ∙ delete-append r e (ahead p i) (behind p i) (p.cur.s_arr i)
            (All-append (λ y. rank y < rank e) (rflat p.before) (slice p.cur.s_arr 0 i) s.low
              (All-slice (λ y. rank y < rank e) p.cur.s_arr 0 i
                (λ k _ l. (split r e p s.whole s.asc).1 k (omega arith))))
            equal.1

    left : elems (taken enough sl p i open_here there.0).list.sl_head ≡ delete cb e (contents p)
    left = holds enough sl p i open_here there.0 ∙ sym deleted

    in_chain : Leaves (IsSorted r) (delete cb e (contents p)) (take_key enough sl cb e p)
    unfolding take_key
    in_chain =
        rw (no_temp, equal.0)
          (record {
            out = taken enough sl p i open_here there.0;
            is = take_at-taken enough sl p i open_here there.0;
            says = refl;
            holds = left;
            sound = record {
              list = taken-IsList enough sl p i open_here there.0 counted (
                  omega (
                    arith,
                    ap length deleted,
                    length-delete r e x (contents p) old,
                    counted,
                    many,
                  ));
              sorted = sorted;
              no_temp = no_temp;
              rises = subst (Ascends rank) (sym left) (delete-Ascends r e (contents p) s.asc);
            };
          })

  module _ (sl : Slablist) (sorted : slist_sorted sl.sl_flags ≡ true)
      (no_temp : slist_is_sorting_temp sl.sl_flags ≡ false) where
    -- From a small list, which may just have been a slab.
    from_nodes :
        (pos : ℕ) (l : Small)
        → Ascends rank l.nodes
        → l.sl_elems ≡ length l.nodes
        → length l.nodes ≤ smelem_max
        → find cb e l.nodes ≡ some x
        → Leaves (IsSorted r) (delete cb e l.nodes) (node_rem sl cb e pos l)
    unfolding node_rem
    from_nodes pos l asc counted fits old =
        let many = length-delete r e x l.nodes old in
        let gone =
          subst
            (λ o.
              Removes cb e pos l o (delete cb e l.nodes)
                (small_list_rem cb true (slist_is_circular sl.sl_flags) e pos l))
            old
            (small_list_rem-Removes cb (slist_is_circular sl.sl_flags) e pos l (omega arith)
              counted) in
        let less : sub64 l.sl_elems 1 ≡ length (delete cb e l.nodes) =
          omega (arith, many, counted, fits) in
        rw (sorted, gone, node_rem)
          (record {
            out = record {
              ret = success;
              rdl = none;
              list = record sl {
                sl_head = small (delete cb e l.nodes);
                sl_elems = sub64 l.sl_elems 1;
              };
            };
            is = refl;
            says = refl;
            holds = refl;
            sound = record {
              list = record {
                counted = less;
                bounded = omega arith;
                shape = omega (arith, many, fits);
              };
              sorted = sorted;
              no_temp = no_temp;
              rises = delete-Ascends r e l.nodes asc;
            };
          })

  converted :
      (sl : Slablist) (n pos : ℕ) (s : Slab) (ss : List Slab)
      → IsSorted r (record sl { sl_head = chain n (s ∷ ss) })
      → length (s ∷ ss) ≡ 1
      → sl.sl_elems ≡ smelem_max
      → find cb e (flat (s ∷ ss)) ≡ some x
      → Leaves
          (IsSorted r)
          (delete cb e (flat (s ∷ ss)))
          (elim (slab_to_small_list cb (slist_sorted sl.sl_flags) s) [
            | none ↦ none
            | some l ↦ node_rem (record sl { sl_head = chain n (s ∷ ss) }) cb e pos l
          ])
  converted sl n pos s (t ∷ ss) w one full old = absurd (omega arith)
  converted sl n pos s [] w one full old =
      let given =
        slab_to_small_list-live r s (w.list.shape.2.0.fits)
          (subst (Ascends rank) (append-nil (live s)) w.rises) in
      let list = given.out in
      let same : list.nodes ≡ flat (s ∷ []) = given.holds ∙ sym (append-nil (live s)) in
      let count : length list.nodes ≡ smelem_max =
        omega (arith, ap length same, w.list.counted, full) in
      rw (w.sorted, given.is)
        (subst
          (λ xs.
            Leaves (IsSorted r) (delete cb e xs)
              (node_rem (record sl { sl_head = chain n (s ∷ []) }) cb e pos list))
          same
          (from_nodes (record sl { sl_head = chain n (s ∷ []) }) w.sorted w.no_temp pos list
            (subst (Ascends rank) (sym same) w.rises) given.counted (omega (arith, count))
            (ap (find cb e) same ∙ old)))

  from_slabs :
      (sl : Slablist) (n pos : ℕ) (s : Slab) (ss : List Slab)
      → IsSorted r (record sl { sl_head = chain n (s ∷ ss) })
      → smelem_max < sl.sl_elems
      → find cb e (flat (s ∷ ss)) ≡ some x
      → Leaves
          (IsSorted r)
          (delete cb e (flat (s ∷ ss)))
          (slab_list_rem enough (record sl { sl_head = chain n (s ∷ ss) }) cb e pos n (s ∷ ss))
  unfolding slab_list_rem
  from_slabs sl n pos s ss w many old =
      let sl' : Slablist = record sl { sl_head = chain n (s ∷ ss) } in
      let f = found_at r e n sl.sl_elems s ss w.list.shape w.rises w.list.counted w.list.bounded in
      let p = (find_linear_scan cb e false (at n [] s ss)).1 in
      rw (w.sorted, w.no_temp)
        (subst (λ xs. Leaves (IsSorted r) (delete cb e xs) (take_key enough sl' cb e p)) f.kept
          (in_chain sl' p (stops_at r e n s ss w.rises f) (ap (find cb e) f.kept ∙ old) w.sorted
            w.no_temp (w.list.counted ∙ sym (ap length f.kept)) many w.list.bounded))

  by_head :
      (sl : Slablist) (h : Head) (pos : ℕ)
      → IsSorted r (record sl { sl_head = h })
      → Lone (record sl { sl_head = h })
      → find cb e (elems h) ≡ some x
      → Leaves
          (IsSorted r)
          (delete cb e (elems h))
          (slablist_rem_impl cb enough e pos (record sl { sl_head = h }))
  unfolding slablist_rem_impl
  by_head sl (small nodes) pos w lone old =
      from_nodes (record sl { sl_head = small nodes }) w.sorted w.no_temp pos
        (record { nodes = nodes; sl_elems = sl.sl_elems }) w.rises w.list.counted w.list.shape old
  by_head sl (chain n []) pos w lone old = absurd (omega (arith, w.list.shape))
  by_head sl (chain n (s ∷ ss)) pos w lone old = elim (Bool-cases (sl.sl_elems == smelem_max)) [
    | inl t ↦ rw t (converted sl n pos s ss w (lone (ground arith)) (ground arith) old)
    | inr t ↦ rw t (from_slabs sl n pos s ss w (ground (arith, w.list.shape, w.list.counted)) old)
  ]

  -- On a well-formed sorted list that is not used for sorting and that holds an element with the
  -- key, slablist_rem returns SL_SUCCESS, the elements are those of the list without that element,
  -- and the list is again well-formed and sorted. Where the list has SMELEM_MAX elements it is
  -- required to have one slab, since only the head slab is converted.
  pub slablist_rem_impl-Leaves :
      (sl : Slablist) (pos : ℕ)
      → IsSorted r sl
      → Lone sl
      → find cb e (elems sl.sl_head) ≡ some x
      → Leaves (IsSorted r) (delete cb e (elems sl.sl_head)) (slablist_rem_impl cb enough e pos sl)
  slablist_rem_impl-Leaves sl pos w lone old = by_head sl sl.sl_head pos w lone old
