-- ===== src/Slablist/Add.antt =====
-- slablist_add on a sorted list, small or of slabs: an element whose key is there is refused, and any
-- other goes to its place.
pub mod Slabs
use libslablist.Prelude.{
  ℕ, suc, ◌+◌, ◌-◌, ◌≤◌, ◌<◌, ◌^◌, ◌≡◌, ◌≢◌, refl, sym, subst, ap, ◌∙◌, List, [], ◌∷◌, All, Bool,
  true, false, Option, none, some, arith, append-nil, Bool-cases, inl, inr, length, ◌==◌, leb,
  add64, not, ◌&&◌,
}
use libslablist.Callbacks.{Elem, Callbacks, Ranked, Sign}
use libslablist.Slab.{Slab, live, selem_max}
use libslablist.Slab.Edit.{IsValid}
use libslablist.Sorted.{insert, find, Ascends, insert-Ascends, find-Lacks}
use libslablist.Chain.{Place, at, flat, contents, slabs, IsWhole}
use libslablist.Chain.Contents.{flat-slabs, All-rewind, length-rewind}
use libslablist.Scan.{status, find_linear_scan}
use libslablist.Scan.Found.{IsFound}
use libslablist.Insert
use libslablist.Insert.{slab_gen_add}
use libslablist.Insert.Total.{Stops}
use libslablist.Insert.Outcome.{Outcome, slab_gen_add-Outcome}
use libslablist.Reap.{try_reap}
use libslablist.Small.{
  Small, SmallAdd, smelem_max, small_list_add, small_list_to_slab, Status, success, edup,
}
use libslablist.Small.Nodes.{SmallOutcome, small_list_add-Outcome}
use libslablist.Small.Convert.{live-small_list_to_slab, small_list_to_slab-IsValid}
use libslablist.Slablist.{
  Head, small, chain, Slablist, elems, slist_sorted, slist_is_sorting_temp, Added, told, add_found,
  reaped, slab_list_add, slablist_add_impl,
}
use libslablist.Slablist.Shape.{Shape, IsSorted, length-flat, some_slab, found_at, stops_at}
use libslablist.Slablist.Add.Slabs.{Does, AddOutcome, length-insert, slab_list_add-Outcome}

module _ {cb : Callbacks} (r : Ranked cb) (enough : ℕ → ℕ → ℕ → Bool) (e : Elem) where
  open r use {rank}

  small_room : (nodes : List Elem) → length nodes ≤ smelem_max → length nodes ≤ selem_max
  small_room nodes h = omega arith

  module _ (sl : Slablist) (nodes : List Elem)
      (w : IsSorted r (record sl { sl_head = small nodes })) where
    abbrev list : Small
    list = record { nodes = nodes; sl_elems = sl.sl_elems }

    abbrev now : SmallAdd → Slablist
    now a = record sl { sl_head = small a.list.nodes; sl_elems = a.list.sl_elems }

    nodes-IsSorted :
        (a : SmallAdd)
        → a.list.sl_elems ≡ length a.list.nodes
        → length a.list.nodes ≤ smelem_max
        → Ascends rank a.list.nodes
        → IsSorted r (now a)
    nodes-IsSorted a many fits rises = record {
      list = record { counted = many; bounded = omega (arith, many, fits); shape = fits };
      sorted = w.sorted;
      no_temp = w.no_temp;
      rises = rises;
    }

    -- Into the small list.
    node_outcome :
        (o : Option Elem) (a : SmallAdd)
        → find cb e nodes ≡ o
        → sl.sl_elems < smelem_max
        → SmallOutcome r e o list a
        → AddOutcome r enough e o nodes
            (some (record { ret = a.ret; attaches = false; list = now a }))
    node_outcome none a new room (done, put, one_more) = record {
      out = record { ret = a.ret; attaches = false; list = now a };
      is = refl;
      says = done;
      holds = put;
      sorted =
          nodes-IsSorted a
            (omega (arith, one_more, ap length put, length-insert cb e nodes, w.list.counted, room))
            (omega (arith, ap length put, length-insert cb e nodes, w.list.counted, room))
            (subst (Ascends rank) (sym put)
              (insert-Ascends r e nodes w.rises (find-Lacks r e nodes new)));
    }
    node_outcome (some x) a old room (refused, same_nodes, same_count) = record {
      out = record { ret = a.ret; attaches = false; list = now a };
      is = refl;
      says = refused;
      holds = same_nodes;
      sorted =
          nodes-IsSorted a (omega (arith, same_count, ap length same_nodes, w.list.counted))
            (omega (arith, ap length same_nodes, w.list.shape))
            (subst (Ascends rank) (sym same_nodes) w.rises);
    }

  -- The head of a list, of either kind.
  by_head :
      (sl : Slablist) (h : Head)
      → IsSorted r (record sl { sl_head = h })
      → sl.sl_elems + 1 < 2 ^ 64
      → AddOutcome r enough e
          (find cb e (elems h))
          (elems h)
          (slablist_add_impl cb enough e false (record sl { sl_head = h }))
  unfolding slablist_add_impl
  by_head sl (chain n []) w room = absurd (omega (arith, w.list.shape))
  by_head sl (chain n (s ∷ ss)) w room =
      slab_list_add-Outcome r enough e (record sl { sl_head = chain n (s ∷ ss) }) n s ss w.sorted
        w.no_temp w.list.shape w.rises w.list.counted room
  by_head sl (small nodes) w room = elim (Bool-cases (leb sl.sl_elems (smelem_max - 1))) [
    | inl t ↦
        let a = small_list_add-Outcome r e (list sl nodes w) w.rises w.list.counted in
        rw (t, w.sorted)
          (rw a.1 (node_outcome sl nodes w (find cb e nodes) a.0 refl (ground (arith, t)) a.2))
    | inr t ↦
        let full : (sl.sl_elems == smelem_max) ≡ true = ground (arith, w.list) in
        let full_count : length nodes ≡ smelem_max = ground (arith, w.list) in
        let s = small_list_to_slab nodes in
        let same : flat (s ∷ []) ≡ nodes =
          append-nil (live s) ∙ live-small_list_to_slab nodes (small_room nodes w.list.shape) in
        rw (t, full)
          (subst
            (λ xs.
              AddOutcome r enough e (find cb e xs) xs
                (slab_list_add cb enough e false (record sl { sl_head = small nodes }) 1 (s ∷ [])))
            same
            (slab_list_add-Outcome r enough e (record sl { sl_head = small nodes }) 1 s [] w.sorted
              w.no_temp
              (
                refl,
                omega arith,
                (
                  small_list_to_slab-IsValid nodes (omega (arith, full_count))
                      (small_room nodes w.list.shape),
                  tt,
                ),
                omega (arith, full_count, ap length same),
              )
              (subst (Ascends rank) (sym same) w.rises) (w.list.counted ∙ sym (ap length same))
              room))
  ]

  -- On a well-formed sorted list that is not used for sorting and whose count has room,
  -- slablist_add without replacement returns. If the list holds an element with the key, it
  -- returns SL_EDUP and the elements stay; otherwise it returns SL_SUCCESS and the elements are
  -- those of the list with the new one inserted at its place. The list is again well-formed and
  -- sorted, small or of slabs, whatever branch was taken and whether or not it was reaped.
  pub slablist_add_impl-Outcome :
      (sl : Slablist)
      → IsSorted r sl
      → sl.sl_elems + 1 < 2 ^ 64
      → AddOutcome r enough e
          (find cb e (elems sl.sl_head))
          (elems sl.sl_head)
          (slablist_add_impl cb enough e false sl)
  slablist_add_impl-Outcome sl w room = by_head sl sl.sl_head w room
