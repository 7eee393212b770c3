-- ===== src/Slablist/Rem/Position.antt =====
-- What a removal by position takes out of an ordered list.
use libslablist.Prelude.{
  ℕ, ◌≤◌, ◌<◌, ◌^◌, ◌≡◌, refl, sym, subst, ap, ◌∙◌, inl, inr, List, [], ◌∷◌, ◌++◌, Bool, false,
  none, some, append-nil, arith, length, remove_at, remove_at-append, length-remove_at, ◌==◌, sub64,
  Bool-cases,
}
use libslablist.Callbacks.{Elem, Callbacks}
use libslablist.Slab.{Slab, live}
use libslablist.Chain.{Place, flat}
use libslablist.Chain.Contents.{ahead, behind, cut_at, length-ahead}
use libslablist.Small.{Small, success, smelem_max, slab_to_small_list}
use libslablist.Small.Takes.{small_list_rem_at}
use libslablist.Small.Convert.{slab_to_small_list_ordered}
use libslablist.Slablist.{Head, small, chain, Slablist, elems, slist_sorted, slist_is_circular}
use libslablist.Slablist.Shape.{IsList}
use libslablist.Slablist.Get.{IsAt, slab_get_elem_pos-Leads}
use libslablist.Slablist.Rem.{take_at, slab_list_rem, node_rem, slablist_rem_impl}
use libslablist.Slablist.Rem.Cut.{IsOpen, taken, fewer, take_at-taken, holds, taken-IsList}
use libslablist.Slablist.Rem.Effect.{Lone, Leaves}

-- Removal by position from an ordered list of slabs.
module _ (cb : Callbacks) (enough : ℕ → ℕ → ℕ → Bool) (e : Elem) where
  at_place :
      (sl : Slablist) (ss : List Slab) (pos off : ℕ) (p : Place)
      → IsAt ss pos p off
      → p.sl_slabs ≡ length ss
      → sl.sl_elems ≡ length (flat ss)
      → sl.sl_elems < 2 ^ 64
      → smelem_max < sl.sl_elems
      → Leaves IsList (remove_at pos (flat ss)) (take_at enough sl p off)
  at_place sl ss pos off p a count counted bounded many =
      let here : IsOpen p = record {
        left = a.left;
        here = a.here;
        right = a.right;
        counted = count ∙ sym a.counted;
        bounded = omega (arith, counted, bounded, ap length a.kept);
      } in
      let stay : remove_at pos (flat ss) ≡ ahead p off ++ behind p off =
        ap (remove_at pos) (sym a.kept ∙ cut_at p off a.inside)
        ∙ ap (λ k. remove_at k (ahead p off ++ (p.cur.s_arr off ∷ behind p off)))
            (sym (length-ahead p off ∙ a.offset))
        ∙ remove_at-append (ahead p off) (behind p off) (p.cur.s_arr off) in
      record {
        out = taken enough sl p off here a.inside;
        is = take_at-taken enough sl p off here a.inside;
        says = refl;
        holds = holds enough sl p off here a.inside ∙ sym stay;
        sound =
            taken-IsList enough sl p off here a.inside (counted ∙ sym (ap length a.kept))
              (omega (arith, fewer enough sl p off here a.inside, ap length a.kept, counted, many));
      }

  nodes_at :
      (sl : Slablist) (pos : ℕ) (l : Small)
      → slist_sorted sl.sl_flags ≡ false
      → l.sl_elems ≡ length l.nodes
      → length l.nodes ≤ smelem_max
      → pos < length l.nodes
      → Leaves IsList (remove_at pos l.nodes) (node_rem sl cb e pos l)
  unfolding node_rem
  nodes_at sl pos l ordered counted fits h =
      let gone = small_list_rem_at cb (slist_is_circular sl.sl_flags) e pos l counted h in
      let many = length-remove_at pos l.nodes h in
      rw (ordered, gone.1, node_rem)
        (record {
          out = record {
            ret = success;
            rdl = none;
            list = record sl {
              sl_head = small (remove_at pos l.nodes);
              sl_elems = sub64 l.sl_elems 1;
            };
          };
          is = refl;
          says = refl;
          holds = refl;
          sound = record {
            counted = omega (arith, many, counted, fits);
            bounded = omega arith;
            shape = omega (arith, many, fits);
          };
        })

  slabs_at :
      (sl : Slablist) (n pos : ℕ) (s : Slab) (ss : List Slab)
      → IsList (record sl { sl_head = chain n (s ∷ ss) })
      → slist_sorted sl.sl_flags ≡ false
      → smelem_max < sl.sl_elems
      → pos < sl.sl_elems
      → Leaves IsList
          (remove_at pos (flat (s ∷ ss)))
          (slab_list_rem enough (record sl { sl_head = chain n (s ∷ ss) }) cb e pos n (s ∷ ss))
  unfolding slab_list_rem
  slabs_at sl n pos s ss w ordered many h =
      let leads =
        slab_get_elem_pos-Leads (slist_is_circular sl.sl_flags) sl.sl_elems pos n (s ∷ ss) w.shape.0
          w.counted h w.bounded w.shape.2 in
      rw (ordered, leads.is)
        (at_place (record sl { sl_head = chain n (s ∷ ss) }) (s ∷ ss) pos leads.off leads.place
          leads.there (leads.same_count ∙ w.shape.0) w.counted w.bounded many)

  converted_at :
      (sl : Slablist) (n pos : ℕ) (s : Slab) (ss : List Slab)
      → IsList (record sl { sl_head = chain n (s ∷ ss) })
      → slist_sorted sl.sl_flags ≡ false
      → length (s ∷ ss) ≡ 1
      → sl.sl_elems ≡ smelem_max
      → pos < sl.sl_elems
      → Leaves IsList
          (remove_at pos (flat (s ∷ ss)))
          (elim (slab_to_small_list cb (slist_sorted sl.sl_flags) s) [
            | none ↦ none
            | some l ↦ node_rem (record sl { sl_head = chain n (s ∷ ss) }) cb e pos l
          ])
  converted_at sl n pos s (t ∷ ss) w ordered one full h = absurd (omega arith)
  converted_at sl n pos s [] w ordered one full h =
      let given = slab_to_small_list_ordered cb s (w.shape.2.0.fits) in
      let list = given.out in
      let same : list.nodes ≡ flat (s ∷ []) = given.holds ∙ sym (append-nil (live s)) in
      let count : length list.nodes ≡ smelem_max = omega (arith, ap length same, w.counted, full) in
      rw (ordered, given.is)
        (subst
          (λ xs.
            Leaves IsList (remove_at pos xs)
              (node_rem (record sl { sl_head = chain n (s ∷ []) }) cb e pos list))
          same
          (nodes_at (record sl { sl_head = chain n (s ∷ []) }) pos list ordered given.counted
            (omega (arith, count)) (omega (arith, count, h, full))))

  head_at :
      (sl : Slablist) (h : Head) (pos : ℕ)
      → IsList (record sl { sl_head = h })
      → Lone (record sl { sl_head = h })
      → slist_sorted sl.sl_flags ≡ false
      → pos < sl.sl_elems
      → Leaves IsList
          (remove_at pos (elems h))
          (slablist_rem_impl cb enough e pos (record sl { sl_head = h }))
  unfolding slablist_rem_impl
  head_at sl (small nodes) pos w lone ordered k =
      nodes_at (record sl { sl_head = small nodes }) pos
        (record { nodes = nodes; sl_elems = sl.sl_elems }) ordered w.counted w.shape
        (omega (arith, w.counted, k))
  head_at sl (chain n []) pos w lone ordered k = absurd (omega (arith, w.shape))
  head_at sl (chain n (s ∷ ss)) pos w lone ordered k =
      elim (Bool-cases (sl.sl_elems == smelem_max)) [
        | inl t ↦ rw t (converted_at sl n pos s ss w ordered (lone (ground arith)) (ground arith) k)
        | inr t ↦ rw t (slabs_at sl n pos s ss w ordered (ground (arith, w.shape, w.counted)) k)
      ]

  -- On a well-formed ordered list and for a position below its count, slablist_rem returns
  -- SL_SUCCESS, the elements are those of before without the one at the position, and the list is
  -- again well-formed. Where the list has SMELEM_MAX elements it is required to have one slab.
  pub slablist_rem_impl-remove_at :
      (sl : Slablist) (pos : ℕ)
      → IsList sl
      → Lone sl
      → slist_sorted sl.sl_flags ≡ false
      → pos < sl.sl_elems
      → Leaves IsList (remove_at pos (elems sl.sl_head)) (slablist_rem_impl cb enough e pos sl)
  slablist_rem_impl-remove_at sl pos w lone ordered h = head_at sl sl.sl_head pos w lone ordered h
