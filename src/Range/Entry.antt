-- ===== src/Range/Entry.antt =====
-- slablist_rem_range on a sorted list.
use libslablist.Prelude.{
  ℕ, ◌≤◌, ◌<◌, ◌≡◌, refl, ap, ◌∙◌, inl, inr, List, [], ◌∷◌, ◌++◌, Bool, false, some, if◌then◌else◌,
  ◌==◌, leb, arith, length, Bool-cases, append-nil,
}
use libslablist.Callbacks.{Elem, Callbacks, Ranked, under, Sign-cases}
use libslablist.Slab.{Slab, live}
use libslablist.Chain.{at, flat}
use libslablist.Scan.{status, find_linear_scan, scan_loop}
use libslablist.Small.{success, smelem_max}
use libslablist.Slablist.{Head, small, chain, Slablist, elems, Baselayer, null, own}
use libslablist.Slablist.Shape.{Shape, IsSorted, some_slab}
use libslablist.Range.{
  Cut, Ranged, fault, done, rem_range_chain, is_slab_range, is_slab_part_range, cut_between,
  decruftify_slab, settle_range, slablist_rem_range,
}
use libslablist.Range.Filter.{outside, length-outside}
use libslablist.Range.Nodes.{reaches_from, rem_range_nodes-outside}
use libslablist.Range.Effect.{rem_range_chain-Cuts}

-- The elements are `xs`, the slabs are valid and `sl_slabs` counts them; `sl_elems` is no less than
-- the count of the elements.
pub record Holds (xs : List Elem) (l : Slablist) : Type 0 where
  pub holds : elems l.sl_head ≡ xs
  pub shape : Shape l.sl_head
  pub least : length xs ≤ l.sl_elems

-- A removal that leaves the elements `xs` and `sl_elems` as it was.
pub record Miscounts (m : ℕ) (xs : List Elem) (res : Ranged) : Type 0 where
  pub given : List Elem
  pub list : Slablist
  pub is : res ≡ done success given list
  pub holds : elems list.sl_head ≡ xs
  pub stuck : list.sl_elems ≡ m

pub record Clears (xs : List Elem) (res : Ranged) : Type 0 where
  pub given : List Elem
  pub list : Slablist
  pub is : res ≡ done success given list
  pub sound : Holds xs list

-- By `sl_baselayer`: NULL is followed.
abbrev pub ClearsFrom : Baselayer → List Elem → Ranged → Type 0
ClearsFrom null xs res = res ≡ fault
ClearsFrom own xs res = Clears xs res

module _ {cb : Callbacks} (r : Ranked cb) (enough : ℕ → ℕ → ℕ → Bool) (min max : Elem)
    (lt : r.rank min < r.rank max) where
  open r use {rank}

  cmp_under : cb.cmp min max ≡ under
  cmp_under = ground (arith, r.cmp_rank min max)

  -- Where the chain was cut, by `sl_baselayer`.
  settled :
      (sl : Slablist) (b : Baselayer) (n : ℕ) (ss : List Slab) (xs : List Elem) (c : Cut)
      → Shape (chain c.sl_slabs c.chain)
      → smelem_max < length xs
      → flat c.chain ≡ xs
      → length xs ≤ c.sl_elems
      → ClearsFrom b xs
          (settle_range cb (record sl { sl_head = chain n ss; sl_baselayer = b }) (some c))
  unfolding settle_range
  settled sl null n ss xs c shape many holds least = refl
  settled sl own n ss xs c shape many holds least =
      let stays : (c.sl_slabs == 0) ≡ false = ground (arith, shape.1) in
      let more : leb c.sl_elems smelem_max ≡ false = ground (arith, least, many) in
      rw (stays, more)
        (record {
          given = c.given;
          list = record sl {
            sl_elems = c.sl_elems;
            sl_head = chain c.sl_slabs c.chain;
            sl_baselayer = own;
          };
          is = refl;
          sound = record { holds = holds; shape = shape; least = least };
        })

  from_chain :
      (sl : Slablist) (b : Baselayer) (n : ℕ) (ss : List Slab)
      → IsSorted r (record sl { sl_head = chain n ss; sl_baselayer = b })
      → smelem_max < length (outside cb min max (flat ss))
      → ClearsFrom b (outside cb min max (flat ss)) (
          slablist_rem_range cb enough min max
            (record sl { sl_head = chain n ss; sl_baselayer = b }))
  unfolding slablist_rem_range
  from_chain sl b n [] v many = absurd (omega (arith, v.list.shape))
  from_chain sl b n (s ∷ ss) v many =
      let c =
        rem_range_chain-Cuts r min max (omega arith) n sl.sl_elems s ss (v.list.shape.0)
          v.list.shape.2 v.list.counted (omega (arith, v.list.counted, v.list.bounded)) v.rises in
      let some_left = some_slab c.out.chain (omega (arith, ap length c.holds, many)) in
      rw (v.sorted, cmp_under, v.no_temp, slablist_rem_range)
        (rw c.is (
          settled sl b n (s ∷ ss) (outside cb min max (flat (s ∷ ss))) c.out
            (
              c.counted,
              omega (arith, c.counted, some_left),
              c.valid,
              omega (arith, ap length c.holds, many),
            )
            many c.holds (omega (arith, c.least, ap length c.holds))))

  by_head :
      (sl : Slablist) (h : Head) (b : Baselayer)
      → IsSorted r (record sl { sl_head = h; sl_baselayer = b })
      → smelem_max < length (outside cb min max (elems h))
      → ClearsFrom b
          (outside cb min max (elems h))
          (slablist_rem_range cb enough min max (record sl { sl_head = h; sl_baselayer = b }))
  by_head sl (small xs) b v many =
      absurd (omega (arith, v.list.shape, length-outside cb min max xs))
  by_head sl (chain n ss) b v many = from_chain sl b n ss v many

  -- slablist_rem_range on a sorted, well-formed list, with the lesser end first and more than
  -- SMELEM_MAX elements outside the range: where the list never had sublayers it follows a NULL
  -- sl_baselayer; where detach_sublayer took the last sublayer away and sl_baselayer is the list
  -- itself, it returns SL_SUCCESS and leaves exactly those elements, in order, in valid slabs that
  -- are counted, and sl_elems is no less than their number.
  pub slablist_rem_range-Clears :
      (sl : Slablist)
      → IsSorted r sl
      → smelem_max < length (outside cb min max (elems sl.sl_head))
      → ClearsFrom sl.sl_baselayer
          (outside cb min max (elems sl.sl_head))
          (slablist_rem_range cb enough min max sl)
  slablist_rem_range-Clears sl v many = by_head sl sl.sl_head sl.sl_baselayer v many

  -- slablist_rem_range on a small list that is sorted and well-formed, with the lesser end first:
  -- where an element is not below the range it returns SL_SUCCESS, calls no callback, and leaves
  -- exactly the elements outside the range with the right count; where all elements are below it,
  -- or there is none, it follows NULL.
  pub slablist_rem_range_small :
      (sl : Slablist) (xs : List Elem)
      → IsSorted r (record sl { sl_head = small xs })
      → slablist_rem_range cb enough min max (record sl { sl_head = small xs }) ≡ (
          if reaches_from cb min xs
          then done success [] (record sl {
            sl_elems = length (outside cb min max xs);
            sl_head = small (outside cb min max xs);
          })
          else fault)
  unfolding slablist_rem_range
  slablist_rem_range_small sl xs v =
      let walk =
        rem_range_nodes-outside r min max (omega arith) sl.sl_elems xs v.rises v.list.counted
          v.list.bounded in
      elim (Bool-cases (reaches_from cb min xs)) [
        | inl t ↦ rw (v.sorted, cmp_under, slablist_rem_range) (rw (walk, t) refl)
        | inr t ↦ rw (v.sorted, cmp_under, slablist_rem_range) (rw (walk, t) refl)
      ]

pub alone :
    (cb : Callbacks) (e : Elem) (s : Slab)
    → (find_linear_scan cb e false (at 1 [] s [])).1 ≡ at 1 [] s []
unfolding find_linear_scan scan_loop
alone cb e s = elim (Sign-cases (status cb e s)) [
  | inl o ↦ rw o refl
  | inr (inl o) ↦ rw o refl
  | inr (inr o) ↦ rw o refl
]

-- A slab that the range does not cover leaves `sl_elems` as it was.
alone_keeps :
    (cb : Callbacks) (min max : Elem) (s : Slab) (m : ℕ)
    → is_slab_range cb min max s ≡ false
    → (decruftify_slab cb min max false 1 m s []).sl_elems ≡ m
unfolding decruftify_slab
alone_keeps cb min max s m h = elim (Bool-cases (is_slab_part_range cb min max s)) [
  | inl t ↦ rw (h, t) refl
  | inr t ↦ rw (h, t) refl
]

uncounted :
    (cb : Callbacks) (min max : Elem) (s : Slab) (m : ℕ) (c : Cut)
    → is_slab_range cb min max s ≡ false
    → rem_range_chain cb min max false 1 m (s ∷ []) ≡ some c
    → c.sl_elems ≡ m
unfolding rem_range_chain cut_between
uncounted cb min max s m c h e =
    let d = decruftify_slab cb min max false 1 m s [] in
    let run : rem_range_chain cb min max false 1 m (s ∷ [])
        ≡ some (record d { sl_slabs = d.sl_slabs }) =
      rw (alone cb min s, alone cb max s) refl in
    ground (arith, run, e, alone_keeps cb min max s m h)

-- slablist_rem_range, with the lesser end first, on a sorted list of one slab that the range does
-- not cover, whose sl_baselayer is the list itself, and with more than SMELEM_MAX elements outside
-- the range: the elements outside it are left, and sl_elems is what it was, however many were
-- removed.
pub slablist_rem_range-Miscounts :
    {cb : Callbacks} (r : Ranked cb) (enough : ℕ → ℕ → ℕ → Bool) (min max : Elem) (sl : Slablist)
    (s : Slab)
    → r.rank min < r.rank max
    → sl.sl_baselayer ≡ own
    → IsSorted r (record sl { sl_head = chain 1 (s ∷ []) })
    → is_slab_range cb min max s ≡ false
    → smelem_max < length (outside cb min max (live s))
    → Miscounts sl.sl_elems
        (outside cb min max (live s))
        (slablist_rem_range cb enough min max (record sl { sl_head = chain 1 (s ∷ []) }))
unfolding slablist_rem_range settle_range
slablist_rem_range-Miscounts {cb} r enough min max sl s lt detached v part many =
    let whole : live s ++ [] ≡ live s = append-nil (live s) in
    let c =
      rem_range_chain-Cuts r min max (omega arith) 1 sl.sl_elems s [] refl v.list.shape.2
        v.list.counted (omega (arith, v.list.counted, v.list.bounded)) v.rises in
    let left : flat c.out.chain ≡ outside cb min max (live s) =
      c.holds ∙ ap (outside cb min max) whole in
    let stays : (c.out.sl_slabs == 0) ≡ false =
      ground (arith, c.counted, some_slab c.out.chain (omega (arith, ap length left, many))) in
    let more : leb c.out.sl_elems smelem_max ≡ false =
      ground (arith, c.least, ap length c.holds, ap length left, many) in
    rw (v.sorted, cmp_under r enough min max lt, v.no_temp, slablist_rem_range)
      (rw (c.is, settle_range)
        (rw (detached, stays, more)
          (record {
            given = c.out.given;
            list = record sl {
              sl_elems = c.out.sl_elems;
              sl_head = chain c.out.sl_slabs c.out.chain;
            };
            is = refl;
            holds = left;
            stuck = uncounted cb min max s sl.sl_elems c.out part c.is;
          })))
