-- ===== src/Range.antt =====
-- Removal of a range of keys from a sorted list: remove_range_elems, is_slab_range,
-- is_slab_part_range, decruftify_slab, decruftify_edge_slabs, rem_slabs_between and slablist_rem_range
-- of src/slablist_rem.c, for a list without sublayers.
pub mod Filter
pub mod Cells
pub mod Between
pub mod Split
pub mod Edges
pub mod Nodes
pub mod Entry
pub mod Effect
use libslablist.Prelude.{
  ℕ, zero, suc, ◌+◌, ◌-◌, ◌%◌, ◌^◌, List, [], ◌∷◌, ◌++◌, Bool, true, false, Option, none, some,
  if◌then◌else◌, ◌==◌, ltb, leb, not, sub64, slice, bcopy, length,
}
use libslablist.Callbacks.{Elem, Callbacks, under, same, over}
use libslablist.Slab.{Slab, live}
use libslablist.Search.{slab_bin_srch}
use libslablist.Chain.{Place, at, rewind}
use libslablist.Scan.{find_linear_scan}
use libslablist.Small.{Status, success, argord, Small, smelem_max, slab_to_small_list}
use libslablist.Slablist.{
  Head, small, chain, null, own, Slablist, slist_sorted, slist_is_sorting_temp,
}
use libslablist.Slablist.Rem.{slablist_rem_impl}

module _ (cb : Callbacks) (min max : Elem) where
  unfoldable pub is_slab_range : Slab → Bool
  is_slab_range s = elim (cb.cmp min s.s_min) [
    | over ↦ false
    | _ ↦ elim (cb.cmp max s.s_max) [ under ↦ false | _ ↦ true ]
  ]

  -- The five tests of the source, by the sign of the first comparison.
  unfoldable pub is_slab_part_range : Slab → Bool
  is_slab_part_range s = elim (cb.cmp min s.s_min) [
    | over ↦ true
    | _ ↦ elim (cb.cmp max s.s_max) [ under ↦ true | _ ↦ false ]
  ]

  -- The `int` `j` may be -1, so this is `j + 1`.
  unfoldable pub range_stop : Bool → Slab → ℕ
  range_stop sorting s =
      let j = slab_bin_srch cb max sorting s in
      if j == s.s_elems then j else elim (cb.cmp max (s.s_arr j)) [ under ↦ j | _ ↦ j + 1 ]

  -- The slab, and what the callback is given. `sl_elems` of the list is not touched. With the slab
  -- left empty the source reads `s_arr[-1]` for its maximum; here that is cell 0.
  unfoldable pub remove_range_elems : Bool → Slab → Slab × List Elem
  unfolding range_stop
  remove_range_elems sorting s =
      let i = slab_bin_srch cb min sorting s in
      let stop = range_stop sorting s in
      let arr = bcopy s.s_arr stop s.s_arr i (s.s_elems - stop) in
      let n = (s.s_elems + i + 2 ^ 8 - stop) % 2 ^ 8 in
      (
        record { s_min = arr 0; s_max = arr (n - 1); s_elems = n; s_arr = arr },
        slice s.s_arr i (stop - i),
      )

-- The chain from the head on, with `sl_slabs`, `sl_elems` and what the callback was given.
pub record Cut : Type 0 where
  pub sl_slabs : ℕ
  pub sl_elems : ℕ
  pub given : List Elem
  pub chain : List Slab

-- `while (s != stop)` of rem_slabs_between: `d` slabs stand before `stop`. The counts, `stop`, and
-- what follows it. The callback is not called.
unfoldable pub rem_slabs_between : ℕ → ℕ → ℕ → List Slab → Option (ℕ × ℕ × Slab × List Slab)
rem_slabs_between d n m [] = none
rem_slabs_between zero n m (t ∷ ss) = some (n, m, t, ss)
rem_slabs_between (suc d) n m (t ∷ ss) = rem_slabs_between d (sub64 n 1) (sub64 m t.s_elems) ss

module _ (cb : Callbacks) (min max : Elem) (sorting : Bool) where
  -- decruftify_slab. `ss` is the rest of the chain behind the slab.
  unfoldable pub decruftify_slab : ℕ → ℕ → Slab → List Slab → Cut
  unfolding is_slab_range is_slab_part_range
  decruftify_slab n m s ss =
      if is_slab_range cb min max s
      then record { sl_slabs = sub64 n 1; sl_elems = sub64 m s.s_elems; given = live s; chain = ss }
      else if is_slab_part_range cb min max s
      then (let (s', gone) = remove_range_elems cb min max sorting s in
          record { sl_slabs = n; sl_elems = m; given = gone; chain = s' ∷ ss })
      else record { sl_slabs = n; sl_elems = m; given = []; chain = s ∷ ss }

  -- decruftify_edge_slabs, at two slabs that have become neighbours.
  unfoldable pub decruftify_edges : List Slab → Slab → ℕ × ℕ × Slab × List Slab → Cut
  unfolding decruftify_slab
  decruftify_edges b start (n, m, stop, ss) =
      let c = decruftify_slab n m start [] in
      let d = decruftify_slab c.sl_slabs c.sl_elems stop ss in
      record {
        sl_slabs = d.sl_slabs;
        sl_elems = d.sl_elems;
        given = c.given ++ d.given;
        chain = rewind b (c.chain ++ d.chain);
      }

  -- From the two slabs found; the pointers are the same where as many slabs stand before. With `stop`
  -- before `start` the walk leaves the chain.
  unfoldable pub cut_between : ℕ → Place → Place → Option Cut
  unfolding rem_slabs_between decruftify_edges
  cut_between m p q =
      let i = length p.before in
      let j = length q.before in
      if i == j
      then (let c = decruftify_slab p.sl_slabs m p.cur p.after in
          some (record {
            sl_slabs = c.sl_slabs;
            sl_elems = c.sl_elems;
            given = c.given;
            chain = rewind p.before c.chain;
          }))
      else if ltb i j
      then elim (rem_slabs_between (j - i - 1) p.sl_slabs m p.after) [
        | none ↦ none
        | some t ↦ some (decruftify_edges p.before p.cur t)
      ]
      else none

  unfoldable pub rem_range_chain : ℕ → ℕ → List Slab → Option Cut
  rem_range_chain n m [] = none
  rem_range_chain n m (s ∷ ss) =
      cut_between m (find_linear_scan cb min sorting (at n [] s ss)).1
        (find_linear_scan cb max sorting (at n [] s ss)).1

module _ (cb : Callbacks) where
  -- `while (node != NULL && max >= node)`: the nodes that stay, and the count.
  unfoldable pub drop_nodes : Elem → ℕ → List Elem → List Elem × ℕ
  drop_nodes max m [] = ([], m)
  drop_nodes max m (x ∷ xs) =
      let rest = drop_nodes max (sub64 m 1) xs in
      elim (cb.cmp max x) [ under ↦ (x ∷ xs, m) | _ ↦ rest ]

  -- The loop before it does not look for the end of the list. `sl_end` is not set, so where the last node
  -- goes it keeps pointing to that node; the nodes here are those from `sl_head` on.
  unfoldable pub rem_range_nodes : Elem → Elem → ℕ → List Elem → Option (List Elem × ℕ)
  unfolding drop_nodes
  rem_range_nodes min max m [] = none
  rem_range_nodes min max m (x ∷ xs) =
      let rest = rem_range_nodes min max m xs in
      elim (cb.cmp min x) [
        | over ↦ elim rest [ none ↦ none | some (ys, m') ↦ some (x ∷ ys, m') ]
        | _ ↦ some (drop_nodes max m (x ∷ xs))
      ]

-- How the removal of a range ends: an access through NULL or past the chain; a list with no slab and
-- no element whose `sl_head` is a slab that was freed; or a status, what the callback was given, and
-- the list.
pub data Ranged : Type 0 where
  fault : Ranged
  dangling : Ranged
  done : Status → List Elem → Slablist → Ranged

-- What becomes of the chain: `bl->sl_superlayer` follows `sl_baselayer`, and at `own` the loop over the
-- layers has no round. IS_SMALL_LIST reads `sl_slabs`, and slab_to_small_list takes the head slab
-- alone.
unfoldable pub settle_range : Callbacks → Slablist → Option Cut → Ranged
settle_range cb sl none = fault
settle_range cb sl (some c) = elim sl.sl_baselayer [
  | null ↦ fault
  | own ↦
      if c.sl_slabs == 0
      then dangling
      else if leb c.sl_elems smelem_max
      then elim c.chain [
        | [] ↦ fault
        | h ∷ _ ↦ elim (slab_to_small_list cb (slist_sorted sl.sl_flags) h) [
          | none ↦ fault
          | some l ↦
              done success c.given (record sl { sl_elems = l.sl_elems; sl_head = small l.nodes })
        ]
      ]
      else done success c.given
          (record sl { sl_elems = c.sl_elems; sl_head = chain c.sl_slabs c.chain })
]

unfoldable pub slablist_rem_range : Callbacks → (ℕ → ℕ → ℕ → Bool) → Elem → Elem → Slablist → Ranged
slablist_rem_range cb enough min max sl =
    if slist_sorted sl.sl_flags
    then elim (cb.cmp min max) [
      | same ↦ elim (slablist_rem_impl cb enough min 0 sl) [
        | none ↦ fault
        | some r ↦ done r.ret (elim r.rdl [ none ↦ [] | some x ↦ x ∷ [] ]) r.list
      ]
      | _ ↦ elim sl.sl_head [
        | small nodes ↦ elim (rem_range_nodes cb min max sl.sl_elems nodes) [
          | none ↦ fault
          | some (ys, m) ↦ done success [] (record sl { sl_elems = m; sl_head = small ys })
        ]
        | chain n ss ↦
            settle_range cb sl
              (rem_range_chain cb min max (slist_is_sorting_temp sl.sl_flags) n sl.sl_elems ss)
      ]
    ]
    else done argord [] sl
