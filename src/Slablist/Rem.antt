-- ===== src/Slablist/Rem.antt =====
-- slablist_rem_impl and slablist_rem (src/slablist_rem.c), for a list without sublayers.
pub mod Cut
pub mod Effect
pub mod Position
pub mod Absent
use libslablist.Prelude.{
  ℕ, ◌+◌, ◌-◌, List, [], ◌∷◌, Bool, true, false, Option, none, some, ltb, ◌==◌, if◌then◌else◌,
  sub64,
}
use libslablist.Callbacks.{Elem, Callbacks}
use libslablist.Slab.{Slab, remove_elem}
use libslablist.Search.{slab_bin_srch}
use libslablist.Chain.{Place, at}
use libslablist.Scan.{find_linear_scan}
use libslablist.Insert.{is_same}
use libslablist.Small.{
  Status, success, enfound, Small, SmallRem, smelem_max, small_list_rem, slab_to_small_list,
}
use libslablist.Merge.{slab_generic_rem}
use libslablist.Slablist.{
  Head, small, chain, Slablist, slist_sorted, slist_is_circular, slist_is_sorting_temp, reaped,
}
use libslablist.Slablist.Get.{slab_get_elem_pos}

-- What is returned, the element that `rcb` is given, if it is called, and the list.
pub record Removed : Type 0 where
  pub ret : Status
  pub rdl : Option Elem
  pub list : Slablist

module _ (enough : ℕ → ℕ → ℕ → Bool) (sl : Slablist) where
  -- The `i`-th element of the slab in view goes. At `i == s_elems` the size of the shift wraps
  -- round, and the copy leaves the slab.
  unfoldable pub take_at : Place → ℕ → Option Removed
  take_at p i =
      if ltb i p.cur.s_elems
      then (let (n, ss) = slab_generic_rem (record p { cur = remove_elem i p.cur }) in
          elim (reaped enough sl n ss) [
            | none ↦ none
            | some head ↦ some (record {
              ret = success;
              rdl = some (p.cur.s_arr i);
              list = record sl { sl_head = head; sl_elems = sub64 sl.sl_elems 1 };
            })
          ])
      else none

  -- A sorted list compares the cell that the search of the slab returns, whether in use or not.
  unfoldable pub take_key : Callbacks → Elem → Place → Option Removed
  take_key cb elem p =
      let i = slab_bin_srch cb elem (slist_is_sorting_temp sl.sl_flags) p.cur in
      if is_same (cb.cmp (p.cur.s_arr i) elem)
      then take_at p i
      else some (record { ret = enfound; rdl = none; list = sl })

  unfoldable pub slab_list_rem : Callbacks → Elem → ℕ → ℕ → List Slab → Option Removed
  slab_list_rem cb elem pos n [] = none
  slab_list_rem cb elem pos n (s ∷ ss) =
      if slist_sorted sl.sl_flags
      then take_key cb elem
          (find_linear_scan cb elem (slist_is_sorting_temp sl.sl_flags) (at n [] s ss)).1
      else elim (slab_get_elem_pos (slist_is_circular sl.sl_flags) sl.sl_elems pos n (s ∷ ss)) [
        | none ↦ none
        | some (p, off) ↦ take_at p off
      ]

-- A small list leaves before the call of `rcb`.
unfoldable pub node_rem : Slablist → Callbacks → Elem → ℕ → Small → Option Removed
node_rem sl cb elem pos nodes =
    elim (small_list_rem cb (slist_sorted sl.sl_flags) (slist_is_circular sl.sl_flags) elem pos
      nodes) [
        | none ↦ none
        | some a ↦ some (record {
          ret = a.ret;
          rdl = none;
          list = record sl { sl_head = small a.list.nodes; sl_elems = a.list.sl_elems };
        })
      ]

-- At SMELEM_MAX elements the head slab becomes a small list.
unfoldable pub slablist_rem_impl :
    Callbacks → (ℕ → ℕ → ℕ → Bool) → Elem → ℕ → Slablist → Option Removed
slablist_rem_impl cb enough elem pos sl = elim sl.sl_head [
  | small nodes ↦ node_rem sl cb elem pos (record { nodes = nodes; sl_elems = sl.sl_elems })
  | chain n ss ↦
      if sl.sl_elems == smelem_max
      then elim ss [
        | [] ↦ none
        | h ∷ _ ↦ elim (slab_to_small_list cb (slist_sorted sl.sl_flags) h) [
          | none ↦ none
          | some l ↦ node_rem sl cb elem pos l
        ]
      ]
      else slab_list_rem enough sl cb elem pos n ss
]
