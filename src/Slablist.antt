-- ===== src/Slablist.antt =====
-- `slablist_t` and the entry points of src/slablist_add.c (slablist_add_impl, slablist_add),
-- src/slablist_find.c (slablist_find) and src/slablist_rem.c (slablist_rem_impl, slablist_rem), with
-- the constructor and the setters of src/slablist_cons.c, for a list that has no sublayers. `none` is
-- an access through NULL.
pub mod Shape
pub mod Reaped
pub mod Get
pub mod Add
pub mod Find
pub mod Append
pub mod Trips
pub mod Ends
pub mod Rem
use libslablist.Prelude.{
  ℕ, suc, ◌+◌, ◌-◌, ◌%◌, ◌^◌, List, [], ◌∷◌, Bool, true, false, Option, none, some, if◌then◌else◌,
  not, ◌&&◌, ltb, leb, ◌==◌, add8, add64, sub64, write, bit_and,
}
use libslablist.Callbacks.{Elem, Sign, Callbacks, same}
use libslablist.Slab.{Slab, mk_slab, selem_max, live, remove_elem}
use libslablist.Search.{slab_bin_srch}
use libslablist.Chain.{Place, at, flat, slabs}
use libslablist.Scan.{find_linear_scan}
use libslablist.Insert
use libslablist.Insert.{slab_gen_add}
use libslablist.Small.{
  Status, success, enfound, argord, edup, Small, smelem_max, small_list_add, small_list_rem,
  small_list_to_slab, slab_to_small_list,
}
use libslablist.Merge.{slab_generic_rem}
use libslablist.Reap.{try_reap}

-- `sl_head`, which IS_SMALL_LIST tells to be a node or a slab: `sl_slabs` is 0, or counts the slabs.
pub data Head : Type 0 where
  small : List Elem → Head
  chain : ℕ → List Slab → Head

-- `sl_baselayer` of a list without sublayers: NULL as slablist_create leaves it, or the list itself
-- once detach_sublayer took the last sublayer away.
pub data Baselayer : Type 0 where
  null own : Baselayer

pub record Slablist : Type 0 where
  pub sl_flags : ℕ
  pub sl_req_sublayer : ℕ
  pub sl_mpslabs : ℕ
  pub sl_mslabs : ℕ
  pub sl_elems : ℕ
  pub sl_head : Head
  pub sl_baselayer : Baselayer

-- SLIST_SORTED
abbrev pub slist_sorted : ℕ → Bool
slist_sorted fl = not (bit_and fl 128 == 0)

-- SLIST_IS_CIRCULAR. SLIST_IS_SORTING_TEMP reads the same bit.
abbrev pub slist_is_circular : ℕ → Bool
slist_is_circular fl = not (bit_and fl 16 == 0)

abbrev pub slist_is_sorting_temp : ℕ → Bool
slist_is_sorting_temp fl = not (bit_and fl 16 == 0)

-- The elements of a list, from its head on.
abbrev pub elems : Head → List Elem
elems (small nodes) = nodes
elems (chain _ ss) = flat ss

unfoldable pub slablist_create : ℕ → Slablist
slablist_create fl = record {
  sl_flags = fl;
  sl_req_sublayer = 10;
  sl_mpslabs = 30;
  sl_mslabs = 30;
  sl_elems = 0;
  sl_head = small [];
  sl_baselayer = null;
}

unfoldable pub slablist_set_reap_pslabs : ℕ → Slablist → Slablist
slablist_set_reap_pslabs new sl = record sl { sl_mpslabs = if leb new 99 then new else 99 }

unfoldable pub slablist_set_reap_slabs : ℕ → Slablist → Slablist
slablist_set_reap_slabs new sl = record sl { sl_mslabs = new }

-- SL_REQ_MAX is 255.
unfoldable pub slablist_set_attach_req : ℕ → Slablist → Slablist
slablist_set_attach_req req sl = record sl { sl_req_sublayer = if leb req 255 then req else 255 }

unfoldable pub slablist_get_type : Slablist → ℕ
slablist_get_type sl = if slist_sorted sl.sl_flags then 128 else 0

-- What an addition returns, whether it ends with `attach_sublayer`, which puts a sublayer below the
-- list, and the list, of which nothing below it is told.
pub record Added : Type 0 where
  pub ret : Status
  pub attaches : Bool
  pub list : Slablist

-- Behind the last element of the last slab, which is `sl_end`.
pub add_end : Elem → ℕ → List Slab → Option (ℕ × List Slab)
add_end elem n [] = none
add_end elem n (s ∷ []) = some (
    if ltb s.s_elems selem_max
    then (
      n,
      record s { s_arr = write s.s_arr s.s_elems elem; s_max = elem; s_elems = add8 s.s_elems 1 }
          ∷ [],
    )
    else (
      add64 n 1,
      s
          ∷ (record mk_slab {
            s_arr = write mk_slab.s_arr 0 elem;
            s_min = elem;
            s_max = elem;
            s_elems = 1;
          }
              ∷ []),
    ))
add_end elem n (s ∷ (t ∷ r)) = elim (add_end elem n (t ∷ r)) [
  | none ↦ none
  | some (n', r') ↦ some (n', s ∷ r')
]

-- The end of an addition: the element counts unless it was refused.
abbrev pub told : Insert.How → Bool → Slablist → Head → Added
told how attaches sl head = elim how [
  | Insert.edup ↦ record { ret = edup; attaches = attaches; list = record sl { sl_head = head } }
  | _ ↦ record {
    ret = success;
    attaches = attaches;
    list = record sl { sl_head = head; sl_elems = add64 sl.sl_elems 1 };
  }
]

-- try_reap_all, on what the list became.
unfoldable pub reaped : (ℕ → ℕ → ℕ → Bool) → Slablist → ℕ → List Slab → Option Head
reaped enough sl n ss = elim (try_reap enough sl.sl_mslabs sl.sl_mpslabs sl.sl_elems n ss) [
  | none ↦ none
  | some (n', ss') ↦ some (chain n' ss')
]

-- At the slab that the search found, of a sorted list.
unfoldable pub add_found :
    Callbacks → (ℕ → ℕ → ℕ → Bool) → Elem → Bool → Slablist → Sign × Place → Option Added
add_found cb enough elem rep sl (fs, p) =
    let (c, q) = slab_gen_add cb (slist_is_sorting_temp sl.sl_flags) elem rep fs p in
    let attaches = not (sl.sl_req_sublayer == 0) && leb sl.sl_req_sublayer q.sl_slabs in
    elim (reaped enough sl q.sl_slabs (slabs q)) [
      | none ↦ none
      | some head ↦ some (told c.ac_how attaches sl head)
    ]

module _ (cb : Callbacks) (enough : ℕ → ℕ → ℕ → Bool) where
  -- From the branch on SLIST_SORTED on.
  pub slab_list_add : Elem → Bool → Slablist → ℕ → List Slab → Option Added
  slab_list_add elem rep sl n [] = none
  slab_list_add elem rep sl n (s ∷ ss) =
      if slist_sorted sl.sl_flags
      then (let sorting = slist_is_sorting_temp sl.sl_flags in
          add_found cb enough elem rep sl (find_linear_scan cb elem sorting (at n [] s ss)))
      else elim (add_end elem n (s ∷ ss)) [
        | none ↦ none
        | some (n', ss') ↦ elim (reaped enough sl n' ss') [
          | none ↦ none
          | some head ↦ some (record {
            ret = success;
            attaches = false;
            list = record sl { sl_head = head; sl_elems = add64 sl.sl_elems 1 };
          })
        ]
      ]

  -- The small list is given `rep = 0`.
  unfoldable pub slablist_add_impl : Elem → Bool → Slablist → Option Added
  slablist_add_impl elem rep sl = elim sl.sl_head [
    | small nodes ↦
        if leb sl.sl_elems (smelem_max - 1)
        then elim (small_list_add cb (slist_sorted sl.sl_flags) false elem
            (record { nodes = nodes; sl_elems = sl.sl_elems })) [
              | none ↦ none
              | some a ↦ some (record {
                ret = a.ret;
                attaches = false;
                list = record sl { sl_head = small a.list.nodes; sl_elems = a.list.sl_elems };
              })
            ]
        else if sl.sl_elems == smelem_max
        then slab_list_add elem rep sl 1 (small_list_to_slab nodes ∷ [])
        else none
    | chain n ss ↦ slab_list_add elem rep sl n ss
  ]
