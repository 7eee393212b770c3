-- ===== src/Small.antt =====
-- The singly linked list that holds up to SMELEM_MAX elements: small_list_add (src/slablist_add.c),
-- small_list_rem (src/slablist_rem.c), link_sml_node and unlink_sml_node (src/slablist_cons.c), and
-- the conversions small_list_to_slab and slab_to_small_list. The nodes from `sl_head` on are a list,
-- whose last is `sl_end`, and `sl_elems` stands beside it. `none` is an access through NULL. The
-- conversion to a slab is for a list that is counted.
pub mod Nodes
pub mod Takes
pub mod Convert
use libslablist.Prelude.{
  ℕ, zero, suc, ◌+◌, ◌-◌, ◌%◌, List, [], ◌∷◌, ◌++◌, Bool, true, false, Option, none, some, ltb,
  ◌==◌, ◌&&◌, not, if◌then◌else◌, add8, add64, sub64, write,
}
use libslablist.Callbacks.{Elem, Callbacks, under, same, over}
use libslablist.Slab.{Slab, mk_slab}

-- SMELEM_MAX
abbrev pub smelem_max : ℕ
smelem_max = 60

-- The SL_* that these functions return.
pub data Status : Type 0 where
  success enfound argord empty encirc edup : Status

-- `sl_head` with its nodes, and `sl_elems`.
pub record Small : Type 0 where
  pub nodes : List Elem
  pub sl_elems : ℕ

-- What an addition returns and stores through `repd_elem`.
pub record SmallAdd : Type 0 where
  pub ret : Status
  pub repd : Option Elem
  pub list : Small

module _ (cb : Callbacks) where
  -- The loop of a sorted list, with the rounds left of `sl_elems`. A replacement does not leave the
  -- loop. After it the element goes to the end, whether or not nodes are left.
  unfoldable pub add_sorted :
      Bool → Elem → ℕ → List Elem → Option (Status × Option Elem × List Elem)
  add_sorted rep elem zero xs = some (success, none, xs ++ (elem ∷ []))
  add_sorted rep elem (suc k) [] = none
  add_sorted rep elem (suc k) (x ∷ xs) =
      let rest = add_sorted rep elem k xs in
      elim (cb.cmp elem x) [
        | under ↦ some (success, none, elem ∷ (x ∷ xs))
        | same ↦
            if rep
            then elim rest [
              | none ↦ none
              | some (ret, repd, ys) ↦
                  some (ret, elim repd [ none ↦ some x | some y ↦ some y ], elem ∷ ys)
            ]
            else some (edup, none, x ∷ xs)
        | over ↦ elim rest [ none ↦ none | some (ret, repd, ys) ↦ some (ret, repd, x ∷ ys) ]
      ]

  -- `link_sml_node` counts, so the count rises with every way but SL_EDUP.
  unfoldable pub small_list_add : Bool → Bool → Elem → Small → Option SmallAdd
  unfolding add_sorted
  small_list_add sorted rep elem sl = elim sl.nodes [
    | [] ↦ some (record {
      ret = success;
      repd = none;
      list = record { nodes = elem ∷ []; sl_elems = add64 sl.sl_elems 1 };
    })
    | x ∷ xs ↦
        if sorted
        then elim (add_sorted rep elem sl.sl_elems (x ∷ xs)) [
          | none ↦ none
          | some (ret, repd, ys) ↦ some (record {
            ret = ret;
            repd = repd;
            list = record {
              nodes = ys;
              sl_elems = elim ret [ edup ↦ sl.sl_elems | _ ↦ add64 sl.sl_elems 1 ];
            };
          })
        ]
        else some (record {
          ret = success;
          repd = none;
          list = record { nodes = (x ∷ xs) ++ (elem ∷ []); sl_elems = add64 sl.sl_elems 1 };
        })
  ]

  -- The loop of a sorted removal, with the rounds left of `sl_elems`: the element taken out and the
  -- nodes that stay, or nothing where no round meets the key.
  unfoldable pub rem_sorted : Elem → ℕ → List Elem → Option (Option (Elem × List Elem))
  rem_sorted elem zero xs = some none
  rem_sorted elem (suc k) [] = none
  rem_sorted elem (suc k) (x ∷ xs) =
      let rest = rem_sorted elem k xs in
      elim (cb.cmp elem x) [
        | same ↦ some (some (x, xs))
        | _ ↦ elim rest [
          | none ↦ none
          | some none ↦ some none
          | some (some (y, ys)) ↦ some (some (y, x ∷ ys))
        ]
      ]

-- `while (i < mod) sml = sml->sml_next`, then the node is unlinked. `none` is a step past the end.
unfoldable pub take_out : ℕ → List Elem → Option (Elem × List Elem)
take_out i [] = none
take_out zero (x ∷ xs) = some (x, xs)
take_out (suc i) (x ∷ xs) = elim (take_out i xs) [ none ↦ none | some (y, ys) ↦ some (y, x ∷ ys) ]

-- What a removal returns, stores through `rdl`, and leaves. `none` as a whole is a fault.
pub record SmallRem : Type 0 where
  pub ret : Status
  pub rdl : Option Elem
  pub list : Small

abbrev pub taken : Small → Elem × List Elem → SmallRem
taken sl (x, rest) = record {
  ret = success;
  rdl = some x;
  list = record { nodes = rest; sl_elems = sub64 sl.sl_elems 1 };
}

-- The position of an ordered list: past the count it goes round where the list is circular.
unfoldable pub small_list_rem : Callbacks → Bool → Bool → Elem → ℕ → Small → Option SmallRem
unfolding rem_sorted take_out
small_list_rem cb sorted circular elem pos sl = elim sl.nodes [
  | [] ↦ some (record { ret = empty; rdl = none; list = sl })
  | x ∷ xs ↦
      if sl.sl_elems == 0
      then some (record { ret = empty; rdl = none; list = sl })
      else if sorted
      then elim (rem_sorted cb elem sl.sl_elems (x ∷ xs)) [
        | none ↦ none
        | some none ↦ some (record { ret = enfound; rdl = some 0; list = sl })
        | some (some t) ↦ some (taken sl t)
      ]
      else if ltb sl.sl_elems pos && not circular
      then some (record { ret = encirc; rdl = none; list = sl })
      else elim (take_out (if ltb sl.sl_elems pos then pos % sl.sl_elems else pos) (x ∷ xs)) [
        | none ↦ none
        | some t ↦ some (taken sl t)
      ]
]

-- `s->s_arr[i] = sml->sml_data; s->s_elems++`, node by node.
unfoldable pub fill : ℕ → List Elem → Slab → Slab
fill i [] s = s
fill i (x ∷ xs) s =
    fill (suc i) xs (record s { s_elems = add8 s.s_elems 1; s_arr = write s.s_arr i x })

unfoldable pub small_list_to_slab : List Elem → Slab
unfolding fill
small_list_to_slab nodes =
    let s = fill 0 nodes mk_slab in record s { s_min = s.s_arr 0; s_max = s.s_arr (s.s_elems - 1) }

-- The elements of the slab are added one by one to the emptied list.
unfoldable pub add_cells : Callbacks → Bool → ℕ → ℕ → (ℕ → Elem) → Small → Option Small
add_cells cb sorted zero i arr sl = some sl
add_cells cb sorted (suc n) i arr sl = elim (small_list_add cb sorted false (arr i) sl) [
  | none ↦ none
  | some a ↦ add_cells cb sorted n (suc i) arr a.list
]

unfoldable pub slab_to_small_list : Callbacks → Bool → Slab → Option Small
unfolding add_cells small_list_add
slab_to_small_list cb sorted h =
    add_cells cb sorted h.s_elems 0 h.s_arr (record { nodes = []; sl_elems = 0 })
