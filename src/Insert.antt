-- ===== src/Insert.antt =====
-- Adding an element at a slab that was found, of src/slablist_add.c: gen_add_ira, gen_add_ura,
-- gen_add_ora and slab_gen_add, in a list without sublayers: there every `ripple_*` returns at once,
-- since `s_below` is NULL.
pub mod Branches
pub mod Spills
pub mod Sort
pub mod Edges
pub mod Total
pub mod Outcome
use libslablist.Prelude.{
  ℕ, ◌+◌, List, [], ◌∷◌, Bool, true, false, not, ◌&&◌, ◌||◌, ltb, if◌then◌else◌, write,
}
use libslablist.Callbacks.{Elem, Sign, Callbacks, under, same, over}
use libslablist.Slab.{Slab, mk_slab, selem_max, add_elem, addsn, addsp}
use libslablist.Search.{slab_bin_srch}
use libslablist.Chain.{Place, link_after, link_before, has_room, is_full}

-- AC_HOW_*
pub data How : Type 0 where
  into sp_nx sp_pv before_it after_it edup : How

-- `add_ctx_t`; `ac_new` says that `ac_slab_new` is set. `ac_subslab_new` and `ac_subslab_common`
-- stay NULL at the top layer.
pub record AddCtx : Type 0 where
  pub ac_how : How
  pub ac_new : Bool
  pub ac_repd_elem : Elem

abbrev pub ctx : How → Bool → AddCtx
ctx how new = record { ac_how = how; ac_new = new; ac_repd_elem = 0 }

-- What `bzero` leaves: AC_HOW_INTO is 0.
abbrev pub zero_ctx : AddCtx
zero_ctx = ctx into false

abbrev pub is_same : Sign → Bool
is_same same = true
is_same _ = false

-- addsn (s, elem, i), and addsp: with no neighbour, which no caller has, nothing.
unfoldable pub spill_next : Elem → ℕ → Place → Place
spill_next elem i p = elim p.after [
  | [] ↦ p
  | snx ∷ rest ↦ let (s, snx') = addsn p.cur snx elem i in record p { cur = s; after = snx' ∷ rest }
]

unfoldable pub spill_prev : Elem → ℕ → Place → Place
spill_prev elem i p = elim p.before [
  | [] ↦ p
  | spv ∷ rest ↦
      let (spv', s) = addsp spv p.cur elem i in record p { before = spv' ∷ rest; cur = s }
]

-- The slab is full: a neighbour takes an end element.
pub ira_spill : Elem → ℕ → Place → AddCtx × Place
unfolding spill_next spill_prev link_after link_before
ira_spill e i p =
    if has_room p.after
    then (ctx sp_nx false, spill_next e i p)
    else if has_room p.before
    then (ctx sp_pv false, spill_prev e i p)
    else if is_full p.after
    then (ctx sp_nx true, spill_next e i (link_after mk_slab p))
    else if is_full p.before
    then (ctx sp_pv true, spill_prev e i (link_before mk_slab p))
    else (zero_ctx, p)

module _ (cb : Callbacks) (sorting rep : Bool) (elem : Elem) where
  -- Adding into the slab itself, or replacing.
  pub ira_into : ℕ → Place → AddCtx × Place
  ira_into i p =
      let old = p.cur.s_arr i in
      if not sorting && is_same (cb.cmp old elem)
      then (
        record (ctx into false) { ac_repd_elem = old },
        record p { cur = record (p.cur) { s_arr = write p.cur.s_arr i elem } },
      )
      else (ctx into false, record p { cur = add_elem p.cur elem i })

  unfoldable pub gen_add_ira : Place → AddCtx × Place
  unfolding ira_into ira_spill
  gen_add_ira p =
      let i = slab_bin_srch cb elem sorting p.cur in
      let at = p.cur.s_arr i in
      let swap = sorting && is_same (cb.cmp elem at) in
      let swapped = record p { cur = record (p.cur) { s_arr = write p.cur.s_arr i elem } } in
      if not sorting && not rep && is_same (cb.cmp elem at)
      then (ctx edup false, p)
      else if ltb p.cur.s_elems selem_max || rep
      then ira_into i p
      else if swap
      then ira_spill at i swapped
      else ira_spill elem i p

-- Adding into the slab before or after.
pub add_before : Elem → ℕ → Place → Place
add_before elem i p = elim p.before [
  | [] ↦ p
  | spv ∷ rest ↦ record p { before = add_elem spv elem i ∷ rest }
]

pub add_after : Elem → ℕ → Place → Place
add_after elem i p = elim p.after [
  | [] ↦ p
  | snx ∷ rest ↦ record p { after = add_elem snx elem i ∷ rest }
]

-- With no room in the slab, nor in the nearer neighbour.
pub ura_rest : Elem → ℕ → Place → AddCtx × Place
unfolding spill_next add_before link_before
ura_rest elem i p =
    if has_room p.after
    then (ctx sp_nx false, spill_next elem i p)
    else (ctx before_it true, add_before elem 0 (link_before mk_slab p))

pub ora_rest : Elem → ℕ → Place → AddCtx × Place
unfolding spill_prev add_after link_after
ora_rest elem i p =
    if has_room p.before
    then (ctx sp_pv false, spill_prev elem i p)
    else (ctx after_it true, add_after elem 0 (link_after mk_slab p))

module _ (cb : Callbacks) (sorting : Bool) (elem : Elem) where
  -- slab_bin_srch (elem, s->s_prev) and its like, where there is that slab.
  pub srch_in : List Slab → ℕ
  srch_in [] = 0
  srch_in (s ∷ _) = slab_bin_srch cb elem sorting s

  unfoldable pub gen_add_ura : Place → AddCtx × Place
  unfolding add_before srch_in ura_rest
  gen_add_ura p =
      let i = slab_bin_srch cb elem sorting p.cur in
      if ltb p.cur.s_elems selem_max
      then (ctx into false, record p { cur = add_elem p.cur elem i })
      else if has_room p.before
      then (ctx before_it false, add_before elem (srch_in p.before) p)
      else ura_rest elem i p

  unfoldable pub gen_add_ora : Place → AddCtx × Place
  unfolding add_after srch_in ora_rest
  gen_add_ora p =
      let i = slab_bin_srch cb elem sorting p.cur in
      if ltb p.cur.s_elems selem_max
      then (ctx into false, record p { cur = add_elem p.cur elem i })
      else if has_room p.after
      then (ctx after_it false, add_after elem (srch_in p.after) p)
      else ora_rest elem i p

  unfoldable pub slab_gen_add : Bool → Sign → Place → AddCtx × Place
  unfolding gen_add_ira gen_add_ora gen_add_ura
  slab_gen_add rep same p = gen_add_ira cb sorting rep elem p
  slab_gen_add rep over p = gen_add_ora p
  slab_gen_add rep under p = gen_add_ura p
