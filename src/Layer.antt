-- ===== src/Layer.antt =====
-- The sublayers: `subslab_t` of src/slablist_impl.h, and the search that starts at the baselayer, of
-- src/slablist_find.c (subslab_get_last_subslab, subslab_get_last_slab, subslab_bin_srch,
-- subslab_bin_srch_top, find_subslab_in_subslab, find_slab_in_subslab, list_get_last_subslab,
-- sub_find_linear_scan, find_bubble_up). A pointer up is what it points to, so `Cell n` is a slab for
-- `n = 0` and a subslab of the `n`-th sublayer above that. Each search of a subslab is written in the
-- source for subslabs of slabs and for subslabs of subslabs; `Kind` holds what the two differ in.
pub mod Near
pub mod Order
pub mod Bubble
pub mod Attach
pub mod Layered
pub mod Position
pub mod Edit
use libslablist.Prelude.{
  ℕ, zero, suc, ◌+◌, ◌-◌, ◌/◌, List, [], ◌∷◌, ◌++◌, map, Bool, true, false, leb, ltb, slice,
  if◌then◌else◌,
}
use libslablist.Callbacks.{Elem, Sign, Callbacks, under, same, over}
use libslablist.Slab.{Slab}
use libslablist.Search.{Probe, hit, miss}

-- SUBELEM_MAX
abbrev pub subelem_max : ℕ
subelem_max = 512

pub record Subslab (A : Type 0) : Type 0 where
  pub ss_min : Elem
  pub ss_max : Elem
  pub ss_elems : ℕ
  pub ss_usr_elems : ℕ
  pub ss_arr : ℕ → A

-- What a subslab points to.
abbrev pub Cell : ℕ → Type 0
Cell zero = Slab
Cell (suc n) = Subslab (Cell n)

-- What is read of a slab or subslab through such a pointer: the extrema and the elements of the user.
pub record Kind (A : Type 0) : Type 0 where
  pub min_of : A → Elem
  pub max_of : A → Elem
  pub elems_of : A → ℕ

abbrev pub kind : (n : ℕ) → Kind (Cell n)
kind zero = record { min_of = λ s. s.s_min; max_of = λ s. s.s_max; elems_of = λ s. s.s_elems }
kind (suc n) = record {
  min_of = λ s. s.ss_min;
  max_of = λ s. s.ss_max;
  elems_of = λ s. s.ss_usr_elems;
}

-- The pointers that a subslab holds.
abbrev pub refs : {A : Type 0} → Subslab A → List A
refs s = slice s.ss_arr 0 s.ss_elems

abbrev pub concat {ℓ} : {A : Type ℓ} → List (List A) → List A
concat [] = []
concat (xs ∷ r) = xs ++ concat r

-- The slabs of the toplayer that are reached from a slab or subslab.
abbrev pub tops : (n : ℕ) → Cell n → List Slab
tops zero s = s ∷ []
tops (suc n) s = concat (map (tops n) (refs s))

module _ (cb : Callbacks) (elem : Elem) {A : Type 0} (k : Kind A) where
  abbrev pub status_of : A → Sign
  status_of x = cb.bnd elem (k.min_of x) (k.max_of x)

  -- The rounds left are the first argument.
  pub run_loop : ℕ → (ℕ → A) → ℕ → ℕ
  run_loop zero arr j = j
  run_loop (suc n) arr j = elim (status_of (arr j)) [ under ↦ j | _ ↦ run_loop n arr (j + 1) ]

  -- subslab_get_last_subslab and subslab_get_last_slab.
  unfoldable pub subslab_get_last : Subslab A → ℕ → ℕ
  unfolding run_loop
  subslab_get_last s i =
      let j = run_loop (s.ss_elems - i) s.ss_arr i in if ltb 0 j then j - 1 else j

  -- The `int`s of the source are `lo = min` and `hi = max + 1`.
  unfoldable pub sub_bin_loop : ℕ → (ℕ → A) → ℕ → ℕ → Probe
  sub_bin_loop zero arr lo hi = miss lo
  sub_bin_loop (suc f) arr lo hi =
      let mid = (lo + hi - 1) / 2 in
      elim (ltb lo hi) [
        | true ↦ elim (status_of (arr mid)) [
          | over ↦ sub_bin_loop f arr (mid + 1) hi
          | under ↦ sub_bin_loop f arr lo mid
          | same ↦ hit mid
        ]
        | false ↦ miss lo
      ]

  pub past_run : Bool → Subslab A → ℕ → ℕ
  unfolding subslab_get_last
  past_run sorting s i = if sorting then subslab_get_last s i else i

  unfoldable pub settle_sub : Bool → Subslab A → Probe → ℕ
  unfolding past_run
  settle_sub sorting s (hit mid) = past_run sorting s mid
  settle_sub sorting s (miss lo) =
      let min = if leb s.ss_elems lo then s.ss_elems - 1 else lo in
      elim (status_of (s.ss_arr min)) [
        | over ↦ past_run sorting s (min + 1)
        | _ ↦ past_run sorting s min
      ]

  -- subslab_bin_srch and subslab_bin_srch_top.
  unfoldable pub subslab_bin_srch : Bool → Subslab A → ℕ
  unfolding settle_sub sub_bin_loop
  subslab_bin_srch sorting s = settle_sub sorting s (sub_bin_loop s.ss_elems s.ss_arr 0 s.ss_elems)

  -- The linear search that the tests compare with, subslab_lin_srch and subslab_lin_srch_top. The cell
  -- that is compared lags one round behind `i`.
  pub sub_lin_loop : ℕ → (ℕ → A) → A → ℕ → ℕ
  sub_lin_loop zero arr c i = i
  sub_lin_loop (suc n) arr c i = elim (status_of c) [
    | over ↦ sub_lin_loop n arr (arr i) (i + 1)
    | _ ↦ i
  ]

  unfoldable pub subslab_lin_srch : Bool → Subslab A → ℕ
  unfolding past_run sub_lin_loop
  subslab_lin_srch sorting s = past_run sorting s (sub_lin_loop s.ss_elems s.ss_arr (s.ss_arr 0) 0)

  -- find_subslab_in_subslab and find_slab_in_subslab: the status, and what was found.
  unfoldable pub find_in_subslab : Bool → Subslab A → Sign × A
  unfolding subslab_bin_srch
  find_in_subslab sorting s =
      let x = subslab_bin_srch sorting s in
      let x' = if sorting then x else if ltb (s.ss_elems - 1) x then s.ss_elems - 1 else x in
      let found = s.ss_arr x' in
      let r = status_of found in
      if sorting
      then elim r [
        | same ↦ elim (cb.cmp elem (k.max_of found)) [ same ↦ (over, found) | _ ↦ (same, found) ]
        | r' ↦ (r', found)
      ]
      else (r, found)

  -- list_get_last_subslab.
  pub last_sub : A → List A → A
  last_sub s [] = s
  last_sub s (t ∷ ss) = elim (status_of t) [ under ↦ s | _ ↦ last_sub t ss ]

  -- The first argument is what is left of `while (i < sl_slabs)`; `r` is the status last seen.
  pub sub_scan_loop : ℕ → Sign → A → List A → Sign × A × List A
  sub_scan_loop zero r s ss = (r, s, ss)
  sub_scan_loop (suc n) r s [] = (status_of s, s, [])
  sub_scan_loop (suc n) r s (t ∷ ss) = elim (status_of s) [
    | over ↦ sub_scan_loop n over t ss
    | r' ↦ (r', s, t ∷ ss)
  ]

  pub skip_sub_run : Bool → Sign × A × List A → Sign × A
  unfolding last_sub
  skip_sub_run sorting (same, s, ss) = (same, if sorting then last_sub s ss else s)
  skip_sub_run sorting (r, s, ss) = (r, s)

  -- From the head subslab of a layer with `n` subslabs.
  unfoldable pub sub_find_linear_scan : Bool → ℕ → A → List A → Sign × A
  unfolding sub_scan_loop skip_sub_run
  sub_find_linear_scan sorting n s ss =
      let r = status_of s in
      let found = skip_sub_run sorting (sub_scan_loop n r s ss) in
      if sorting then found else elim r [ over ↦ found | r' ↦ (r', s) ]

module _ (cb : Callbacks) (elem : Elem) (sorting : Bool) where
  -- Up through the sublayers, from a subslab that points to `n`-th cells.
  unfoldable pub bubble : (n : ℕ) → Cell (suc n) → Sign × Slab
  bubble zero found = find_in_subslab cb elem (kind zero) sorting found
  bubble (suc n) found = bubble n (find_in_subslab cb elem (kind (suc n)) sorting found).1

  -- With `sl_sublayers = suc n`, the baselayer of `m` subslabs from its head on.
  unfoldable pub find_bubble_up : (n m : ℕ) → Cell (suc n) → List (Cell (suc n)) → Sign × Slab
  unfolding sub_find_linear_scan bubble
  find_bubble_up n m s ss = bubble n (sub_find_linear_scan cb elem (kind (suc n)) sorting m s ss).1
