-- ===== src/Scan.antt =====
-- The linear search for a slab, of src/slablist_find.c: list_get_last_slab and find_linear_scan. It is
-- the search of a list that has no sublayers.
pub mod Found
use libslablist.Prelude.{ℕ, zero, suc, List, [], ◌∷◌, Bool, true, false, if◌then◌else◌}
use libslablist.Callbacks.{Elem, Sign, Callbacks, under, same, over}
use libslablist.Slab.{Slab}
use libslablist.Chain.{Place}

module _ (cb : Callbacks) (elem : Elem) where
  -- FS_* of the slab.
  abbrev pub status : Slab → Sign
  status s = cb.bnd elem s.s_min s.s_max

  pub last_slab : ℕ → List Slab → Slab → List Slab → Place
  last_slab n b s [] = record { sl_slabs = n; before = b; cur = s; after = [] }
  last_slab n b s (t ∷ ss) = elim (status t) [
    | under ↦ record { sl_slabs = n; before = b; cur = s; after = t ∷ ss }
    | _ ↦ last_slab n (s ∷ b) t ss
  ]

  unfoldable pub list_get_last_slab : Place → Place
  unfolding last_slab
  list_get_last_slab p = last_slab p.sl_slabs p.before p.cur p.after

  -- The first argument is what is left of `while (i < sl_slabs)`; `r` is the status last seen.
  unfoldable pub scan_loop : ℕ → ℕ → Sign → List Slab → Slab → List Slab → Sign × Place
  scan_loop zero n r b s ss = (r, record { sl_slabs = n; before = b; cur = s; after = ss })
  scan_loop (suc k) n r b s [] =
      (status s, record { sl_slabs = n; before = b; cur = s; after = [] })
  scan_loop (suc k) n r b s (t ∷ ss) = elim (status s) [
    | over ↦ scan_loop k n over (s ∷ b) t ss
    | r' ↦ (r', record { sl_slabs = n; before = b; cur = s; after = t ∷ ss })
  ]

  -- After the loop: in a list that is used for sorting, on to the last slab that can hold the element.
  pub skip_run : Bool → Sign × Place → Sign × Place
  unfolding list_get_last_slab
  skip_run false found = found
  skip_run true (same, p) =
      let q = list_get_last_slab p in
      elim (cb.cmp elem q.cur.s_max) [ same ↦ (over, q) | _ ↦ (same, q) ]
  skip_run true (r, p) = (r, p)

  -- From the head slab.
  unfoldable pub find_linear_scan : Bool → Place → Sign × Place
  unfolding scan_loop skip_run
  find_linear_scan sorting p =
      let r = status p.cur in
      let found = skip_run sorting (scan_loop p.sl_slabs p.sl_slabs r p.before p.cur p.after) in
      if sorting then found else elim r [ over ↦ found | r' ↦ (r', p) ]
