-- ===== src/Search/Bounds.antt =====
-- The index that the search of a slab returns, whatever the callbacks answer.
use libslablist.Prelude.{
  Option, none, some, if◌then◌else◌, ℕ, zero, suc, ◌+◌, ◌-◌, ◌/◌, ◌≤◌, ◌<◌, Bool, leb,
  if◌then◌else◌, arith,
}
use libslablist.Callbacks.{Elem, Callbacks}
use libslablist.Slab.{Slab}
use libslablist.Search.{
  Probe, hit, miss, bin_loop, last_loop, slab_get_last_elem, past_equals, settle, ended,
  slab_bin_srch,
}

module _ (cb : Callbacks) (e : Elem) where
  abbrev Within : ℕ → Option Probe → Type 0
  Within n none = Unit
  Within n (some (hit m)) = m < n
  Within n (some (miss m)) = m ≤ n

  bin_loop-Within :
      (f : ℕ) (arr : ℕ → Elem) (n lo hi : ℕ)
      → lo ≤ n
      → hi ≤ n
      → Within n (bin_loop cb e f arr lo hi)
  unfolding bin_loop
  bin_loop-Within zero arr n lo hi p q = ground (arith, p)
  bin_loop-Within (suc f) arr n lo hi p q = ground (
    arith,
    bin_loop-Within f arr n ((lo + hi - 1) / 2 + 1) hi,
    bin_loop-Within f arr n lo ((lo + hi - 1) / 2),
  )

  last_loop_bound :
      (rounds : ℕ) (arr : ℕ → Elem) (n j : ℕ) → j + rounds ≤ n → last_loop cb e rounds arr j ≤ n
  unfolding last_loop
  last_loop_bound zero arr n j h = omega (arith, h)
  last_loop_bound (suc rounds) arr n j h = ground (arith, last_loop_bound rounds arr n (j + 1))

  past_bound :
      (sorting : Bool) (s : Slab) (i : ℕ) → i ≤ s.s_elems → past_equals cb e sorting s i ≤ s.s_elems
  unfolding past_equals slab_get_last_elem
  past_bound sorting s i h = ground (arith, last_loop_bound (s.s_elems - i) s.s_arr s.s_elems i)

  ended_bound :
      (sorting : Bool) (s : Slab) (p : Option Probe)
      → 0 < s.s_elems
      → Within s.s_elems p
      → ended cb e sorting s p ≤ s.s_elems
  unfolding ended settle
  ended_bound sorting s none used w = omega arith
  ended_bound sorting s (some (hit m)) used w = past_bound sorting s m (omega (arith, w))
  ended_bound sorting s (some (miss m)) used w = ground (
    arith,
    w,
    past_bound sorting s (if leb s.s_elems m then s.s_elems - 1 else m),
    past_bound sorting s ((if leb s.s_elems m then s.s_elems - 1 else m) + 1),
  )

  -- The binary search of a slab that holds an element returns an index of no more than its count,
  -- whatever the callbacks answer, and whether or not the cells are in order and the list is used
  -- for sorting.
  pub slab_bin_srch_bound :
      (sorting : Bool) (s : Slab) → 0 < s.s_elems → slab_bin_srch cb e sorting s ≤ s.s_elems
  unfolding slab_bin_srch
  slab_bin_srch_bound sorting s used =
      ended_bound sorting s _ used
        (bin_loop-Within s.s_elems s.s_arr s.s_elems 0 s.s_elems (omega arith) (omega arith))
