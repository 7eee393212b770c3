-- ===== src/Search.antt =====
-- Searching one slab, of src/slablist_find.c: slab_get_last_elem, slab_bin_srch, slab_lin_srch.
-- `sorting` is the test SLIST_IS_SORTING_TEMP of the list. The `int`s of the binary search are
-- `lo = min` and `hi = max + 1`, since `max` may be -1.
pub mod Order
pub mod Place
pub mod Rounds
pub mod Bounds
use libslablist.Prelude.{
  ℕ, zero, suc, ◌+◌, ◌-◌, ◌/◌, Bool, true, false, Option, none, some, leb, ltb, if◌then◌else◌,
}
use libslablist.Callbacks.{Elem, Sign, Callbacks, under, same, over}
use libslablist.Slab.{Slab}

-- How the loop of the binary search ends.
pub data Probe : Type 0 where
  hit : ℕ → Probe
  miss : ℕ → Probe

module _ (cb : Callbacks) (elem : Elem) where
  -- The rounds left are the first argument.
  unfoldable pub last_loop : ℕ → (ℕ → Elem) → ℕ → ℕ
  last_loop zero arr j = j
  last_loop (suc n) arr j = elim (cb.cmp elem (arr j)) [ under ↦ j | _ ↦ last_loop n arr (j + 1) ]

  unfoldable pub slab_get_last_elem : Slab → ℕ → ℕ
  unfolding last_loop
  slab_get_last_elem s i = last_loop (s.s_elems - i) s.s_arr i

  -- On fuel: `none` is a loop that has not ended when the fuel is spent.
  unfoldable pub bin_loop : ℕ → (ℕ → Elem) → ℕ → ℕ → Option Probe
  bin_loop zero arr lo hi = if ltb lo hi then none else some (miss lo)
  bin_loop (suc f) arr lo hi =
      let mid = (lo + hi - 1) / 2 in
      elim (ltb lo hi) [
        | true ↦ elim (cb.cmp elem (arr mid)) [
          | over ↦ bin_loop f arr (mid + 1) hi
          | under ↦ bin_loop f arr lo mid
          | same ↦ some (hit mid)
        ]
        | false ↦ some (miss lo)
      ]

  -- The duplicates are passed over only in a list that is used for sorting.
  unfoldable pub past_equals : Bool → Slab → ℕ → ℕ
  past_equals sorting s i = if sorting then slab_get_last_elem s i else i

  -- What is done with the end of the loop. For an empty slab, which no caller has, the source reads
  -- `s_arr[-1]`.
  unfoldable pub settle : Bool → Slab → Probe → ℕ
  unfolding past_equals
  settle sorting s (hit mid) = past_equals sorting s mid
  settle sorting s (miss lo) =
      let min = if leb s.s_elems lo then s.s_elems - 1 else lo in
      elim (cb.cmp elem (s.s_arr min)) [
        | over ↦ past_equals sorting s (min + 1)
        | _ ↦ past_equals sorting s min
      ]

  -- The index by how the loop ended. The search has the fuel to end, so the 0 for a loop that has not
  -- is never its result.
  unfoldable pub ended : Bool → Slab → Option Probe → ℕ
  unfolding settle
  ended sorting s none = 0
  ended sorting s (some p) = settle sorting s p

  unfoldable pub slab_bin_srch : Bool → Slab → ℕ
  unfolding ended bin_loop slab_get_last_elem
  slab_bin_srch sorting s = ended sorting s (bin_loop s.s_elems s.s_arr 0 s.s_elems)

  pub lin_loop : ℕ → (ℕ → Elem) → ℕ → ℕ
  lin_loop zero arr i = i
  lin_loop (suc n) arr i = elim (cb.cmp elem (arr i)) [ over ↦ lin_loop n arr (i + 1) | _ ↦ i ]

  unfoldable pub slab_lin_srch : Bool → Slab → ℕ
  unfolding past_equals lin_loop slab_get_last_elem
  slab_lin_srch sorting s = past_equals sorting s (lin_loop s.s_elems s.s_arr 0)
