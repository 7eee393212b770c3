-- ===== src/Slablist/Rem/Absent.antt =====
-- A removal of a key that a sorted list of slabs does not hold.
use libslablist.Prelude.{ℕ, ◌≡◌, ◌≢◌, refl, Bool, true, false, Option, none, some, arith, ltb}
use libslablist.Callbacks.{Elem, Callbacks, Ranked}
use libslablist.Search.{slab_bin_srch}
use libslablist.Sorted.{find}
use libslablist.Chain.{Place, contents}
use libslablist.Insert.{is_same}
use libslablist.Insert.Sort.{split}
use libslablist.Insert.Total.{Stops, find-at}
use libslablist.Small.{enfound}
use libslablist.Slablist.{Slablist, slist_is_sorting_temp}
use libslablist.Slablist.Rem.{Removed, take_at, take_key}

module _ {cb : Callbacks} (r : Ranked cb) (enough : ℕ → ℕ → ℕ → Bool) (e : Elem)
    (sl : Slablist) where
  open r use {rank}

  -- SL_ENFOUND, and the list as it was.
  abbrev pub Refuses : Option Removed → Type 0
  Refuses res = res ≡ some (record { ret = enfound; rdl = none; list = sl })

  module _ (p : Place) (s : Stops r e p) (no_temp : slist_is_sorting_temp sl.sl_flags ≡ false)
      (absent : find cb e (contents p) ≡ none) where
    abbrev i : ℕ
    i = slab_bin_srch cb e false p.cur

    -- In use the cell differs, so an equal cell is the one behind the last.
    equal_unused : is_same (cb.cmp (p.cur.s_arr i) e) ≡ true → i ≡ p.cur.s_elems
    equal_unused h = ground (
      arith,
      find-at r e p s,
      (split r e p s.whole s.asc).0,
      r.cmp_rank e (p.cur.s_arr i),
      r.cmp_rank (p.cur.s_arr i) e,
    )

    refused : is_same (cb.cmp (p.cur.s_arr i) e) ≡ false → Refuses (take_key enough sl cb e p)
    unfolding take_key
    refused h = rw (no_temp, h, take_key) refl

    faulted : is_same (cb.cmp (p.cur.s_arr i) e) ≡ true → take_key enough sl cb e p ≡ none
    unfolding take_key take_at
    faulted h =
        let outside : ltb i p.cur.s_elems ≡ false = ground (arith, equal_unused h) in
        rw (no_temp, h, take_key, outside) refl

    -- At the slab where the search for a key stops that the sorted list of slabs does not hold,
    -- slablist_rem returns SL_ENFOUND and leaves the list, unless the cell behind the last one of
    -- the slab holds an equal element: where the search of the slab ends at that cell, the removal
    -- then takes it for an element and leaves the slab.
    pub take_key_absent :
        (rank (p.cur.s_arr p.cur.s_elems) ≢ rank e → Refuses (take_key enough sl cb e p))
        × (i ≡ p.cur.s_elems
            → rank (p.cur.s_arr p.cur.s_elems) ≡ rank e
            → take_key enough sl cb e p ≡ none)
    take_key_absent = (
      λ h. refused (ground (arith, equal_unused, r.cmp_rank (p.cur.s_arr i) e)),
      λ k h. faulted (ground (arith, r.cmp_rank (p.cur.s_arr i) e)),
    )
