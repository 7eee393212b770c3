-- ===== src/Examples/Searches.antt =====
-- The rounds and reads of the search of a slab, and the comparison of two lists.
use libslablist.Prelude.{
  ℕ, ◌*◌, ◌≤◌, ◌≡◌, refl, [], ◌∷◌, true, false, some, arith, if◌then◌else◌, ltb,
}
use libslablist.Search.{Probe, bin_loop, settle, slab_bin_srch}
use libslablist.Search.Bounds.{slab_bin_srch_bound}
use libslablist.Search.Rounds.{slab_bin_srch_rounds, slab_bin_srch_reads}
use libslablist.Slablist.{Slablist, chain}
use libslablist.Compare.{slablist_cmp}
use libslablist.Compare.Blind.{slablist_cmp_blind}
use libslablist.Examples.{numbers, numbers_ranked, ramp, slab_list}

slab_bin_srch_rounds_example :
    (p : Probe) × (bin_loop numbers 7 7 (ramp 0 121).s_arr 0 121 ≡ some p)
    × (slab_bin_srch numbers 7 false (ramp 0 121) ≡ settle numbers 7 false (ramp 0 121) p)
slab_bin_srch_rounds_example = slab_bin_srch_rounds numbers 7 false (ramp 0 121) (omega arith)

abbrev stale : ℕ → ℕ
stale k = if ltb k 10 then 2 * k else 99

slab_bin_srch_reads_example :
    slab_bin_srch numbers 7 false (record (ramp 0 10) { s_arr = stale })
    ≡ slab_bin_srch numbers 7 false (ramp 0 10)
slab_bin_srch_reads_example =
    slab_bin_srch_reads numbers 7 false (ramp 0 10) stale (λ k p. ground arith) (omega arith)

-- 1, 3, … 121 and 301, 303, … 421.
abbrev odd_list : Slablist
odd_list = record (slab_list 128) { sl_head = chain 2 (ramp 1 61 ∷ (ramp 301 61 ∷ [])) }

slablist_cmp_blind_example : slablist_cmp numbers (slab_list 128) odd_list ≡ some false
slablist_cmp_blind_example =
    slablist_cmp_blind numbers_ranked (slab_list 128) odd_list 2 2 (ramp 0 61) (ramp 200 61 ∷ [])
      (ramp 1 61) (ramp 301 61 ∷ []) refl refl refl (omega arith, (omega arith, tt)) refl refl
      (omega arith)

slab_bin_srch_bound_example : slab_bin_srch numbers 300 true (ramp 0 121) ≤ 121
slab_bin_srch_bound_example = slab_bin_srch_bound numbers 300 true (ramp 0 121) (omega arith)
