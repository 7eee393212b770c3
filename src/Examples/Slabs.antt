-- ===== src/Examples/Slabs.antt =====
-- The search of one slab.
use libslablist.Prelude.{ℕ, ◌≤◌, ◌<◌, ◌≡◌, true, false, arith}
use libslablist.Slab.{Slab}
use libslablist.Search.{slab_bin_srch, slab_lin_srch}
use libslablist.Search.Order.{Splits, Rises}
use libslablist.Search.Place.{slab_bin_srch-Splits, slab_bin_srch-lin_srch, slab_bin_srch_stable}
use libslablist.Examples.{numbers, numbers_ranked, ramp}

rises : Rises (λ x. x) (ramp 0 10).s_arr 10
rises i j p q = omega arith

slab_bin_srch-Splits_example :
    Splits (λ x. x) 7 (ramp 0 10).s_arr 10 (slab_bin_srch numbers 7 false (ramp 0 10))
slab_bin_srch-Splits_example = slab_bin_srch-Splits numbers_ranked 7 (ramp 0 10) rises (omega arith)

slab_bin_srch-lin_srch_example :
    slab_bin_srch numbers 8 false (ramp 0 10) ≡ slab_lin_srch numbers 8 false (ramp 0 10)
slab_bin_srch-lin_srch_example =
    slab_bin_srch-lin_srch numbers_ranked 8 (ramp 0 10) rises (omega arith)

-- 5, 5, 5: an equal element goes behind.
abbrev fives : Slab
fives = record { s_min = 5; s_max = 5; s_elems = 3; s_arr = λ _. 5 }

slab_bin_srch_stable_example :
    (slab_bin_srch numbers 5 true fives ≤ 3)
    × ((k : ℕ) → k < slab_bin_srch numbers 5 true fives → 5 ≤ 5)
    × ((k : ℕ) → slab_bin_srch numbers 5 true fives ≤ k → k < 3 → 5 < 5)
slab_bin_srch_stable_example =
    slab_bin_srch_stable numbers_ranked 5 fives (λ i j p q. omega arith) (omega arith)
