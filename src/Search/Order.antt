-- ===== src/Search/Order.antt =====
-- Sorted slabs, and the loops of the searches.
use libslablist.Prelude.{
  Option, none, some, ℕ, zero, suc, ◌+◌, ◌-◌, ◌/◌, ◌≤◌, ◌<◌, ◌≡◌, arith, dec_lt,
}
use libslablist.Callbacks.{Elem, Callbacks, Ranked}
use libslablist.Search.{Probe, hit, miss, bin_loop, lin_loop, last_loop}

-- The first `n` cells do not fall, and they rise: no two are equal.
abbrev pub Climbs : (ℕ → ℕ) → (ℕ → Elem) → ℕ → Type 0
Climbs rank arr n = (i j : ℕ) → i ≤ j → j < n → rank (arr i) ≤ rank (arr j)

abbrev pub Rises : (ℕ → ℕ) → (ℕ → Elem) → ℕ → Type 0
Rises rank arr n = (i j : ℕ) → i < j → j < n → rank (arr i) < rank (arr j)

pub Rises→Climbs : (rank : ℕ → ℕ) (arr : ℕ → Elem) (n : ℕ) → Rises rank arr n → Climbs rank arr n
Rises→Climbs rank arr n h i j p q = elim (dec_lt i j) [
  | yes l ↦ omega (arith, h i j l q)
  | no l ↦ let e : i ≡ j = omega arith in rw e (omega arith)
]

-- `i` is where `e` belongs among the first `n` cells: what stands before is less, what stands at
-- `i` or after is not.
abbrev pub Splits : (ℕ → ℕ) → Elem → (ℕ → Elem) → ℕ → ℕ → Type 0
Splits rank e arr n i =
    (i ≤ n)
    × ((k : ℕ) → k < i → rank (arr k) < rank e)
    × ((k : ℕ) → i ≤ k → k < n → rank e ≤ rank (arr k))

module _ {cb : Callbacks} (r : Ranked cb) (e : Elem) (arr : ℕ → Elem) (n : ℕ) where
  open r use {rank, cmp_rank}

  -- What each end of the loop tells, at one cell `k`.
  abbrev pub Tells : ℕ → Option Probe → Type 0
  Tells k none = ⊥
  Tells k (some (hit m)) = (m < n) × (rank (arr m) ≡ rank e)
  Tells k (some (miss m)) =
      (m ≤ n) × (k < m → rank (arr k) < rank e) × (m ≤ k → k < n → rank e < rank (arr k))

  pub bin_loop-Tells :
      (climbs : Climbs rank arr n) (f k lo hi : ℕ)
      → hi - lo ≤ f
      → lo ≤ hi
      → hi ≤ n
      → (k < lo → rank (arr k) < rank e)
      → (hi ≤ k → k < n → rank e < rank (arr k))
      → Tells k (bin_loop cb e f arr lo hi)
  unfolding bin_loop
  bin_loop-Tells climbs zero k lo hi fuel le in_n below above = ground arith
  bin_loop-Tells climbs (suc f) k lo hi fuel le in_n below above = ground (
    arith,
    cmp_rank e (arr ((lo + hi - 1) / 2)),
    climbs k ((lo + hi - 1) / 2),
    climbs ((lo + hi - 1) / 2) k,
    bin_loop-Tells climbs f k ((lo + hi - 1) / 2 + 1) hi,
    bin_loop-Tells climbs f k lo ((lo + hi - 1) / 2),
  )

  -- From a cell with nothing greater before it, the end of the run of equals.
  pub last_loop-Splits :
      (climbs : Climbs rank arr n) (f k j : ℕ)
      → f ≡ n - j
      → j ≤ n
      → (k < j → rank (arr k) ≤ rank e)
      → (last_loop cb e f arr j ≤ n)
        × (k < last_loop cb e f arr j → rank (arr k) ≤ rank e)
        × (last_loop cb e f arr j ≤ k → k < n → rank e < rank (arr k))
  unfolding last_loop
  last_loop-Splits climbs zero k j rest le below = ground arith
  last_loop-Splits climbs (suc f) k j rest le below =
      ground
        (arith, cmp_rank e (arr j), climbs j k, climbs k j, last_loop-Splits climbs f k (j + 1))

  pub lin_loop-Splits :
      (climbs : Climbs rank arr n) (f k j : ℕ)
      → f ≡ n - j
      → j ≤ n
      → (k < j → rank (arr k) < rank e)
      → (lin_loop cb e f arr j ≤ n)
        × (k < lin_loop cb e f arr j → rank (arr k) < rank e)
        × (lin_loop cb e f arr j ≤ k → k < n → rank e ≤ rank (arr k))
  unfolding lin_loop
  lin_loop-Splits climbs zero k j rest le below = ground arith
  lin_loop-Splits climbs (suc f) k j rest le below =
      ground (arith, cmp_rank e (arr j), climbs j k, climbs k j, lin_loop-Splits climbs f k (j + 1))
