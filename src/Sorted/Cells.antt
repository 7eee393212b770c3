-- ===== src/Sorted/Cells.antt =====
-- The elements of a run of cells, cell by cell.
use libslablist.Prelude.{ℕ, zero, suc, ◌+◌, ◌<◌, ◌≤◌, ◌≡◌, All, arith, slice, dec_lt}
use libslablist.Callbacks.{Elem}
use libslablist.Search.Order.{Rises}
use libslablist.Sorted.{Ascends}

module _ {κ} {A : Type 0} (P : A → Type κ) (f : ℕ → A) where
  pub All-slice : (i n : ℕ) → ((k : ℕ) → i ≤ k → k < i + n → P (f k)) → All P (slice f i n)
  All-slice i zero h = tt
  All-slice i (suc n) h = (
    h i (omega arith) (omega arith),
    All-slice (suc i) n (λ k p q. h k (omega arith) (omega arith)),
  )

  pub All-at : (i n k : ℕ) → All P (slice f i n) → i ≤ k → k < i + n → P (f k)
  All-at i zero k h p q = absurd (omega arith)
  All-at i (suc n) k h p q = elim (dec_lt i k) [
    | yes l ↦ All-at (suc i) n k h.1 (omega arith) (omega arith)
    | no l ↦ let e : k ≡ i = omega arith in rw e h.0
  ]

module _ (rank : ℕ → ℕ) (f : ℕ → Elem) where
  Ascends-at :
      (i n j k : ℕ)
      → Ascends rank (slice f i n)
      → i ≤ j
      → j < k
      → k < i + n
      → rank (f j) < rank (f k)
  Ascends-at i zero j k h p q l = absurd (omega arith)
  Ascends-at i (suc n) j k h p q l = elim (dec_lt i j) [
    | yes m ↦ Ascends-at (suc i) n j k h.1 (omega arith) q (omega arith)
    | no m ↦
        let e : j ≡ i = omega arith in
        rw e (All-at (λ x. rank (f i) < rank x) f (suc i) n k h.0 (omega arith) (omega arith))
  ]

  -- The elements of the slab rise where its cells do.
  pub Ascends→Rises : (n : ℕ) → Ascends rank (slice f 0 n) → Rises rank f n
  Ascends→Rises n h i j p q = Ascends-at 0 n i j h (omega arith) p (omega arith)
