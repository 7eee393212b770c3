-- ===== src/Layer/Order.antt =====
-- Well-formed subslabs, and what the search of one subslab finds.
use libslablist.Prelude.{
  ℕ, zero, suc, ◌+◌, ◌-◌, ◌/◌, ◌≤◌, ◌<◌, ◌≡◌, some, Bool, false, leb, ltb, arith, if◌then◌else◌,
}
use libslablist.Callbacks.{Elem, Callbacks, Ranked, bounds}
use libslablist.Search.{Probe, hit, miss}
use libslablist.Layer.{
  Subslab, Cell, Kind, kind, refs, subelem_max, status_of, sub_bin_loop, settle_sub,
  subslab_bin_srch, find_in_subslab,
}
use libslablist.Layer.Near.{nearest, nearest-slice}

-- A subslab in use: it is not empty and fits its array, its extrema are those of the end cells, and
-- the ranges of its cells follow one another. `Q` is what holds of each cell.
pub record IsOrdered (rank : ℕ → ℕ) {A : Type 0} (k : Kind A) (Q : A → Type 0) (s : Subslab A)
    : Type 0 where
  pub used : 0 < s.ss_elems
  pub fits : s.ss_elems ≤ subelem_max
  pub min_first : s.ss_min ≡ k.min_of (s.ss_arr 0)
  pub max_last : s.ss_max ≡ k.max_of (s.ss_arr (s.ss_elems - 1))
  pub each : (i : ℕ) → i < s.ss_elems → Q (s.ss_arr i)
  pub rises :
      (i j : ℕ)
      → i < j
      → j < s.ss_elems
      → rank (k.max_of (s.ss_arr i)) < rank (k.min_of (s.ss_arr j))

abbrev pub IsIndex : (ℕ → ℕ) → (n : ℕ) → Cell n → Type 0
IsIndex rank zero s = rank s.s_min ≤ rank s.s_max
IsIndex rank (suc n) s = IsOrdered rank (kind n) (IsIndex rank n) s

-- The element is not over the range.
abbrev pub reaches : (ℕ → ℕ) → Elem → {A : Type 0} → Kind A → A → Bool
reaches rank e k x = leb (rank e) (rank (k.max_of x))

pub min-le-max :
    (rank : ℕ → ℕ) (n : ℕ) (c : Cell n)
    → IsIndex rank n c
    → rank ((kind n).min_of c) ≤ rank ((kind n).max_of c)
min-le-max rank zero c v = v
min-le-max rank (suc n) c v = ground (
  arith,
  v.used,
  v.min_first,
  v.max_last,
  v.rises 0 (c.ss_elems - 1),
  min-le-max rank n (c.ss_arr 0) (v.each 0 v.used),
  min-le-max rank n (c.ss_arr (c.ss_elems - 1)) (v.each (c.ss_elems - 1) (omega (arith, v.used))),
)

module _ {cb : Callbacks} (r : Ranked cb) (e : Elem) {A : Type 0} (k : Kind A) where
  open r use {rank}

  -- What the loop knows of one cell `i` of `n`.
  abbrev pub Tells : (ℕ → A) → ℕ → ℕ → Probe → Type 0
  Tells arr n i (hit m) =
      (m < n) × (rank e ≤ rank (k.max_of (arr m))) × (i < m → rank (k.max_of (arr i)) < rank e)
  Tells arr n i (miss m) =
      (m ≤ n)
      × (i < m → rank (k.max_of (arr i)) < rank e)
      × (m ≤ i → i < n → rank e < rank (k.min_of (arr i)))

  module _ (arr : ℕ → A) (n : ℕ)
      (lows : (i : ℕ) → i < n → rank (k.min_of (arr i)) ≤ rank (k.max_of (arr i)))
      (rises : (i j : ℕ) → i < j → j < n → rank (k.max_of (arr i)) < rank (k.min_of (arr j))) where
    pub status_at :
        (i : ℕ)
        → i < n
        → status_of cb e k (arr i)
          ≡ bounds (rank e) (rank (k.min_of (arr i))) (rank (k.max_of (arr i)))
    status_at i h = r.bnd_rank e (k.min_of (arr i)) (k.max_of (arr i)) (lows i h)

    pub sub_bin_loop-Tells :
        (f i lo hi : ℕ)
        → hi - lo ≤ f
        → lo ≤ hi
        → hi ≤ n
        → (i < lo → rank (k.max_of (arr i)) < rank e)
        → (hi ≤ i → i < n → rank e < rank (k.min_of (arr i)))
        → Tells arr n i (sub_bin_loop cb e k f arr lo hi)
    unfolding sub_bin_loop
    sub_bin_loop-Tells zero i lo hi fuel le in_n below above = ground arith
    sub_bin_loop-Tells (suc f) i lo hi fuel le in_n below above = ground (
      arith,
      status_at ((lo + hi - 1) / 2),
      rises i ((lo + hi - 1) / 2),
      rises ((lo + hi - 1) / 2) i,
      lows i,
      lows ((lo + hi - 1) / 2),
      sub_bin_loop-Tells f i ((lo + hi - 1) / 2 + 1) hi,
      sub_bin_loop-Tells f i lo ((lo + hi - 1) / 2),
    )

  -- The place of what the search of a subslab finds: every cell before it is exceeded, and it is not,
  -- unless it is the last.
  abbrev Found : Subslab A → ℕ → ℕ → Type 0
  Found s i x =
      (x < s.ss_elems)
      × (i < x → rank (k.max_of (s.ss_arr i)) < rank e)
      × (suc x < s.ss_elems → rank e ≤ rank (k.max_of (s.ss_arr x)))

  module _ {Q : A → Type 0} (s : Subslab A) (v : IsOrdered rank k Q s)
      (lows : (i : ℕ)
        → i < s.ss_elems
        → rank (k.min_of (s.ss_arr i)) ≤ rank (k.max_of (s.ss_arr i))) where
    abbrev clamp : ℕ → ℕ
    clamp x = if ltb (s.ss_elems - 1) x then s.ss_elems - 1 else x

    settle_sub-Found :
        (p : Probe) (tells : (i : ℕ) → Tells s.ss_arr s.ss_elems i p) (i : ℕ)
        → Found s i (clamp (settle_sub cb e k false s p))
    unfolding settle_sub
    settle_sub-Found (hit m) tells i = ground (arith, tells i)
    settle_sub-Found (miss m) tells i = ground (
      arith,
      v.used,
      tells i,
      tells m,
      tells (s.ss_elems - 1),
      lows m,
      lows (s.ss_elems - 1),
      status_at s.ss_arr s.ss_elems lows v.rises m,
      status_at s.ss_arr s.ss_elems lows v.rises (s.ss_elems - 1),
    )

    settled_at : (i : ℕ) → Found s i (clamp (subslab_bin_srch cb e k false s))
    unfolding subslab_bin_srch
    settled_at = settle_sub-Found _ (λ i.
        sub_bin_loop-Tells s.ss_arr s.ss_elems lows v.rises s.ss_elems i 0 s.ss_elems (omega arith)
          (omega arith) (omega arith) (omega arith) (omega arith))

    pub nearest-find_in_subslab :
        nearest (reaches rank e k) (refs s) ≡ some (find_in_subslab cb e k false s).1
    unfolding find_in_subslab
    nearest-find_in_subslab =
        nearest-slice (reaches rank e k) s.ss_arr 0 s.ss_elems
          (clamp (subslab_bin_srch cb e k false s)) (omega arith) (omega (arith, (settled_at 0).0))
          (λ i p q. ground (arith, (settled_at i).1 q))
          (λ p. ground (arith, (settled_at 0).2 (omega arith)))

    -- What holds of every cell holds of what is found.
    pub find_in_subslab_holds : Q (find_in_subslab cb e k false s).1
    unfolding find_in_subslab
    find_in_subslab_holds = v.each (clamp (subslab_bin_srch cb e k false s)) (settled_at 0).0
