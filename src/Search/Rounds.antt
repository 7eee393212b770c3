-- ===== src/Search/Rounds.antt =====
-- How many rounds the binary search of a slab makes, and which cells it reads.
use libslablist.Prelude.{
  Option, none, some, Bool-cases, inl, inr, ltb, ℕ, zero, suc, ◌+◌, ◌-◌, ◌*◌, ◌/◌, ◌^◌, ◌≤◌, ◌<◌,
  ◌≡◌, refl, sym, ap, ◌∙◌, Bool, leb, arith, if◌then◌else◌,
}
use native.Mathlib.Numerals.{unary_clauses}
use libslablist.Callbacks.{Elem, Callbacks, Sign-cases}
use libslablist.Slab.{Slab, selem_max}
use libslablist.Search.{
  Probe, hit, miss, bin_loop, last_loop, slab_get_last_elem, past_equals, settle, ended,
  slab_bin_srch,
}

double : (f : ℕ) → 2 ^ suc f ≡ 2 * 2 ^ f
double f = simp unary_clauses (omega arith)

module _ (cb : Callbacks) (e : Elem) (arr : ℕ → Elem) where
  -- Fuel beyond the logarithm of the cells makes no difference.
  bin_loop_fuel :
      (f g lo hi : ℕ)
      → hi - lo < 2 ^ f
      → hi - lo ≤ g
      → bin_loop cb e f arr lo hi ≡ bin_loop cb e g arr lo hi
  unfolding bin_loop
  bin_loop_fuel zero zero lo hi h k = refl
  bin_loop_fuel zero (suc g) lo hi h k = ground arith
  bin_loop_fuel (suc f) zero lo hi h k = ground arith
  bin_loop_fuel (suc f) (suc g) lo hi h k = ground (
    arith,
    double f,
    bin_loop_fuel f g ((lo + hi - 1) / 2 + 1) hi,
    bin_loop_fuel f g lo ((lo + hi - 1) / 2),
  )

  bin_loop_ends :
      (f lo hi : ℕ) → hi - lo < 2 ^ f → (p : Probe) × (bin_loop cb e f arr lo hi ≡ some p)
  unfolding bin_loop
  bin_loop_ends zero lo hi h = (miss lo, ground arith)
  bin_loop_ends (suc f) lo hi h = elim (Bool-cases (ltb lo hi)) [
    | inr t ↦ (miss lo, rw (t, bin_loop) refl)
    | inl t ↦
        let mid = (lo + hi - 1) / 2 in
        elim (Sign-cases (cb.cmp e (arr mid))) [
          | inl o ↦
              let rest = bin_loop_ends f (mid + 1) hi (ground (arith, t, double f)) in
              (rest.0, rw (t, bin_loop) (rw (o, bin_loop) rest.1))
          | inr (inl o) ↦ (hit mid, rw (t, bin_loop) (rw (o, bin_loop) refl))
          | inr (inr o) ↦
              let rest = bin_loop_ends f lo mid (ground (arith, t, double f)) in
              (rest.0, rw (t, bin_loop) (rw (o, bin_loop) rest.1))
        ]
  ]

-- A slab is searched in at most seven rounds: for a slab that fits its array, the loop of
-- slab_bin_srch has ended within seven rounds, and the index that the search returns is the one
-- that this end of the loop leads to.
pub slab_bin_srch_rounds :
    (cb : Callbacks) (e : Elem) (sorting : Bool) (s : Slab)
    → s.s_elems ≤ selem_max
    → (p : Probe) × (bin_loop cb e 7 s.s_arr 0 s.s_elems ≡ some p)
      × (slab_bin_srch cb e sorting s ≡ settle cb e sorting s p)
unfolding slab_bin_srch ended
slab_bin_srch_rounds cb e sorting s h =
    let loop = bin_loop_ends cb e s.s_arr 7 0 s.s_elems (omega arith) in
    let more = bin_loop_fuel cb e s.s_arr 7 s.s_elems 0 s.s_elems (omega arith) (omega arith) in
    (loop.0, loop.1, ap (ended cb e sorting s) (sym more ∙ loop.1))

-- Cells that agree up to a count.
abbrev pub Agrees : ℕ → (ℕ → Elem) → (ℕ → Elem) → Type 0
Agrees n f g = (k : ℕ) → k < n → f k ≡ g k

module _ (cb : Callbacks) (e : Elem) (f g : ℕ → Elem) (n : ℕ) (same_cells : Agrees n f g) where
  bin_loop_reads :
      (fuel lo hi : ℕ) → hi ≤ n → bin_loop cb e fuel f lo hi ≡ bin_loop cb e fuel g lo hi
  unfolding bin_loop
  bin_loop_reads zero lo hi h = refl
  bin_loop_reads (suc fuel) lo hi h = ground (
    arith,
    same_cells ((lo + hi - 1) / 2),
    bin_loop_reads fuel ((lo + hi - 1) / 2 + 1) hi,
    bin_loop_reads fuel lo ((lo + hi - 1) / 2),
  )

  last_loop_reads :
      (rounds j : ℕ) → rounds ≤ n - j → last_loop cb e rounds f j ≡ last_loop cb e rounds g j
  unfolding last_loop
  last_loop_reads zero j h = refl
  last_loop_reads (suc rounds) j h = ground (arith, same_cells j, last_loop_reads rounds (j + 1))

module _ (cb : Callbacks) (e : Elem) (sorting : Bool) (s : Slab) (g : ℕ → Elem)
    (same_cells : Agrees s.s_elems s.s_arr g) where
  abbrev other : Slab
  other = record s { s_arr = g }

  past_reads : (i : ℕ) → past_equals cb e sorting s i ≡ past_equals cb e sorting other i
  unfolding past_equals slab_get_last_elem
  past_reads i =
      ground (arith, last_loop_reads cb e s.s_arr g s.s_elems same_cells (s.s_elems - i) i)

  ended_reads :
      (p : Option Probe) → 0 < s.s_elems → ended cb e sorting s p ≡ ended cb e sorting other p
  unfolding ended settle
  ended_reads none used = refl
  ended_reads (some (hit mid)) used = past_reads mid
  ended_reads (some (miss lo)) used = ground (
    arith,
    same_cells (if leb s.s_elems lo then s.s_elems - 1 else lo),
    past_reads (if leb s.s_elems lo then s.s_elems - 1 else lo),
    past_reads ((if leb s.s_elems lo then s.s_elems - 1 else lo) + 1),
  )

  -- The binary search of a slab that holds an element reads no cell but those in use: whatever the
  -- other cells hold, and whether or not the list is used for sorting, the index is the same.
  pub slab_bin_srch_reads :
      0 < s.s_elems
      → slab_bin_srch cb e sorting (record s { s_arr = g }) ≡ slab_bin_srch cb e sorting s
  unfolding slab_bin_srch
  slab_bin_srch_reads used = sym (
      ap (ended cb e sorting s)
        (bin_loop_reads cb e s.s_arr g s.s_elems same_cells s.s_elems 0 s.s_elems (omega arith))
      ∙ ended_reads (bin_loop cb e s.s_elems g 0 s.s_elems) used)
