-- ===== src/Range/Between.antt =====
-- How the slabs that the searches for the two ends of a range find lie to each other.
use libslablist.Prelude.{
  ℕ, zero, suc, ◌+◌, ◌≤◌, ◌<◌, ◌≡◌, refl, ap, ◌⊎◌, inl, inr, List, [], ◌∷◌, ◌++◌, All, some, false,
  arith, length, sub64, ◌^◌, length-append, length-slice,
}
use libslablist.Callbacks.{Elem, Sign, Callbacks, Ranked, over, Sign-cases}
use libslablist.Slab.{Slab, live}
use libslablist.Chain.{Place, at, flat}
use libslablist.Scan.{status, scan_loop, find_linear_scan}
use libslablist.Range.{rem_slabs_between}

-- The slabs that stand strictly between two places of one chain: the second is `length mid + 1` on.
-- They and the first one are such as `P` says.
pub record Reaches (p q : Place) (P : Slab → Type 0) : Type 0 where
  pub mid : List Slab
  pub split : p.after ≡ mid ++ (q.cur ∷ q.after)
  pub ahead : length q.before ≡ length p.before + suc (length mid)
  pub passed : All P mid
  pub start : P p.cur

abbrev pub Meet : Place → Place → (Slab → Type 0) → Type 0
Meet p q P = (p ≡ q) ⊎ Reaches p q P

module _ {cb : Callbacks} (r : Ranked cb) (min max : Elem) (le : r.rank min ≤ r.rank max) where
  open r use {rank}

  -- The slab's range is that of its extrema, and the second element is over it.
  abbrev pub Ranges : Slab → Type 0
  Ranges s = rank s.s_min ≤ rank s.s_max

  abbrev pub Over : Slab → Type 0
  Over s = rank s.s_max < rank max

  over_at : (e : Elem) (s : Slab) → Ranges s → status cb e s ≡ over → rank s.s_max < rank e
  over_at e s h x = ground (arith, r.bnd_rank e s.s_min s.s_max h)

  is_over : (e : Elem) (s : Slab) → Ranges s → rank s.s_max < rank e → status cb e s ≡ over
  is_over e s h x = ground (arith, r.bnd_rank e s.s_min s.s_max h)

  -- From a slab on, the search for the greater end.
  record Goes (b : List Slab) (s : Slab) (ss : List Slab) (q : Place) : Type 0 where
    mid : List Slab
    split : s ∷ ss ≡ mid ++ (q.cur ∷ q.after)
    ahead : length q.before ≡ length b + length mid
    passed : All Over mid

  scan_loop-Goes :
      (k n : ℕ) (x : Sign) (b : List Slab) (s : Slab) (ss : List Slab)
      → k ≡ suc (length ss)
      → All Ranges (s ∷ ss)
      → Goes b s ss (scan_loop cb max k n x b s ss).1
  unfolding scan_loop
  scan_loop-Goes zero n x b s ss rounds v = absurd (omega arith)
  scan_loop-Goes (suc k) n x b s [] rounds v = record {
    mid = [];
    split = refl;
    ahead = omega arith;
    passed = tt;
  }
  scan_loop-Goes (suc k) n x b s (t ∷ ss) rounds v = elim (Sign-cases (status cb max s)) [
    | inl o ↦
        let rest = scan_loop-Goes k n over (s ∷ b) t ss (omega arith) v.1 in
        rw (o, scan_loop)
          (record {
            mid = s ∷ rest.mid;
            split = ap (λ t. s ∷ t) rest.split;
            ahead = omega (arith, rest.ahead);
            passed = (over_at max s v.0 o, rest.passed);
          })
    | inr (inl o) ↦
        rw (o, scan_loop) (record { mid = []; split = refl; ahead = omega arith; passed = tt })
    | inr (inr o) ↦
        rw (o, scan_loop) (record { mid = []; split = refl; ahead = omega arith; passed = tt })
  ]

  -- The search for the greater end starts where the other one stops.
  scan_loop-Meet :
      (k n : ℕ) (x y : Sign) (b : List Slab) (s : Slab) (ss : List Slab)
      → k ≡ suc (length ss)
      → All Ranges (s ∷ ss)
      → Meet (scan_loop cb min k n x b s ss).1 (scan_loop cb max k n y b s ss).1 Over
  unfolding scan_loop
  scan_loop-Meet zero n x y b s ss rounds v = absurd (omega arith)
  scan_loop-Meet (suc k) n x y b s [] rounds v = inl refl
  scan_loop-Meet (suc k) n x y b s (t ∷ ss) rounds v = elim (Sign-cases (status cb min s)) [
    | inl o ↦
        rw (o, scan_loop)
          (rw (is_over max s v.0 (omega (arith, over_at min s v.0 o)), scan_loop)
            (scan_loop-Meet k n over over (s ∷ b) t ss (omega arith) v.1))
    | inr (inl o) ↦ rw (o, scan_loop) stays
    | inr (inr o) ↦ rw (o, scan_loop) stays
  ]
    where
      stays : Meet (at n b s (t ∷ ss)) (scan_loop cb max (suc k) n y b s (t ∷ ss)).1 Over
      stays = elim (Sign-cases (status cb max s)) [
        | inl o ↦
            let far = scan_loop-Goes k n over (s ∷ b) t ss (omega arith) v.1 in
            rw (o, scan_loop)
              (inr (record {
                mid = far.mid;
                split = far.split;
                ahead = omega (arith, far.ahead);
                passed = far.passed;
                start = over_at max s v.0 o;
              }))
        | inr (inl o) ↦ rw (o, scan_loop) (inl refl)
        | inr (inr o) ↦ rw (o, scan_loop) (inl refl)
      ]

  found_by :
      (e : Elem) (n : ℕ) (s : Slab) (ss : List Slab)
      → n ≡ suc (length ss)
      → (find_linear_scan cb e false (at n [] s ss)).1
        ≡ (scan_loop cb e n n (status cb e s) [] s ss).1
  unfolding find_linear_scan scan_loop
  found_by e zero s ss h = absurd (omega arith)
  found_by e (suc n) s [] h = ground arith
  found_by e (suc n) s (t ∷ ss) h = ground arith

  -- From the head of a counted chain.
  pub find_linear_scan-Meet :
      (n : ℕ) (s : Slab) (ss : List Slab)
      → n ≡ suc (length ss)
      → All Ranges (s ∷ ss)
      → Meet
          (find_linear_scan cb min false (at n [] s ss)).1
          (find_linear_scan cb max false (at n [] s ss)).1
          Over
  find_linear_scan-Meet n s ss h v = rw (found_by min n s ss h) (
      rw (found_by max n s ss h)
        (scan_loop-Meet n n (status cb min s) (status cb max s) [] s ss h v))

-- The loop between the two takes exactly the slabs between them out.
pub rem_slabs_between_lem :
    (mid : List Slab) (n m : ℕ) (t : Slab) (ss : List Slab)
    → length mid ≤ n
    → n < 2 ^ 64
    → length (flat mid) ≤ m
    → m < 2 ^ 64
    → (n' : ℕ) × (m' : ℕ) × (rem_slabs_between (length mid) n m (mid ++ (t ∷ ss))
        ≡ some (n', m', t, ss))
      × (n' + length mid ≡ n)
      × (m' + length (flat mid) ≡ m)
unfolding rem_slabs_between
rem_slabs_between_lem [] n m t ss h b g c = (n, m, refl, omega arith, omega arith)
rem_slabs_between_lem (s ∷ mid) n m t ss h b g c =
    let size : length (flat (s ∷ mid)) ≡ s.s_elems + length (flat mid) =
      omega (arith, length-append (live s) (flat mid), length-slice s.s_arr 0 s.s_elems) in
    let rest =
      rem_slabs_between_lem mid (sub64 n 1) (sub64 m s.s_elems) t ss (omega arith) (omega arith)
        (omega (arith, size)) (omega arith) in
    (rest.0, rest.1, rest.2, omega (arith, rest.3), omega (arith, rest.4, size))
