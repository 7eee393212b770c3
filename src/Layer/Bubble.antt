-- ===== src/Layer/Bubble.antt =====
-- The search through the sublayers against the linear search of the toplayer.
use libslablist.Prelude.{
  ℕ, zero, suc, ◌+◌, ◌-◌, ◌≤◌, ◌<◌, ◌≡◌, refl, sym, ap, subst, ◌∙◌, inl, inr, List, [], ◌∷◌, map,
  All, All-map, Bool, true, false, some, arith, slice, length, length-slice,
}
use libslablist.Callbacks.{Elem, Sign, Callbacks, Ranked, over, same, under, Sign-cases}
use libslablist.Slab.{Slab}
use libslablist.Chain.{at}
use libslablist.Scan.{status, scan_loop, find_linear_scan}
use libslablist.Sorted.Cells.{All-slice}
use libslablist.Layer.{
  Cell, Kind, kind, refs, concat, tops, status_of, find_in_subslab, sub_scan_loop, skip_sub_run,
  sub_find_linear_scan, bubble, find_bubble_up,
}
use libslablist.Layer.Near.{nearest, any, any-concat, some_up, nearest-concat, All-concat, Fits}
use libslablist.Layer.Order.{
  IsIndex, reaches, min-le-max, nearest-find_in_subslab, find_in_subslab_holds,
}

-- In a run whose last item is reached wherever any is.
any-slice :
    {A : Type 0} (q : A → Bool) (f : ℕ → A) (i n : ℕ)
    → ((j : ℕ) → i ≤ j → j < i + n → q (f j) ≡ true → q (f (i + n)) ≡ true)
    → any q (slice f i (suc n)) ≡ q (f (i + n))
any-slice q f i zero h = ground arith
any-slice q f i (suc n) h =
    let rest = any-slice q f (suc i) n (λ j p l x.
      let e : suc i + n ≡ i + suc n = omega arith in rw e (h j (omega arith) (omega arith) x)) in
    ground (arith, rest, h i)

module _ {cb : Callbacks} (r : Ranked cb) (e : Elem) where
  open r use {rank}

  abbrev goes : (n : ℕ) → Cell n → Bool
  goes n = reaches rank e (kind n)

  lows :
      (n : ℕ) (s : Cell (suc n))
      → IsIndex rank (suc n) s
      → (i : ℕ) → i < s.ss_elems
      → rank ((kind n).min_of (s.ss_arr i)) ≤ rank ((kind n).max_of (s.ss_arr i))
  lows n s v i h = min-le-max rank n (s.ss_arr i) (v.each i h)

  any-refs :
      (n : ℕ) (s : Cell (suc n)) → IsIndex rank (suc n) s → any (goes n) (refs s) ≡ goes (suc n) s
  any-refs n s v =
      let m : ℕ = s.ss_elems - 1 in
      let count : s.ss_elems ≡ suc m = omega (arith, v.used) in
      ap (λ t. any (goes n) (slice s.ss_arr 0 t)) count
      ∙ any-slice (goes n) s.ss_arr 0 m
          (λ j p l x. ground (arith, v.rises j m, v.used, lows n s v m))
      ∙ ground (arith, v.max_last)

  cell-Fits : (n : ℕ) (c : Cell n) → IsIndex rank n c → Fits (goes zero) (goes n) (tops n) c
  cell-Fits zero c v = ground arith
  cell-Fits (suc n) c v =
      let fits : All (Fits (goes zero) (goes n) (tops n)) (refs c) =
        All-slice (Fits (goes zero) (goes n) (tops n)) c.ss_arr 0 c.ss_elems
          (λ i p l. cell-Fits n (c.ss_arr i) (v.each i (omega arith))) in
      (
        any-concat (goes zero) (goes n) (tops n) (refs c) fits ∙ any-refs n c v,
        some_up (goes zero) (goes n) (tops n) (refs c) fits
            (omega (arith, length-slice c.ss_arr 0 c.ss_elems, v.used)),
      )

  refs-Fits :
      (n : ℕ) (c : Cell (suc n))
      → IsIndex rank (suc n) c
      → All (Fits (goes zero) (goes n) (tops n)) (refs c)
  refs-Fits n c v =
      All-slice (Fits (goes zero) (goes n) (tops n)) c.ss_arr 0 c.ss_elems
        (λ i p l. cell-Fits n (c.ss_arr i) (v.each i (omega arith)))

  -- From any subslab up to the slab.
  bubble-nearest :
      (n : ℕ) (c : Cell (suc n))
      → IsIndex rank (suc n) c
      → nearest (goes zero) (tops (suc n) c) ≡ some (bubble cb e false n c).1
  unfolding bubble
  bubble-nearest zero c v =
      nearest-concat (goes zero) (goes zero) (tops zero) (refs c)
        (find_in_subslab cb e (kind zero) false c).1 (refs-Fits zero c v)
        (nearest-find_in_subslab r e (kind zero) c v (lows zero c v))
  bubble-nearest (suc n) c v =
      nearest-concat (goes zero) (goes (suc n)) (tops (suc n)) (refs c)
        (find_in_subslab cb e (kind (suc n)) false c).1 (refs-Fits (suc n) c v)
        (nearest-find_in_subslab r e (kind (suc n)) c v (lows (suc n) c v))
      ∙ bubble-nearest n (find_in_subslab cb e (kind (suc n)) false c).1
          (find_in_subslab_holds r e (kind (suc n)) c v (lows (suc n) c v))

  bubble-status :
      (n : ℕ) (c : Cell (suc n)) → (bubble cb e false n c).0 ≡ status cb e (bubble cb e false n c).1
  unfolding bubble find_in_subslab
  bubble-status zero c = refl
  bubble-status (suc n) c = bubble-status n (find_in_subslab cb e (kind (suc n)) false c).1

  -- The linear search of a layer.
  module _ {A : Type 0} (k : Kind A) (Q : A → Type 0)
      (low : (x : A) → Q x → rank (k.min_of x) ≤ rank (k.max_of x)) where
    abbrev Finds : A → List A → Sign × A × List A → Type 0
    Finds s ss found =
        (nearest (reaches rank e k) (s ∷ ss) ≡ some found.1)
        × Q found.1
        × (found.0 ≡ status_of cb e k found.1)

    reaches_status :
        (s : A)
        → Q s
        → (status_of cb e k s ≡ over → reaches rank e k s ≡ false)
          × (status_of cb e k s ≡ same → reaches rank e k s ≡ true)
          × (status_of cb e k s ≡ under → reaches rank e k s ≡ true)
    reaches_status s v =
        let known = r.bnd_rank e (k.min_of s) (k.max_of s) (low s v) in
        (
          λ h. ground (arith, known, low s v),
          λ h. ground (arith, known, low s v),
          λ h. ground (arith, known, low s v),
        )

    sub_scan_loop-Finds :
        (n : ℕ) (x : Sign) (s : A) (ss : List A)
        → n ≡ suc (length ss)
        → Q s
        → All Q ss
        → Finds s ss (sub_scan_loop cb e k n x s ss)
    unfolding sub_scan_loop
    sub_scan_loop-Finds zero x s ss rounds v w = absurd (omega arith)
    sub_scan_loop-Finds (suc n) x s [] rounds v w = (refl, v, refl)
    sub_scan_loop-Finds (suc n) x s (t ∷ ss) rounds v w = elim (Sign-cases (status_of cb e k s)) [
      | inl o ↦
          let rest = sub_scan_loop-Finds n over t ss (omega arith) w.0 w.1 in
          rw (o, sub_scan_loop) (rw ((reaches_status s v).0 o) rest.0, rest.1, rest.2)
      | inr (inl o) ↦ rw (o, sub_scan_loop) (rw ((reaches_status s v).1 o) refl, v, sym o)
      | inr (inr o) ↦ rw (o, sub_scan_loop) (rw ((reaches_status s v).2 o) refl, v, sym o)
    ]

    reached :
        (s : A) (ss : List A)
        → reaches rank e k s ≡ true
        → nearest (reaches rank e k) (s ∷ ss) ≡ some s
    reached s [] h = refl
    reached s (t ∷ ss) h = rw h

    skip_sub_run_plain :
        (found : Sign × A × List A) → skip_sub_run cb e k false found ≡ (found.0, found.1)
    unfolding skip_sub_run
    skip_sub_run_plain (same, s, ss) = refl
    skip_sub_run_plain (under, s, ss) = refl
    skip_sub_run_plain (over, s, ss) = refl

    sub_find_linear_scan-nearest :
        (n : ℕ) (s : A) (ss : List A)
        → n ≡ suc (length ss)
        → Q s
        → All Q ss
        → (nearest (reaches rank e k) (s ∷ ss) ≡ some (sub_find_linear_scan cb e k false n s ss).1)
          × Q (sub_find_linear_scan cb e k false n s ss).1
    unfolding sub_find_linear_scan
    sub_find_linear_scan-nearest n s ss rounds v w =
        let found = sub_scan_loop-Finds n (status_of cb e k s) s ss rounds v w in
        elim (Sign-cases (status_of cb e k s)) [
          | inl o ↦ rw o (
              rw (skip_sub_run_plain (sub_scan_loop cb e k n (status_of cb e k s) s ss))
                (found.0, found.1))
          | inr (inl o) ↦ rw o (reached s ss ((reaches_status s v).1 o), v)
          | inr (inr o) ↦ rw o (reached s ss ((reaches_status s v).2 o), v)
        ]

  -- The linear search of the toplayer finds the same.
  scan_loop-nearest :
      (k n : ℕ) (x : Sign) (b : List Slab) (s : Slab) (ss : List Slab)
      → k ≡ suc (length ss)
      → All (IsIndex rank zero) (s ∷ ss)
      → (nearest (goes zero) (s ∷ ss) ≡ some (scan_loop cb e k n x b s ss).1.cur)
        × ((scan_loop cb e k n x b s ss).0 ≡ status cb e (scan_loop cb e k n x b s ss).1.cur)
  unfolding scan_loop
  scan_loop-nearest zero n x b s ss rounds v = absurd (omega arith)
  scan_loop-nearest (suc k) n x b s [] rounds v = (refl, refl)
  scan_loop-nearest (suc k) n x b s (t ∷ ss) rounds v =
      let known = reaches_status (kind zero) (IsIndex rank zero) (λ y w. w) s v.0 in
      elim (Sign-cases (status cb e s)) [
        | inl o ↦
            let rest = scan_loop-nearest k n over (s ∷ b) t ss (omega arith) v.1 in
            rw (o, scan_loop) (rw (known.0 o) rest.0, rest.1)
        | inr (inl o) ↦ rw (o, scan_loop) (rw (known.1 o) refl, sym o)
        | inr (inr o) ↦ rw (o, scan_loop) (rw (known.2 o) refl, sym o)
      ]

  find_linear_scan-nearest :
      (n : ℕ) (s : Slab) (ss : List Slab)
      → n ≡ suc (length ss)
      → All (IsIndex rank zero) (s ∷ ss)
      → (nearest (goes zero) (s ∷ ss) ≡ some (find_linear_scan cb e false (at n [] s ss)).1.cur)
        × ((find_linear_scan cb e false (at n [] s ss)).0
            ≡ status cb e (find_linear_scan cb e false (at n [] s ss)).1.cur)
  unfolding find_linear_scan
  find_linear_scan-nearest n s ss rounds v =
      let known = reaches_status (kind zero) (IsIndex rank zero) (λ y w. w) s v.0 in
      let found = scan_loop-nearest n n (status cb e s) [] s ss rounds v in
      elim (Sign-cases (status cb e s)) [
        | inl o ↦ rw o found
        | inr (inl o) ↦
            rw o (reached (kind zero) (IsIndex rank zero) (λ y w. w) s ss (known.1 o), sym o)
        | inr (inr o) ↦
            rw o (reached (kind zero) (IsIndex rank zero) (λ y w. w) s ss (known.2 o), sym o)
      ]

  tops-All : (n : ℕ) (c : Cell n) → IsIndex rank n c → All (IsIndex rank zero) (tops n c)
  tops-All zero c v = (v, tt)
  tops-All (suc n) c v = All-concat (IsIndex rank zero) (tops n) (refs c) (
      All-slice (λ x. All (IsIndex rank zero) (tops n x)) c.ss_arr 0 c.ss_elems
        (λ i p l. tops-All n (c.ss_arr i) (v.each i (omega arith))))

  -- Over a well-formed index of the toplayer, of any number of sublayers, find_bubble_up finds the
  -- slab, and returns the status, that find_linear_scan does: for a list that is not used for sorting,
  -- whose baselayer and toplayer are counted, and whose toplayer is what the baselayer leads up to.
  pub find_bubble_up-linear_scan :
      (n m k : ℕ) (s : Cell (suc n)) (ss : List (Cell (suc n))) (t : Slab) (ts : List Slab)
      → m ≡ suc (length ss)
      → k ≡ suc (length ts)
      → All (IsIndex rank (suc n)) (s ∷ ss)
      → concat (map (tops (suc n)) (s ∷ ss)) ≡ t ∷ ts
      → find_bubble_up cb e false n m s ss ≡ (
        (find_linear_scan cb e false (at k [] t ts)).0,
        (find_linear_scan cb e false (at k [] t ts)).1.cur,
      )
  unfolding find_bubble_up
  find_bubble_up-linear_scan n m k s ss t ts base top v covers =
      let found =
        sub_find_linear_scan-nearest (kind (suc n)) (IsIndex rank (suc n)) (min-le-max rank (suc n))
          m s ss base v.0 v.1 in
      let c = (sub_find_linear_scan cb e (kind (suc n)) false m s ss).1 in
      let whole : All (IsIndex rank zero) (t ∷ ts) = subst (All (IsIndex rank zero)) covers (
        All-concat (IsIndex rank zero) (tops (suc n)) (s ∷ ss)
          (All-map (IsIndex rank (suc n)) (tops-All (suc n)) (s ∷ ss) v)) in
      let linear = find_linear_scan-nearest k t ts top whole in
      let same_slab : some (bubble cb e false n c).1
          ≡ some (find_linear_scan cb e false (at k [] t ts)).1.cur =
        sym (bubble-nearest n c found.1)
        ∙ sym (
            nearest-concat (goes zero) (goes (suc n)) (tops (suc n)) (s ∷ ss) c
              (All-map (IsIndex rank (suc n)) (cell-Fits (suc n)) (s ∷ ss) v) found.0)
        ∙ ap (nearest (goes zero)) covers
        ∙ linear.0 in
      ground (arith, same_slab, bubble-status n c, linear.1)
