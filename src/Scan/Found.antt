-- ===== src/Scan/Found.antt =====
-- What the linear search finds in a sorted chain: the slab whose neighbours bound the element.
use libslablist.Prelude.{
  ℕ, zero, suc, ◌-◌, ◌≤◌, ◌<◌, ◌≡◌, refl, sym, subst, ◌∙◌, inl, inr, List, [], ◌∷◌, ◌++◌,
  All-append, append_assoc, false, arith, length,
}
use libslablist.Callbacks.{Elem, Sign, Callbacks, Ranked, over, bounds, Sign-cases}
use libslablist.Slab.{Slab, live}
use libslablist.Slab.Edit.{IsValid}
use libslablist.Search.Order.{Rises→Climbs}
use libslablist.Sorted.{Below, Ascends, Ascends-left, Ascends-right}
use libslablist.Sorted.Cells.{All-slice, Ascends→Rises}
use libslablist.Chain.{Place, at, flat, rflat, contents, IsWhole}
use libslablist.Scan.{status, scan_loop, find_linear_scan}

module _ {cb : Callbacks} (r : Ranked cb) (e : Elem) where
  open r use {rank}

  pub min-le-max : (s : Slab) → IsValid s → Ascends rank (live s) → rank s.s_min ≤ rank s.s_max
  min-le-max s v asc =
      let climbs =
        Rises→Climbs rank s.s_arr s.s_elems (Ascends→Rises rank s.s_arr s.s_elems asc) 0
          (s.s_elems - 1) in
      ground (arith, v, climbs)

  -- The status of a valid, sorted slab is the comparison with its ends.
  pub status-bounds :
      (s : Slab)
      → IsValid s
      → Ascends rank (live s)
      → status cb e s ≡ bounds (rank e) (rank s.s_min) (rank s.s_max)
  status-bounds s v asc = r.bnd_rank e s.s_min s.s_max (min-le-max s v asc)

  -- Over its range means over each of its elements.
  pub over-Below :
      (s : Slab) → IsValid s → Ascends rank (live s) → rank s.s_max < rank e → Below rank e (live s)
  over-Below s v asc h =
      All-slice (λ x. rank x < rank e) s.s_arr 0 s.s_elems
        (λ k _ p.
          let climbs =
            Rises→Climbs rank s.s_arr s.s_elems (Ascends→Rises rank s.s_arr s.s_elems asc) k
              (s.s_elems - 1) in
          ground (arith, v, climbs))

  -- The slab found, with what the search knows of it.
  pub record IsFound (p : Place) (found : Sign × Place) : Type 0 where
    pub kept : contents found.1 ≡ contents p
    pub whole : IsWhole found.1
    pub low : Below rank e (rflat found.1.before)
    pub stat : found.0 ≡ status cb e found.1.cur
    pub last : found.0 ≡ over → flat found.1.after ≡ []

  scan_loop-IsFound :
      (k n : ℕ) (r' : Sign) (b : List Slab) (s : Slab) (ss : List Slab)
      → k ≡ suc (length ss)
      → IsWhole (at n b s ss)
      → Ascends rank (contents (at n b s ss))
      → Below rank e (rflat b)
      → IsFound (at n b s ss) (scan_loop cb e k n r' b s ss)
  unfolding scan_loop
  scan_loop-IsFound zero n r' b s ss rounds w asc low = absurd (omega arith)
  scan_loop-IsFound (suc k) n r' b s [] rounds w asc low = record {
    kept = refl;
    whole = w;
    low = low;
    stat = refl;
    last = λ _. refl;
  }
  scan_loop-IsFound (suc k) n r' b s (t ∷ ss) rounds w asc low = elim (Sign-cases (status cb e s)) [
    | inl x ↦
        rw (x, scan_loop)
          (step_over x (
            scan_loop-IsFound k n over (s ∷ b) t ss (omega arith) moved
              (subst (Ascends rank) (sym regrouped) asc)
              (All-append (λ x. rank x < rank e) (rflat b) (live s) low
                (over-Below s w.here cur_asc (passed x)))))
    | inr (inl x) ↦
        rw (x, scan_loop)
          (record { kept = refl; whole = w; low = low; stat = sym x; last = λ o. cc })
    | inr (inr x) ↦
        rw (x, scan_loop)
          (record { kept = refl; whole = w; low = low; stat = sym x; last = λ o. cc })
  ]
    where
      regrouped : contents (at n (s ∷ b) t ss) ≡ contents (at n b s (t ∷ ss))
      regrouped = append_assoc (rflat b) (live s) (live t ++ flat ss)

      cur_asc : Ascends rank (live s)
      cur_asc =
          Ascends-left rank (live s) (live t ++ flat ss)
            (Ascends-right rank (rflat b) (live s ++ (live t ++ flat ss)) asc)

      passed : status cb e s ≡ over → rank s.s_max < rank e
      passed x = ground (arith, status-bounds s w.here cur_asc)

      moved : IsWhole (at n (s ∷ b) t ss)
      moved = record {
        left = (w.here, w.left);
        here = w.right.0;
        right = w.right.1;
        counted = omega (arith, w.counted);
      }

      step_over :
          status cb e s ≡ over
          → IsFound (at n (s ∷ b) t ss) (scan_loop cb e k n over (s ∷ b) t ss)
          → IsFound (at n b s (t ∷ ss)) (scan_loop cb e k n over (s ∷ b) t ss)
      step_over x f = record {
        kept = f.kept ∙ regrouped;
        whole = f.whole;
        low = f.low;
        stat = f.stat;
        last = f.last;
      }

  -- From the head of a counted, valid and sorted chain that is not used for sorting,
  -- find_linear_scan keeps the chain and its elements, returns the status of the slab it stops at,
  -- has only smaller elements before that slab, and answers FS_OVER_RANGE only where no element
  -- follows.
  pub find_linear_scan-IsFound :
      (p : Place)
      → p.before ≡ []
      → p.sl_slabs ≡ suc (length p.after)
      → IsWhole p
      → Ascends rank (contents p)
      → IsFound p (find_linear_scan cb e false p)
  unfolding find_linear_scan
  find_linear_scan-IsFound p head count w asc = elim (Sign-cases (status cb e p.cur)) [
    | inl x ↦ rw x (
        scan_loop-IsFound p.sl_slabs p.sl_slabs (status cb e p.cur) p.before p.cur p.after count w
          asc none_before)
    | inr (inl x) ↦
        rw x (record { kept = refl; whole = w; low = none_before; stat = sym x; last = λ o. cc })
    | inr (inr x) ↦
        rw x (record { kept = refl; whole = w; low = none_before; stat = sym x; last = λ o. cc })
  ]
    where
      none_before : Below rank e (rflat p.before)
      none_before = rw head tt
