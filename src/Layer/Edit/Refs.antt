-- ===== src/Layer/Edit/Refs.antt =====
-- `add_slab`, `remove_slab`, `sub_addsn` and `sub_addsp` against the list of the cells that a subslab
-- points to, and well-formedness after a cell is put in at its place.
use libslablist.Prelude.{
  ℕ, zero, suc, ◌+◌, ◌-◌, ◌/◌, ◌≤◌, ◌<◌, ◌≡◌, sym, ap, ap₂, ◌∙◌, inl, inr, List, [], ◌∷◌, ◌++◌,
  append_assoc, false, ltb, Bool-cases, arith, write, bcopy, insert_at, remove_at, slice, slice_ext,
  slice-cut, length-slice, insert_at-append_left,
}
use libslablist.Callbacks.{Elem, Callbacks}
use libslablist.Slab.Cells.{slice-write-bcopy, slice-bcopy_back}
use libslablist.Search.{Probe, hit, miss}
use libslablist.Layer.{Subslab, Kind, refs, subelem_max, sub_bin_loop, settle_sub, subslab_bin_srch}
use libslablist.Layer.Edit.{add_slab, remove_slab, sub_addsn, sub16}

module _ (cb : Callbacks) {A : Type 0} (k : Kind A) (s : Subslab A) (x : A) (i : ℕ) where
  pub ss_arr-add_slab :
      (add_slab cb k false s x i).ss_arr
      ≡ write (bcopy s.ss_arr i s.ss_arr (i + 1) (s.ss_elems - i)) i x
  unfolding add_slab
  ss_arr-add_slab = elim (Bool-cases (ltb s.ss_elems subelem_max)) [ inl t ↦ rw t | inr t ↦ rw t ]

  module _ (room : s.ss_elems < subelem_max) (at : i ≤ s.ss_elems) where
    pub ss_elems-add_slab : (add_slab cb k false s x i).ss_elems ≡ s.ss_elems + 1
    unfolding add_slab
    ss_elems-add_slab = ground arith

    pub refs-add_slab : refs (add_slab cb k false s x i) ≡ insert_at i x (refs s)
    unfolding add_slab
    refs-add_slab =
        ap₂ (λ f n. slice f 0 n) ss_arr-add_slab ss_elems-add_slab
        ∙ slice-write-bcopy s.ss_arr i s.ss_elems x at

module _ {A : Type 0} (k : Kind A) (s : Subslab A) (i : ℕ) (used : i < s.ss_elems)
    (fits : s.ss_elems ≤ subelem_max) where
  pub ss_elems-remove_slab : (remove_slab k i s).ss_elems ≡ s.ss_elems - 1
  unfolding remove_slab
  ss_elems-remove_slab = ground arith

  pub refs-remove_slab : refs (remove_slab k i s) ≡ remove_at i (refs s)
  unfolding remove_slab
  refs-remove_slab =
      ap (slice (remove_slab k i s).ss_arr 0) ss_elems-remove_slab
      ∙ slice_ext (remove_slab k i s).ss_arr (bcopy f (i + 1) f i (n - (i + 1))) 0 0 (n - 1)
          (λ j p. ground arith)
      ∙ slice-bcopy_back f i n used
    where
      open s use {ss_arr as f, ss_elems as n}

module _ (cb : Callbacks) (e : Elem) {A : Type 0} (k : Kind A) where
  abbrev Within : ℕ → Probe → Type 0
  Within n (hit m) = m < n
  Within n (miss m) = m ≤ n

  sub_bin_loop-Within :
      (f : ℕ) (arr : ℕ → A) (n lo hi : ℕ)
      → lo ≤ n
      → hi ≤ n
      → Within n (sub_bin_loop cb e k f arr lo hi)
  unfolding sub_bin_loop
  sub_bin_loop-Within zero arr n lo hi p q = p
  sub_bin_loop-Within (suc f) arr n lo hi p q = ground (
    arith,
    sub_bin_loop-Within f arr n ((lo + hi - 1) / 2 + 1) hi,
    sub_bin_loop-Within f arr n lo ((lo + hi - 1) / 2),
  )

  settle_sub_bound :
      (s : Subslab A) (p : Probe)
      → 0 < s.ss_elems
      → Within s.ss_elems p
      → settle_sub cb e k false s p ≤ s.ss_elems
  unfolding settle_sub
  settle_sub_bound s (hit m) used w = omega (arith, w)
  settle_sub_bound s (miss m) used w = ground (arith, w)

  pub subslab_bin_srch_bound :
      (s : Subslab A) → 0 < s.ss_elems → subslab_bin_srch cb e k false s ≤ s.ss_elems
  unfolding subslab_bin_srch
  subslab_bin_srch_bound s used =
      settle_sub_bound s _ used (
        sub_bin_loop-Within s.ss_elems s.ss_arr s.ss_elems 0 s.ss_elems (omega arith) (omega arith))

-- The cells of both subslabs of a spill or a move, in order.
abbrev pub both_refs : {A : Type 0} → Subslab A × Subslab A → List A
both_refs (s, t) = refs s ++ refs t

module _ (cb : Callbacks) {A : Type 0} (k : Kind A) where
  -- Every cell but the last, of a full subslab.
  abbrev shorter : Subslab A → Subslab A
  shorter s = record s {
    ss_max = k.max_of (s.ss_arr (s.ss_elems - 2));
    ss_elems = sub16 s.ss_elems 1;
  }

  -- sub_addsn into a full subslab, with room in the next, puts the cell at the index that the search
  -- finds into the cells of both, in order.
  pub refs-sub_addsn :
      (s snx : Subslab A) (x : A)
      → s.ss_elems ≡ subelem_max
      → snx.ss_elems < subelem_max
      → both_refs (sub_addsn cb k false s snx x)
        ≡ insert_at (subslab_bin_srch cb (k.max_of x) k false (shorter s)) x (refs s ++ refs snx)
  unfolding sub_addsn
  refs-sub_addsn s snx x full room =
      let at = subslab_bin_srch cb (k.max_of x) k false (shorter s) in
      let fits : at ≤ sub16 s.ss_elems 1 =
        subslab_bin_srch_bound cb (k.max_of x) k (shorter s) (omega arith) in
      let cut : refs s ≡ refs (shorter s) ++ (s.ss_arr (s.ss_elems - 1) ∷ []) =
        slice-cut s.ss_arr (sub16 s.ss_elems 1) 1 s.ss_elems (omega arith)
        ∙ ap (λ t. refs (shorter s) ++ (s.ss_arr t ∷ [])) (omega arith) in
      ap₂ ◌++◌ (refs-add_slab cb k (shorter s) x at (omega arith) fits)
        (refs-add_slab cb k snx (s.ss_arr (s.ss_elems - 1)) 0 room (omega arith))
      ∙ sym (
          append_assoc (insert_at at x (refs (shorter s))) (s.ss_arr (s.ss_elems - 1) ∷ [])
            (refs snx))
      ∙ ap (λ t. t ++ refs snx)
          (sym (
              insert_at-append_left at (refs (shorter s)) (s.ss_arr (s.ss_elems - 1) ∷ []) x
                (omega (arith, fits, length-slice s.ss_arr 0 (sub16 s.ss_elems 1))))
            ∙ ap (insert_at at x) (sym cut))
      ∙ sym (
          insert_at-append_left at (refs s) (refs snx) x
            (omega (arith, fits, length-slice s.ss_arr 0 s.ss_elems)))
