-- ===== src/Slab/Spill.antt =====
-- `addsn` and `addsp`: an element goes into a full slab, and an end element over to a neighbour.
use libslablist.Prelude.{
  ℕ, suc, ◌-◌, ◌<◌, ◌≡◌, sym, ◌⊎◌, inr, ap, ap₂, ◌∙◌, List, [], ◌∷◌, ◌++◌, append_assoc, append-nil,
  arith, bcopy, slice, slice_ext, slice-cut, length-slice, insert_at, insert_at-append_left,
  insert_at-append, sub8,
}
use libslablist.Callbacks.{Elem}
use libslablist.Slab.{Slab, live, selem_max, add_elem, addsn, addsp}
use libslablist.Slab.Edit.{IsValid, live-add_elem, add_elem-IsValid}

-- Both slabs of a spill, in order.
abbrev pub both : Slab × Slab → List Elem
both (s, t) = live s ++ live t

abbrev pub AreValid : Slab × Slab → Type 0
AreValid (s, t) = IsValid s × IsValid t

-- Every element that the slab holds but the last.
abbrev shorter : Slab → Slab
shorter s = record s { s_elems = sub8 s.s_elems 1; s_max = s.s_arr (s.s_elems - 2) }

live-shorter : (s : Slab) → s.s_elems ≡ selem_max → live s ≡ live (shorter s) ++ (s.s_arr 120 ∷ [])
live-shorter s full = ground (arith, slice-cut s.s_arr 120 1 s.s_elems)

module _ (s snx : Slab) (e : Elem) (q : ℕ) where
  addsn_lem :
      s.s_elems ≡ selem_max
      → q < selem_max
      → addsn s snx e q ≡ (add_elem (shorter s) e q, add_elem snx (s.s_arr 120) 0)
  unfolding addsn
  addsn_lem full at = ground arith

  -- addsn at an index of a full slab, with room in the next, puts the element at that index into
  -- the elements of both slabs together.
  pub both-addsn :
      s.s_elems ≡ selem_max
      → snx.s_elems < selem_max
      → q < selem_max
      → both (addsn s snx e q) ≡ insert_at q e (live s ++ live snx)
  both-addsn full room at =
      ap both (addsn_lem full at)
      ∙ ap₂ ◌++◌ (live-add_elem (shorter s) e q (omega arith) (omega arith))
          (live-add_elem snx (s.s_arr 120) 0 room (omega arith))
      ∙ sym (append_assoc (insert_at q e (live (shorter s))) (s.s_arr 120 ∷ []) (live snx))
      ∙ ap (λ t. t ++ live snx)
          (sym (
              insert_at-append_left q (live (shorter s)) (s.s_arr 120 ∷ []) e
                (omega (arith, length-slice s.s_arr 0 (sub8 s.s_elems 1))))
            ∙ ap (insert_at q e) (sym (live-shorter s full)))
      ∙ sym (
          insert_at-append_left q (live s) (live snx) e
            (omega (arith, length-slice s.s_arr 0 s.s_elems)))

  pub addsn-AreValid :
      s.s_elems ≡ selem_max
      → snx.s_elems < selem_max
      → q < selem_max
      → IsValid s
      → (snx.s_elems ≡ 0) ⊎ IsValid snx
      → AreValid (addsn s snx e q)
  addsn-AreValid full room at v w = rw (addsn_lem full at) (
    add_elem-IsValid (shorter s) e q (omega arith) (omega arith) (inr (ground arith)),
    add_elem-IsValid snx (s.s_arr 120) 0 room (omega arith) w,
  )

-- Every element that a full slab holds but the first.
abbrev behead : Slab → Slab
behead s = record s {
  s_elems = sub8 s.s_elems 1;
  s_arr = bcopy s.s_arr 1 s.s_arr 0 (selem_max - 1);
  s_min = s.s_arr 1;
}

live-behead : (s : Slab) → s.s_elems ≡ selem_max → live s ≡ s.s_arr 0 ∷ live (behead s)
live-behead s full =
    slice-cut s.s_arr 1 120 s.s_elems full
    ∙ ap (λ t. s.s_arr 0 ∷ t)
        (slice_ext s.s_arr (behead s).s_arr 1 0 120 (λ k p. ground arith)
          ∙ ap (slice (behead s).s_arr 0) {x = 120} (omega arith))

module _ (spv s : Slab) (e : Elem) (q : ℕ) where
  addsp_lem :
      s.s_elems ≡ selem_max
      → addsp spv s e (suc q) ≡ (add_elem spv (s.s_arr 0) spv.s_elems, add_elem (behead s) e q)
  unfolding addsp
  addsp_lem full = ground arith

  -- addsp at an index of a full slab other than the first, with room in the previous slab, keeps
  -- the elements of that slab and puts the element at the index into those of the full one, taken
  -- together in order.
  pub both-addsp :
      s.s_elems ≡ selem_max
      → spv.s_elems < selem_max
      → q < selem_max
      → both (addsp spv s e (suc q)) ≡ live spv ++ insert_at (suc q) e (live s)
  both-addsp full room at =
      ap both (addsp_lem full)
      ∙ ap₂ ◌++◌ (live-add_elem spv (s.s_arr 0) spv.s_elems room (omega arith) ∙ appended)
          (live-add_elem (behead s) e q (omega arith) (omega arith))
      ∙ append_assoc (live spv) (s.s_arr 0 ∷ []) (insert_at q e (live (behead s)))
      ∙ ap (λ t. live spv ++ insert_at (suc q) e t) (sym (live-behead s full))
    where
      appended : insert_at spv.s_elems (s.s_arr 0) (live spv) ≡ live spv ++ (s.s_arr 0 ∷ [])
      appended =
          ap₂ (λ k t. insert_at k (s.s_arr 0) t) (sym (length-slice spv.s_arr 0 spv.s_elems))
            (sym (append-nil (live spv)))
          ∙ insert_at-append (live spv) [] (s.s_arr 0)

  pub addsp-AreValid :
      s.s_elems ≡ selem_max
      → spv.s_elems < selem_max
      → q < selem_max
      → IsValid s
      → (spv.s_elems ≡ 0) ⊎ IsValid spv
      → AreValid (addsp spv s e (suc q))
  addsp-AreValid full room at v w = rw (addsp_lem full) (
    add_elem-IsValid spv (s.s_arr 0) spv.s_elems room (omega arith) w,
    add_elem-IsValid (behead s) e q (omega arith) (omega arith) (inr (ground arith)),
  )
