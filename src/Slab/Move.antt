-- ===== src/Slab/Move.antt =====
-- `move_to_next` and `move_to_prev`: elements go over to a neighbour, none is lost, and the order of
-- both slabs together stays.
use libslablist.Prelude.{
  ℕ, ◌+◌, ◌-◌, ◌≤◌, ◌≡◌, sym, ◌⊎◌, ap, ap₂, ◌∙◌, false, ◌++◌, append_assoc, arith, leb, ◌==◌,
  if◌then◌else◌, add8, bcopy, slice, slice_ext, slice-add, slice-cut,
}
use libslablist.Callbacks.{Elem}
use libslablist.Slab.{Slab, live, selem_max, slab_free_space, move_to_next, move_to_prev}
use libslablist.Slab.Edit.{IsValid}
use libslablist.Slab.Spill.{both}

-- A slab that may have been emptied.
abbrev pub IsLeft : Slab → Type 0
IsLeft s = (s.s_elems ≡ 0) ⊎ IsValid s

-- The number of elements that move from a slab with `n` to one that is `free`.
abbrev moved : ℕ → ℕ → ℕ
moved free n = if leb free n then free else n

module _ (s sn : Slab) (v : IsValid s) (w : IsValid sn) where
  pub move_to_next_counts :
      ((move_to_next s sn).0.s_elems + (move_to_next s sn).1.s_elems ≡ s.s_elems + sn.s_elems)
      × (s.s_elems ≤ slab_free_space sn → (move_to_next s sn).0.s_elems ≡ 0)
      × (slab_free_space sn ≤ s.s_elems → (move_to_next s sn).1.s_elems ≡ selem_max)
  unfolding move_to_next
  move_to_next_counts = ground arith

  pub move_to_next-IsValid : IsLeft (move_to_next s sn).0 × IsValid (move_to_next s sn).1
  unfolding move_to_next
  move_to_next-IsValid = ground arith

  -- move_to_next between valid neighbours keeps the elements of both together, in order.
  pub both-move_to_next : both (move_to_next s sn) ≡ live s ++ live sn
  unfolding move_to_next
  both-move_to_next =
      let some_used : (s.s_elems == 0) ≡ false = ground arith in
      let count : add8 sn.s_elems cp ≡ cp + sn.s_elems = ground arith in
      rw some_used (
        ap (λ t. slice s.s_arr 0 (s.s_elems - cp) ++ slice arr 0 t) count
        ∙ ap (λ t. slice s.s_arr 0 (s.s_elems - cp) ++ t) received
        ∙ sym (
            append_assoc (slice s.s_arr 0 (s.s_elems - cp)) (slice s.s_arr (s.s_elems - cp) cp)
              (live sn))
        ∙ ap (λ t. t ++ live sn)
            (sym (slice-cut s.s_arr (s.s_elems - cp) cp s.s_elems (ground arith))))
    where
      free : ℕ
      free = slab_free_space sn

      cp : ℕ
      cp = moved free s.s_elems

      arr : ℕ → Elem
      arr =
          bcopy s.s_arr (if leb free s.s_elems then s.s_elems - cp else 0)
            (bcopy sn.s_arr 0 sn.s_arr cp sn.s_elems) 0 cp

      received : slice arr 0 (cp + sn.s_elems) ≡ slice s.s_arr (s.s_elems - cp) cp ++ live sn
      received =
          slice-add arr 0 cp sn.s_elems
          ∙ ap₂ ◌++◌ (slice_ext arr s.s_arr 0 (s.s_elems - cp) cp (λ k p. ground arith))
              (slice_ext arr sn.s_arr (0 + cp) 0 sn.s_elems (λ k p. ground arith))

module _ (sp s : Slab) (w : IsLeft sp) (v : IsValid s) where
  pub move_to_prev_counts :
      ((move_to_prev sp s).0.s_elems + (move_to_prev sp s).1.s_elems ≡ sp.s_elems + s.s_elems)
      × (s.s_elems ≤ slab_free_space sp → (move_to_prev sp s).1.s_elems ≡ 0)
      × (slab_free_space sp ≤ s.s_elems → (move_to_prev sp s).0.s_elems ≡ selem_max)
  unfolding move_to_prev
  move_to_prev_counts = ground arith

  pub move_to_prev-IsValid : IsValid (move_to_prev sp s).0 × IsLeft (move_to_prev sp s).1
  unfolding move_to_prev
  move_to_prev-IsValid = ground arith

  -- move_to_prev from a valid slab to an empty or valid one before it keeps the elements of both
  -- together, in order.
  pub both-move_to_prev : both (move_to_prev sp s) ≡ live sp ++ live s
  unfolding move_to_prev
  both-move_to_prev =
      let some_used : (s.s_elems == 0) ≡ false = ground arith in
      let count : add8 sp.s_elems cp ≡ sp.s_elems + cp = ground arith in
      rw some_used (
        ap₂ ◌++◌ (ap (slice sparr 0) count ∙ received)
          (slice_ext sarr s.s_arr 0 cp left (λ k p. ground arith))
        ∙ append_assoc (live sp) (slice s.s_arr 0 cp) (slice s.s_arr cp left)
        ∙ ap (λ t. live sp ++ t) (sym (slice-cut s.s_arr cp left s.s_elems (ground arith))))
    where
      cp : ℕ
      cp = moved (slab_free_space sp) s.s_elems

      left : ℕ
      left = s.s_elems - cp

      sparr : ℕ → Elem
      sparr = bcopy s.s_arr 0 sp.s_arr sp.s_elems cp

      sarr : ℕ → Elem
      sarr = bcopy s.s_arr cp s.s_arr 0 left

      received : slice sparr 0 (sp.s_elems + cp) ≡ live sp ++ slice s.s_arr 0 cp
      received =
          slice-add sparr 0 sp.s_elems cp
          ∙ ap₂ ◌++◌ (slice_ext sparr sp.s_arr 0 0 sp.s_elems (λ k p. ground arith))
              (slice_ext sparr s.s_arr (0 + sp.s_elems) 0 cp (λ k p. ground arith))
