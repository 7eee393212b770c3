-- ===== src/Slab/Edit.antt =====
-- `add_elem` and `remove_elem` against insertion into and removal from a list, and the invariant
-- that every operation on slabs keeps: the count fits the array, and the extrema are the end cells.
use libslablist.Prelude.{
  ℕ, ◌+◌, ◌-◌, ◌≤◌, ◌<◌, ◌≡◌, ◌⊎◌, inl, inr, ap, ap₂, ◌∙◌, arith, write, bcopy, ltb, Bool-cases,
  insert_at, remove_at, slice, slice_ext,
}
use libslablist.Callbacks.{Elem}
use libslablist.Slab.{Slab, live, selem_max, add_elem, remove_elem}
use libslablist.Slab.Cells.{slice-write-bcopy, slice-bcopy_back}

-- What the tests of src/slablist_test.c (test_slab_extrema) ask of a slab in a chain.
pub record IsValid (s : Slab) : Type 0 where
  pub used : 0 < s.s_elems
  pub fits : s.s_elems ≤ selem_max
  pub min_first : s.s_min ≡ s.s_arr 0
  pub max_last : s.s_max ≡ s.s_arr (s.s_elems - 1)

module _ (s : Slab) (e : Elem) (i : ℕ) where
  s_arr-add_elem :
      (add_elem s e i).s_arr ≡ write (bcopy s.s_arr i s.s_arr (i + 1) (s.s_elems - i)) i e
  unfolding add_elem
  s_arr-add_elem = elim (Bool-cases (ltb s.s_elems selem_max)) [ inl t ↦ rw t | inr t ↦ rw t ]

  -- Into a slab with room.
  module _ (room : s.s_elems < selem_max) (at : i ≤ s.s_elems) where
    pub s_elems-add_elem : (add_elem s e i).s_elems ≡ s.s_elems + 1
    unfolding add_elem
    s_elems-add_elem = ground arith

    -- add_elem into a slab with room, at an index up to its count, puts the element into the list
    -- of its elements at that index.
    pub live-add_elem : live (add_elem s e i) ≡ insert_at i e (live s)
    unfolding add_elem
    live-add_elem =
        ap₂ (λ f n. slice f 0 n) s_arr-add_elem s_elems-add_elem
        ∙ slice-write-bcopy s.s_arr i s.s_elems e at

    -- add_elem into an empty or valid slab with room, at an index up to its count, gives a valid
    -- slab: used, within the array, with its extrema in the end cells.
    pub add_elem-IsValid : (s.s_elems ≡ 0) ⊎ IsValid s → IsValid (add_elem s e i)
    unfolding add_elem
    add_elem-IsValid v = ground arith

  pub s_elems-remove_elem : IsValid s → (remove_elem i s).s_elems ≡ s.s_elems - 1
  unfolding remove_elem
  s_elems-remove_elem v = ground arith

  -- remove_elem at an index in use of a valid slab takes the element at that index out of the list
  -- of its elements.
  pub live-remove_elem : IsValid s → i < s.s_elems → live (remove_elem i s) ≡ remove_at i (live s)
  unfolding remove_elem
  live-remove_elem v h =
      ap (slice (remove_elem i s).s_arr 0) (s_elems-remove_elem v)
      ∙ slice_ext (remove_elem i s).s_arr (bcopy f (i + 1) f i (n - (i + 1))) 0 0 (n - 1)
          (λ k p. ground arith)
      ∙ slice-bcopy_back f i n h
    where
      open s use {s_arr as f, s_elems as n}

  pub remove_elem-IsValid :
      IsValid s → i < s.s_elems → ((remove_elem i s).s_elems ≡ 0) ⊎ IsValid (remove_elem i s)
  unfolding remove_elem
  remove_elem-IsValid v h = ground arith
