-- ===== src/Insert/Spills.antt =====
-- A full slab: which neighbour takes part, and that each choice puts the element in.
use libslablist.Prelude.{
  ℕ, suc, append-nil, ◌<◌, ◌≡◌, refl, sym, subst, inl, inr, List, [], ◌∷◌, true, false, arith, ltb,
  Bool-cases,
}
use libslablist.Callbacks.{Elem}
use libslablist.Slab.{Slab, mk_slab, selem_max}
use libslablist.Chain.{at, rflat, IsWhole, has_room, is_full, link_after, link_before}
use libslablist.Insert.{
  ira_spill, spill_next, spill_prev, add_before, add_after, ura_rest, ora_rest,
}
use libslablist.Insert.Branches.{Puts, next-Puts, prev-Puts, before-Puts, after-Puts}

module _ (e : Elem) (j n : ℕ) (s : Slab) (full : s.s_elems ≡ selem_max)
    (in_slab : suc j < selem_max) where
  -- A new slab behind this one takes the last element.
  new_next :
      (b a : List Slab) (w : IsWhole (at n b s a))
      → Puts e (suc j) (at n b s a) (spill_next e (suc j) (link_after mk_slab (at n b s a)))
  unfolding link_after
  new_next b a w =
      next-Puts e (suc j) (at n b s a) w full mk_slab a _ in_slab (omega arith) (inl refl) w.right
        (omega (arith, w.counted)) refl

  -- No neighbour behind has room: the one before takes the first element, or there is a new slab.
  spill_rest :
      (b a : List Slab) (w : IsWhole (at n b s a))
      → has_room a ≡ false
      → is_full a ≡ true
      → Puts e (suc j) (at n b s a) (ira_spill e (suc j) (at n b s a)).1
  unfolding ira_spill
  spill_rest [] a w t f = rw (t, f) (new_next [] a w)
  spill_rest (spv ∷ b) a w t f = elim (Bool-cases (ltb spv.s_elems selem_max)) [
    | inl u ↦
        rw (t, u)
          (prev-Puts e (at n (spv ∷ b) s a) w spv b n (ground arith) (inr w.left.0) w.left.1
            w.counted refl j full (omega arith))
    | inr u ↦ rw (t, u, f) (new_next (spv ∷ b) a w)
  ]

  pub ira_spill-Puts :
      (b a : List Slab) (w : IsWhole (at n b s a))
      → Puts e (suc j) (at n b s a) (ira_spill e (suc j) (at n b s a)).1
  unfolding ira_spill
  ira_spill-Puts b [] w = spill_rest b [] w refl refl
  ira_spill-Puts b (snx ∷ a) w = elim (Bool-cases (ltb snx.s_elems selem_max)) [
    | inl t ↦ rw t (
        next-Puts e (suc j) (at n b s (snx ∷ a)) w full snx a n in_slab (ground arith)
          (inr w.right.0) w.right.1 w.counted refl)
    | inr t ↦ spill_rest b (snx ∷ a) w t (let v = w.right.0 in ground arith)
  ]

module _ (e : Elem) (n : ℕ) (s : Slab) (full : s.s_elems ≡ selem_max) where
  module _ (b a : List Slab) (w : IsWhole (at n b s a)) where
    pub new_before : Puts e 0 (at n b s a) (add_before e 0 (link_before mk_slab (at n b s a)))
    unfolding link_before
    new_before =
        before-Puts e (at n b s a) w mk_slab b _ (omega arith) (inl refl) w.left
          (omega (arith, w.counted)) (append-nil (rflat b)) 0 refl

    pub new_after : Puts e s.s_elems (at n b s a) (add_after e 0 (link_after mk_slab (at n b s a)))
    unfolding link_after
    new_after =
        after-Puts e (at n b s a) w mk_slab a _ (omega arith) (inl refl) w.right
          (omega (arith, w.counted)) refl

  -- Under the range of a full slab whose neighbour before has no room.
  pub under_rest :
      (b a : List Slab) (w : IsWhole (at n b s a))
      → Puts e 0 (at n b s a) (ura_rest e 0 (at n b s a)).1
  unfolding ura_rest
  under_rest b [] w = new_before b [] w
  under_rest b (snx ∷ a) w = elim (Bool-cases (ltb snx.s_elems selem_max)) [
    | inl t ↦ rw t (
        next-Puts e 0 (at n b s (snx ∷ a)) w full snx a n (omega arith) (ground arith)
          (inr w.right.0) w.right.1 w.counted refl)
    | inr t ↦ rw t (new_before b (snx ∷ a) w)
  ]

  -- Over the range of a full slab whose neighbour behind has no room.
  pub over_rest :
      (b a : List Slab) (w : IsWhole (at n b s a))
      → Puts e s.s_elems (at n b s a) (ora_rest e s.s_elems (at n b s a)).1
  unfolding ora_rest
  over_rest [] a w = new_after [] a w
  over_rest (spv ∷ b) a w = elim (Bool-cases (ltb spv.s_elems selem_max)) [
    | inl t ↦ rw t (
        subst (λ i. Puts e i (at n (spv ∷ b) s a) (spill_prev e i (at n (spv ∷ b) s a))) (sym full)
          (prev-Puts e (at n (spv ∷ b) s a) w spv b n (ground arith) (inr w.left.0) w.left.1
            w.counted refl 120 full (omega arith)))
    | inr t ↦ rw t (new_after (spv ∷ b) a w)
  ]
