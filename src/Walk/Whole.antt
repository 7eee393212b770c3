-- ===== src/Walk/Whole.antt =====
-- A pass over the slabs is a pass over the elements.
use libslablist.Prelude.{
  ℕ, zero, suc, ◌≡◌, refl, sym, ap, ◌∙◌, List, [], ◌∷◌, ◌++◌, Option, some, append-nil,
  append_assoc, arith, length, ◌==◌, Bool-cases, inl, inr,
}
use libslablist.Callbacks.{Elem}
use libslablist.Slab.{Slab, live}
use libslablist.Chain.{flat, rflat, rewind}
use libslablist.Chain.Contents.{length-rewind}
use libslablist.Slablist.{Slablist, Head, small, chain, elems}
use libslablist.Slablist.Shape.{IsList, Shape}
use libslablist.Walk.{fold_loop, slablist_foldr, slablist_foldl}

-- A callback that folds an array from its start, and one that folds it from its end.
pub record FoldsRight (f : Elem → List Elem → Elem) : Type 0 where
  pub start : (z : Elem) → f z [] ≡ z
  pub then : (z : Elem) (xs ys : List Elem) → f z (xs ++ ys) ≡ f (f z xs) ys

pub record FoldsLeft (f : Elem → List Elem → Elem) : Type 0 where
  pub start : (z : Elem) → f z [] ≡ z
  pub then : (z : Elem) (xs ys : List Elem) → f z (xs ++ ys) ≡ f (f z ys) xs

right_loop :
    (f : Elem → List Elem → Elem) (law : FoldsRight f) (n : ℕ) (z : Elem) (ss : List Slab)
    → n ≡ length ss
    → fold_loop f n z ss ≡ some (f z (flat ss))
unfolding fold_loop
right_loop f law zero z [] h = ap some (sym (law.start z))
right_loop f law zero z (s ∷ ss) h = absurd (omega arith)
right_loop f law (suc k) z [] h = absurd (omega arith)
right_loop f law (suc k) z (s ∷ ss) h =
    right_loop f law k (f z (live s)) ss (omega arith)
    ∙ ap some (sym (law.then z (live s) (flat ss)))

left_loop :
    (f : Elem → List Elem → Elem) (law : FoldsLeft f) (n : ℕ) (z : Elem) (ss : List Slab)
    → n ≡ length ss
    → fold_loop f n z ss ≡ some (f z (rflat ss))
unfolding fold_loop
left_loop f law zero z [] h = ap some (sym (law.start z))
left_loop f law zero z (s ∷ ss) h = absurd (omega arith)
left_loop f law (suc k) z [] h = absurd (omega arith)
left_loop f law (suc k) z (s ∷ ss) h =
    left_loop f law k (f z (live s)) ss (omega arith)
    ∙ ap some (sym (law.then z (rflat ss) (live s)))

rflat-rewind : (b ss : List Slab) → rflat (rewind b ss) ≡ rflat ss ++ flat b
rflat-rewind [] ss = sym (append-nil (rflat ss))
rflat-rewind (s ∷ b) ss = rflat-rewind b (s ∷ ss) ∙ append_assoc (rflat ss) (live s) (flat b)

pub none_left : (xs : List Elem) → length xs ≡ 0 → xs ≡ []
none_left [] h = refl
none_left (x ∷ xs) h = absurd (omega arith)

module _ (f : Elem → List Elem → Elem) (z : Elem) where
  right_head :
      (h : Head)
      → FoldsRight f
      → Shape h
      → Path
          (Option Elem)
          (elim h [ small nodes ↦ some (f z nodes) | chain n ss ↦ fold_loop f n z ss ])
          (some (f z (elems h)))
  right_head (small nodes) law w = refl
  right_head (chain n ss) law w = right_loop f law n z ss w.0

  left_head :
      (h : Head)
      → FoldsLeft f
      → Shape h
      → Path
          (Option Elem)
          (elim h [ small nodes ↦ some (f z nodes) | chain n ss ↦ fold_loop f n z (rewind ss []) ])
          (some (f z (elems h)))
  left_head (small nodes) law w = refl
  left_head (chain n ss) law w =
      left_loop f law n z (rewind ss []) (omega (arith, w, length-rewind ss []))
      ∙ ap (λ t. some (f z t)) (rflat-rewind ss [])

  -- On a well-formed list and for a callback that folds an array from its start, slablist_foldr
  -- returns, and its result is the fold of all elements in order.
  pub slablist_foldr_lem :
      (sl : Slablist)
      → FoldsRight f
      → IsList sl
      → slablist_foldr f z sl ≡ some (f z (elems sl.sl_head))
  unfolding slablist_foldr
  slablist_foldr_lem sl law w = elim (Bool-cases (sl.sl_elems == 0)) [
    | inl t ↦
        let gone : elems sl.sl_head ≡ [] =
          none_left (elems sl.sl_head) (ground (arith, w.counted)) in
        rw t (ap some (sym (ap (f z) gone ∙ law.start z)))
    | inr t ↦ rw t (right_head sl.sl_head law w.shape)
  ]

  -- On a well-formed list and for a callback that folds an array from its end, slablist_foldl
  -- returns, and its result is the fold of all elements from the last to the first.
  pub slablist_foldl_lem :
      (sl : Slablist)
      → FoldsLeft f
      → IsList sl
      → slablist_foldl f z sl ≡ some (f z (elems sl.sl_head))
  unfolding slablist_foldl
  slablist_foldl_lem sl law w = elim (Bool-cases (sl.sl_elems == 0)) [
    | inl t ↦
        let gone : elems sl.sl_head ≡ [] =
          none_left (elems sl.sl_head) (ground (arith, w.counted)) in
        rw t (ap some (sym (ap (f z) gone ∙ law.start z)))
    | inr t ↦ rw t (left_head sl.sl_head law w.shape)
  ]
