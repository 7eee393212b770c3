-- ===== src/Slablist/Ends.antt =====
-- slablist_head and slablist_end (src/slablist_find.c): the elements at both ends. `none` is a fault.
use libslablist.Prelude.{
  suc, ◌-◌, ◌≡◌, refl, sym, ap, ◌∙◌, List, [], ◌∷◌, ◌++◌, All, Option, none, some, append-nil,
  arith, get_elem?, slice, slice-cut,
}
use libslablist.Callbacks.{Elem}
use libslablist.Slab.{Slab, live}
use libslablist.Slab.Edit.{IsValid}
use libslablist.Chain.{flat}
use libslablist.Slablist.{Slablist, Head, small, chain, elems}
use libslablist.Slablist.Shape.{IsList}

unfoldable pub slablist_head : Slablist → Option Elem
slablist_head sl = elim sl.sl_head [
  | small [] ↦ none
  | small (x ∷ _) ↦ some x
  | chain n [] ↦ none
  | chain n (s ∷ _) ↦ some s.s_min
]

-- What `sl_end` is: the last node, or the last slab.
abbrev pub last_of {ℓ} : {A : Type ℓ} → List A → Option A
last_of [] = none
last_of (x ∷ []) = some x
last_of (x ∷ (y ∷ r)) = last_of (y ∷ r)

unfoldable pub slablist_end : Slablist → Option Elem
slablist_end sl = elim sl.sl_head [
  | small nodes ↦ last_of nodes
  | chain n ss ↦ elim (last_of ss) [ none ↦ none | some s ↦ some s.s_max ]
]

head_of :
    (sl : Slablist) (h : Head)
    → IsList (record sl { sl_head = h })
    → slablist_head (record sl { sl_head = h }) ≡ get_elem? (elems h) 0
unfolding slablist_head
head_of sl (small []) w = refl
head_of sl (small (x ∷ xs)) w = refl
head_of sl (chain n []) w = absurd (omega (arith, w.shape))
head_of sl (chain n (s ∷ ss)) w =
    let v = w.shape.2.0 in
    let some_cell : s.s_elems ≡ suc (s.s_elems - 1) = omega (arith, v.used) in
    ap some v.min_first ∙ sym (ap (λ k. get_elem? (slice s.s_arr 0 k ++ flat ss) 0) some_cell)

last_of-append :
    (xs : List Elem) (y : Elem) (ys : List Elem) → last_of (xs ++ (y ∷ ys)) ≡ last_of (y ∷ ys)
last_of-append [] y ys = refl
last_of-append (x ∷ []) y ys = refl
last_of-append (x ∷ (x' ∷ xs)) y ys = last_of-append (x' ∷ xs) y ys

last_of-live : (s : Slab) → IsValid s → last_of (live s) ≡ some s.s_max
last_of-live s v =
    ap last_of (slice-cut s.s_arr (s.s_elems - 1) 1 s.s_elems (omega (arith, v.used)))
    ∙ last_of-append (slice s.s_arr 0 (s.s_elems - 1)) (s.s_arr (s.s_elems - 1)) []
    ∙ ap some (sym v.max_last)

last_of-flat :
    (xs : List Elem) (t : Slab) (r : List Slab)
    → IsValid t
    → last_of (xs ++ flat (t ∷ r)) ≡ last_of (flat (t ∷ r))
last_of-flat xs t r v =
    let some_cell : t.s_elems ≡ suc (t.s_elems - 1) = omega (arith, v.used) in
    let cells : flat (t ∷ r) ≡ t.s_arr 0 ∷ (slice t.s_arr 1 (t.s_elems - 1) ++ flat r) =
      ap (λ k. slice t.s_arr 0 k ++ flat r) some_cell in
    ap (λ l. last_of (xs ++ l)) cells
    ∙ last_of-append xs (t.s_arr 0) (slice t.s_arr 1 (t.s_elems - 1) ++ flat r)
    ∙ sym (ap last_of cells)

end_of_slabs :
    (ss : List Slab)
    → All IsValid ss
    → Path
        (Option Elem)
        (elim (last_of ss) [ none ↦ none | some s ↦ some s.s_max ])
        (last_of (flat ss))
end_of_slabs [] v = refl
end_of_slabs (s ∷ []) v = sym (ap last_of (append-nil (live s)) ∙ last_of-live s v.0)
end_of_slabs (s ∷ (t ∷ r)) v = end_of_slabs (t ∷ r) v.1 ∙ sym (last_of-flat (live s) t r v.1.0)

end_of :
    (sl : Slablist) (h : Head)
    → IsList (record sl { sl_head = h })
    → slablist_end (record sl { sl_head = h }) ≡ last_of (elems h)
unfolding slablist_end
end_of sl (small nodes) w = refl
end_of sl (chain n ss) w = end_of_slabs ss w.shape.2

-- On a well-formed list slablist_head returns the first element and slablist_end the last one, and
-- both fault where there is none.
pub slablist_head-slablist_end :
    (sl : Slablist)
    → IsList sl
    → (slablist_head sl ≡ get_elem? (elems sl.sl_head) 0)
      × (slablist_end sl ≡ last_of (elems sl.sl_head))
slablist_head-slablist_end sl w = (head_of sl sl.sl_head w, end_of sl sl.sl_head w)
