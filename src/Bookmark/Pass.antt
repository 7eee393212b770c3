-- ===== src/Bookmark/Pass.antt =====
-- A pass over a list of slabs by slablist_next.
use libslablist.Prelude.{
  ℕ, zero, suc, ◌+◌, ◌<◌, ◌≡◌, refl, sym, ap, ◌∙◌, List, [], ◌∷◌, ◌++◌, All, none, some,
  append_assoc, arith, length, length-append, length-slice, ap₂, get_elem?, get_elem?-append,
}
use libslablist.Callbacks.{Elem}
use libslablist.Slab.{Slab, live}
use libslablist.Slab.Edit.{IsValid}
use libslablist.Chain.{Place, at, flat}
use libslablist.Slablist.Get.{IsAt, get-IsAt}
use libslablist.Bookmark.{Mark, slablist_next}
use libslablist.Bookmark.Steps.{slablist_next-Forward}

module _ (n : ℕ) (s : Slab) (ss : List Slab) where
  -- What is stored by up to `fuel` calls, until one returns -1.
  unfoldable pub visit : ℕ → Mark → List Elem
  visit zero m = []
  visit (suc fuel) m =
      let rest = visit fuel (slablist_next n s ss m).mark in
      elim (slablist_next n s ss m).e [ none ↦ [] | some x ↦ x ∷ rest ]

  abbrev whole : List Slab
  whole = s ∷ ss

  from_mark :
      (ys xs : List Elem) (fuel pos i : ℕ) (p : Place)
      → flat whole ≡ xs ++ ys
      → length xs ≡ pos + 1
      → IsAt whole pos p i
      → length ys < fuel
      → visit fuel (some (p, i)) ≡ ys
  unfolding visit
  from_mark ys xs zero pos i p split place a h = absurd (omega arith)
  from_mark [] xs (suc fuel) pos i p split place a h =
      let total : pos + 1 ≡ length (flat whole) =
        omega (arith, ap length split, length-append xs [], place) in
      let ended = (slablist_next-Forward whole pos i n s ss p a).1 total in rw (ended.1, visit) refl
  from_mark (y ∷ ys) xs (suc fuel) pos i p split place a h =
      let more : pos + 1 < length (flat whole) =
        omega (arith, ap length split, length-append xs (y ∷ ys), place) in
      let next = (slablist_next-Forward whole pos i n s ss p a).0 more in
      let stored : (slablist_next n s ss (some (p, i))).e ≡ some y =
        next.stored
        ∙ ap (λ l. get_elem? l (pos + 1)) split
        ∙ ap (get_elem? (xs ++ (y ∷ ys))) (sym place)
        ∙ get_elem?-append xs ys y in
      rw (stored, visit)
        (rw next.marked (
          ap (λ l. y ∷ l)
            (from_mark ys (xs ++ (y ∷ [])) fuel (pos + 1) next.index next.place
              (split ∙ sym (append_assoc xs (y ∷ []) ys))
              (omega (arith, length-append xs (y ∷ []), place)) next.there (omega arith))))

  from_start :
      (l : List Elem) (fuel : ℕ)
      → flat whole ≡ l
      → IsAt whole 0 (at n [] s ss) 0
      → length l < fuel
      → visit fuel none ≡ l
  unfolding visit slablist_next
  from_start l zero e a h = absurd (omega arith)
  from_start [] (suc fuel) e a h = absurd (
      omega (
        arith,
        ap length e,
        length-append (live s) (flat ss),
        length-slice s.s_arr 0 s.s_elems,
        a.inside,
      ))
  from_start (y ∷ ys) (suc fuel) e a h =
      let read : some (s.s_arr 0) ≡ some y =
        sym (get-IsAt whole 0 0 (at n [] s ss) a) ∙ ap (λ l. get_elem? l 0) e in
      ap₂ ◌∷◌ (ground (arith, read))
        (from_mark ys (y ∷ []) fuel 0 0 (at n [] s ss) e (omega arith) a (omega arith))

  -- On a list of valid slabs, and with no bookmark set, calls of slablist_next store each element
  -- of the list once and in order, and the next call returns -1: `fuel` calls are allowed, more
  -- than there are elements.
  pub visit-flat :
      (fuel : ℕ)
      → All IsValid (s ∷ ss)
      → length (flat (s ∷ ss)) < fuel
      → visit fuel none ≡ flat (s ∷ ss)
  visit-flat fuel v h =
      from_start (flat whole) fuel refl
        (record {
          kept = refl;
          left = tt;
          here = v.0;
          right = v.1;
          counted = omega arith;
          inside = v.0.used;
          offset = omega arith;
        })
        h
