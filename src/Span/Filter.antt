-- ===== src/Span/Filter.antt =====
-- The elements of a list that are in a range of keys.
use libslablist.Prelude.{
  ℕ, zero, suc, ◌≤◌, ◌<◌, ◌≡◌, refl, sym, ap, ◌∙◌, List, [], ◌∷◌, ◌++◌, All, All-map, Option, some,
  arith, length, inl, inr, Bool-cases, if◌then◌else◌, true, leb, ◌&&◌,
}
use libslablist.Callbacks.{Elem, Callbacks, Ranked, bounds}
use libslablist.Sorted.{Below, Above, Ascends, Above-mono}
use libslablist.Span.{copy_nodes, in_range, from_range, to_range}

unfoldable pub inside : Callbacks → Elem → Elem → List Elem → List Elem
inside cb min max [] = []
inside cb min max (x ∷ xs) =
    let rest = inside cb min max xs in if in_range cb min max x then x ∷ rest else rest

pub copy_nodes_all : (m : ℕ) (xs : List Elem) → m ≡ length xs → copy_nodes m xs ≡ some xs
unfolding copy_nodes
copy_nodes_all zero [] h = refl
copy_nodes_all zero (x ∷ xs) h = absurd (omega arith)
copy_nodes_all (suc m) [] h = absurd (omega arith)
copy_nodes_all (suc m) (x ∷ xs) h = rw (copy_nodes_all m xs (omega arith)) refl

module _ {cb : Callbacks} (r : Ranked cb) (min max : Elem) (le : r.rank min ≤ r.rank max) where
  open r use {rank}

  pub in_range-rank : (e : Elem) → cb.bnd e min max ≡ bounds (rank e) (rank min) (rank max)
  in_range-rank e = r.bnd_rank e min max le

  pub in_range-leb :
      (e : Elem) → in_range cb min max e ≡ (leb (rank min) (rank e) && leb (rank e) (rank max))
  in_range-leb e = ground (arith, in_range-rank e)

  pub inside-append :
      (xs ys : List Elem)
      → inside cb min max (xs ++ ys) ≡ inside cb min max xs ++ inside cb min max ys
  unfolding inside
  inside-append [] ys = refl
  inside-append (x ∷ xs) ys = ground (arith, inside-append xs ys)

  pub inside-Below : (xs : List Elem) → Below rank min xs → inside cb min max xs ≡ []
  unfolding inside
  inside-Below [] h = refl
  inside-Below (x ∷ xs) h = ground (arith, in_range-rank x, inside-Below xs h.1)

  pub inside-Above : (xs : List Elem) → Above rank max xs → inside cb min max xs ≡ []
  unfolding inside
  inside-Above [] h = refl
  inside-Above (x ∷ xs) h = ground (arith, in_range-rank x, inside-Above xs h.1)

  abbrev pub Within : List Elem → Type 0
  Within xs = All (λ x. (rank min ≤ rank x) × (rank x ≤ rank max)) xs

  pub inside-Within : (xs : List Elem) → Within xs → inside cb min max xs ≡ xs
  unfolding inside
  inside-Within [] h = refl
  inside-Within (x ∷ xs) h = ground (arith, in_range-rank x, inside-Within xs h.1)

  -- From a node in the range on, the nodes up to the last one in it are those in it.
  to_range-inside :
      (xs : List Elem)
      → Ascends rank xs
      → All (λ x. rank min ≤ rank x) xs
      → to_range cb min max xs ≡ inside cb min max xs
  unfolding to_range inside
  to_range-inside [] asc h = refl
  to_range-inside (x ∷ xs) asc h = elim (Bool-cases (in_range cb min max x)) [
    | inl t ↦ rw (to_range-inside xs asc.1 h.1, to_range, inside) (joined t (inside cb min max xs))
    | inr t ↦
        let above : Above rank max xs =
          Above-mono rank max x xs (ground (arith, t, in_range-rank x, h.0)) asc.0 in
        rw (to_range-inside xs asc.1 h.1, t, to_range, inside)
          (rw (inside-Above xs above) (rw t refl))
  ]
    where
      joined :
          in_range cb min max x ≡ true
          → (l : List Elem)
          → Path
              (List Elem)
              (elim l [ [] ↦ if in_range cb min max x then x ∷ [] else [] | y ∷ ys ↦ x ∷ (y ∷ ys) ])
              (if in_range cb min max x then x ∷ l else l)
      joined t [] = rw t refl
      joined t (y ∷ ys) = rw t refl

  -- The nodes from the first one in the range on.
  pub from_range-inside :
      (f : Elem → List Elem → Elem) (z : Elem) (xs : List Elem)
      → f z [] ≡ z
      → Ascends rank xs
      → Path
          (Option Elem)
          (elim (from_range cb min max xs) [
            | [] ↦ some z
            | y ∷ ys ↦ some (f z (to_range cb min max (y ∷ ys)))
          ])
          (some (f z (inside cb min max xs)))
  unfolding from_range inside
  from_range-inside f z [] start asc = ap some (sym start)
  from_range-inside f z (x ∷ xs) start asc = elim (Bool-cases (in_range cb min max x)) [
    | inl t ↦
        let low : rank min ≤ rank x = ground (arith, t, in_range-rank x) in
        let here : inside cb min max (x ∷ xs) ≡ x ∷ inside cb min max xs = rw (t, inside) refl in
        let all : to_range cb min max (x ∷ xs) ≡ x ∷ inside cb min max xs =
          to_range-inside (x ∷ xs) asc
            (low, All-map (λ y. rank x < rank y) (λ y p. omega arith) xs asc.0)
          ∙ here in
        rw (t, from_range) (ap (λ l. some (f z l)) all)
    | inr t ↦ rw (t, from_range, inside) (from_range-inside f z xs start asc.1)
  ]
