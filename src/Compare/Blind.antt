-- ===== src/Compare/Blind.antt =====
-- What slablist_cmp tells of lists of slabs and of small lists.
use libslablist.Prelude.{
  ℕ, zero, suc, ◌+◌, ◌≤◌, ◌<◌, ◌≡◌, refl, inl, inr, List, [], ◌∷◌, map, All, Bool, true, false,
  some, ◌==◌, leb, not, ◌||◌, arith, length, Bool-cases,
}
use libslablist.Callbacks.{Elem, Callbacks, Ranked, same}
use libslablist.Slab.{Slab}
use libslablist.Small.{smelem_max}
use libslablist.Slablist.{Slablist, small, chain}
use libslablist.Compare.{cmp_nodes, cmp_slabs, slablist_cmp}

-- The counts of the slabs of a chain.
abbrev pub counts : List Slab → List ℕ
counts = map (λ s. s.s_elems)

abbrev pub sum : List ℕ → ℕ
sum [] = 0
sum (n ∷ ns) = n + sum ns

module _ {cb : Callbacks} (r : Ranked cb) where
  equal : (e : Elem) → cb.cmp e e ≡ same
  equal e = ground (arith, r.cmp_rank e e)

  -- The elements of some position have different keys.
  abbrev pub differ : List Elem → List Elem → Bool
  differ [] ys = false
  differ (x ∷ xs) [] = false
  differ (x ∷ xs) (y ∷ ys) = not (r.rank x == r.rank y) || differ xs ys

  nodes_differ :
      (k : ℕ) (xs ys : List Elem)
      → k ≡ length xs
      → length xs ≡ length ys
      → cmp_nodes cb k xs ys ≡ some (differ xs ys)
  unfolding cmp_nodes
  nodes_differ zero [] ys h e = refl
  nodes_differ zero (x ∷ xs) ys h e = absurd (omega arith)
  nodes_differ (suc k) [] ys h e = absurd (omega arith)
  nodes_differ (suc k) (x ∷ xs) [] h e = absurd (omega arith)
  nodes_differ (suc k) (x ∷ xs) (y ∷ ys) h e = ground (arith, r.cmp_rank x y, nodes_differ k xs ys)

  -- `k` rounds, from the same index of two slabs with the same count.
  cmp_slabs_blind :
      (k i : ℕ) (s : Slab) (ss : List Slab) (t : Slab) (ts : List Slab)
      → counts (s ∷ ss) ≡ counts (t ∷ ts)
      → i < s.s_elems
      → k + i ≤ sum (counts (s ∷ ss))
      → All (λ x. 0 < x.s_elems) ss
      → cmp_slabs cb k i (s ∷ ss) i (t ∷ ts) ≡ some false
  unfolding cmp_slabs
  cmp_slabs_blind zero i s ss t ts e lt h u = refl
  cmp_slabs_blind (suc k) i s [] t (t' ∷ ts) e lt h u = ground (arith, e)
  cmp_slabs_blind (suc k) i s (s' ∷ ss) t [] e lt h u = ground (arith, e)
  cmp_slabs_blind (suc k) i s [] t [] e lt h u =
      let count : t.s_elems ≡ s.s_elems = ground (arith, e) in
      elim (Bool-cases (i + 1 == s.s_elems)) [
        | inl end ↦
            let end' : (i + 1 == t.s_elems) ≡ true = ground (arith, end, count) in
            let none_left : k ≡ 0 = ground (arith, end, h) in
            rw (equal (s.s_arr i), cmp_slabs) (rw (end, end', none_left) refl)
        | inr more ↦
            let more' : (i + 1 == t.s_elems) ≡ false = ground (arith, more, count) in
            rw (equal (s.s_arr i), cmp_slabs)
              (rw (more, more')
                (cmp_slabs_blind k (i + 1) s [] t [] e (ground (arith, more)) (omega arith) u))
      ]
  cmp_slabs_blind (suc k) i s (s' ∷ ss) t (t' ∷ ts) e lt h u =
      let count : t.s_elems ≡ s.s_elems = ground (arith, e) in
      elim (Bool-cases (i + 1 == s.s_elems)) [
        | inl end ↦
            let end' : (i + 1 == t.s_elems) ≡ true = ground (arith, end, count) in
            rw (equal (s.s_arr i), cmp_slabs)
              (rw (end, end')
                (cmp_slabs_blind k 0 s' ss t' ts (ground (arith, e)) u.0 (ground (arith, end, h))
                  u.1))
        | inr more ↦
            let more' : (i + 1 == t.s_elems) ≡ false = ground (arith, more, count) in
            rw (equal (s.s_arr i), cmp_slabs)
              (rw (more, more')
                (cmp_slabs_blind k (i + 1) s (s' ∷ ss) t (t' ∷ ts) e (ground (arith, more))
                  (omega arith) u))
      ]

  -- slablist_cmp of two lists of slabs with more than SMELEM_MAX elements, whose slabs hold
  -- elements and have the same counts in turn, answers that they are equivalent, whatever the
  -- elements are.
  pub slablist_cmp_blind :
      (sl1 sl2 : Slablist) (n m : ℕ) (s : Slab) (ss : List Slab) (t : Slab) (ts : List Slab)
      → sl1.sl_head ≡ chain n (s ∷ ss)
      → sl2.sl_head ≡ chain m (t ∷ ts)
      → counts (s ∷ ss) ≡ counts (t ∷ ts)
      → All (λ x. 0 < x.s_elems) (s ∷ ss)
      → sl1.sl_elems ≡ sum (counts (s ∷ ss))
      → sl2.sl_elems ≡ sl1.sl_elems
      → smelem_max < sl1.sl_elems
      → slablist_cmp cb sl1 sl2 ≡ some false
  unfolding slablist_cmp
  slablist_cmp_blind sl1 sl2 n m s ss t ts h1 h2 e u c1 c2 many =
      let agree : (sl1.sl_elems == sl2.sl_elems) ≡ true = ground (arith, c2) in
      let large : leb sl1.sl_elems smelem_max ≡ false = ground (arith, many) in
      rw agree (
        rw (h1, h2)
          (rw large (cmp_slabs_blind sl1.sl_elems 0 s ss t ts e u.0 (omega (arith, c1)) u.1)))

  -- slablist_cmp of two small lists that are counted, with the same count, answers that they are
  -- equivalent exactly where the elements of the same positions are.
  pub slablist_cmp_nodes :
      (sl1 sl2 : Slablist) (xs ys : List Elem)
      → sl1.sl_head ≡ small xs
      → sl2.sl_head ≡ small ys
      → sl1.sl_elems ≡ length xs
      → sl2.sl_elems ≡ length ys
      → length xs ≡ length ys
      → length xs ≤ smelem_max
      → slablist_cmp cb sl1 sl2 ≡ some (differ xs ys)
  unfolding slablist_cmp
  slablist_cmp_nodes sl1 sl2 xs ys h1 h2 c1 c2 e fits =
      let agree : (sl1.sl_elems == sl2.sl_elems) ≡ true = ground (arith, c2, c1, e) in
      let few : leb sl1.sl_elems smelem_max ≡ true = ground (arith, fits, c1) in
      rw agree (rw (h1, h2) (rw few (nodes_differ sl1.sl_elems xs ys c1 e)))
