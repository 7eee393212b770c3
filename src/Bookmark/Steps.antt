-- ===== src/Bookmark/Steps.antt =====
-- A step of a bookmark goes to the next position, or to the one before.
use libslablist.Prelude.{
  ℕ, ◌+◌, ◌-◌, ◌<◌, ◌≤◌, ◌≡◌, refl, sym, subst, ap, ◌∙◌, inl, inr, List, [], ◌∷◌, ◌++◌, none, some,
  append_assoc, arith, length, length-append, length-slice, get_elem?, ◌==◌, Bool-cases,
}
use libslablist.Slab.{Slab, live}
use libslablist.Chain.{Place, at, flat, rflat}
use libslablist.Slablist.Get.{IsAt, get-IsAt}
use libslablist.Bookmark.{Step, on, slablist_next, slablist_prev}

-- The bookmark is at a position, and that element was stored.
pub record Reaches (ss : List Slab) (pos : ℕ) (s : Step) : Type 0 where
  pub place : Place
  pub index : ℕ
  pub marked : s.mark ≡ some (place, index)
  pub there : IsAt ss pos place index
  pub stored : s.e ≡ get_elem? (flat ss) pos

on-Reaches : (ss : List Slab) (pos i : ℕ) (p : Place) → IsAt ss pos p i → Reaches ss pos (on p i)
on-Reaches ss pos i p a = record {
  place = p;
  index = i;
  marked = refl;
  there = a;
  stored = sym (get-IsAt ss pos i p a);
}

-- At the end the bookmark is cleared and nothing is stored.
abbrev pub Stops : Step → Type 0
Stops s = (s.mark ≡ none) × (s.e ≡ none)

length-rflat :
    (b : List Slab) (s : Slab) → length (rflat b ++ live s) ≡ length (rflat b) + s.s_elems
length-rflat b s = omega (arith, length-append (rflat b) (live s), length-slice s.s_arr 0 s.s_elems)

over_edge :
    (whole : List Slab) (n pos i : ℕ) (b : List Slab) (s : Slab) (t : Slab) (ss : List Slab)
    → IsAt whole pos (at n b s (t ∷ ss)) i
    → i + 1 ≡ s.s_elems
    → IsAt whole (pos + 1) (at n (s ∷ b) t ss) 0
over_edge whole n pos i b s t ss a edge = record {
  kept = append_assoc (rflat b) (live s) (live t ++ flat ss) ∙ a.kept;
  left = (a.here, a.left);
  here = a.right.0;
  right = a.right.1;
  counted = omega (arith, a.counted);
  inside = a.right.0.used;
  offset = omega (arith, a.offset, length-rflat b s, edge);
}

back_edge :
    (whole : List Slab) (n pos : ℕ) (t : Slab) (b : List Slab) (s : Slab) (ss : List Slab)
    → IsAt whole pos (at n (t ∷ b) s ss) 0
    → IsAt whole (pos - 1) (at n b t (s ∷ ss)) (t.s_elems - 1)
back_edge whole n pos t b s ss a = record {
  kept = sym (append_assoc (rflat b) (live t) (live s ++ flat ss)) ∙ a.kept;
  left = a.left.1;
  here = a.left.0;
  right = (a.here, a.right);
  counted = omega (arith, a.counted);
  inside = omega (arith, a.left.0.used);
  offset = omega (arith, a.offset, length-rflat b t, a.left.0.used);
}

within :
    (whole : List Slab) (pos i j : ℕ) (p : Place)
    → IsAt whole pos p i
    → j < p.cur.s_elems
    → (pos' : ℕ) → pos' + i ≡ pos + j
    → IsAt whole pos' p j
within whole pos i j p a h pos' e = record {
  kept = a.kept;
  left = a.left;
  here = a.here;
  right = a.right;
  counted = a.counted;
  inside = h;
  offset = omega (arith, a.offset, e);
}

length-whole :
    (whole : List Slab) (pos i : ℕ) (p : Place)
    → IsAt whole pos p i
    → length (flat whole) ≡ length (rflat p.before) + (p.cur.s_elems + length (flat p.after))
length-whole whole pos i p a = omega (
  arith,
  ap length a.kept,
  length-append (rflat p.before) (live p.cur ++ flat p.after),
  length-append (live p.cur) (flat p.after),
  length-slice p.cur.s_arr 0 p.cur.s_elems,
)

more : (t : Slab) (ss : List Slab) → t.s_elems ≤ length (live t ++ flat ss)
more t ss = omega (arith, length-append (live t) (flat ss), length-slice t.s_arr 0 t.s_elems)

module _ (whole : List Slab) (pos i : ℕ) where
  abbrev pub Forward : Step → Type 0
  Forward step =
      (pos + 1 < length (flat whole) → Reaches whole (pos + 1) step)
      × (pos + 1 ≡ length (flat whole) → Stops step)

  abbrev pub Backward : Step → Type 0
  Backward step = (0 < pos → Reaches whole (pos - 1) step) × (pos ≡ 0 → Stops step)

  forward :
      (m n : ℕ) (h : Slab) (hs b : List Slab) (s : Slab) (ss : List Slab)
      → IsAt whole pos (at n b s ss) i
      → Forward (slablist_next m h hs (some (at n b s ss, i)))
  unfolding slablist_next
  forward m n h hs b s [] a = elim (Bool-cases (i + 1 == s.s_elems)) [
    | inl t ↦
        rw (t, slablist_next)
          (
            λ k. absurd (ground (arith, a.offset, length-whole whole pos i (at n b s []) a)),
            λ k. (refl, refl),
          )
    | inr t ↦
        rw (t, slablist_next)
          (
            λ k. on-Reaches whole (pos + 1) (i + 1) (at n b s []) (
                within whole pos i (i + 1) (at n b s []) a (ground (arith, a.inside)) (pos + 1)
                  (omega arith)),
            λ k.
                absurd
                  (ground (arith, a.inside, a.offset, length-whole whole pos i (at n b s []) a)),
          )
  ]
  forward m n h hs b s (t ∷ ss) a = elim (Bool-cases (i + 1 == s.s_elems)) [
    | inl u ↦
        rw (u, slablist_next)
          (
            λ k.
                on-Reaches whole (pos + 1) 0 (at n (s ∷ b) t ss)
                  (over_edge whole n pos i b s t ss a (ground arith)),
            λ k. absurd (
                ground (
                  arith,
                  a.offset,
                  a.right.0.used,
                  length-whole whole pos i (at n b s (t ∷ ss)) a,
                  more t ss,
                )),
          )
    | inr u ↦
        rw (u, slablist_next)
          (
            λ k. on-Reaches whole (pos + 1) (i + 1) (at n b s (t ∷ ss)) (
                within whole pos i (i + 1) (at n b s (t ∷ ss)) a (ground (arith, a.inside))
                  (pos + 1) (omega arith)),
            λ k. absurd (
                ground (arith, a.inside, a.offset, length-whole whole pos i (at n b s (t ∷ ss)) a)),
          )
  ]

  backward :
      (m n : ℕ) (h : Slab) (hs b : List Slab) (s : Slab) (ss : List Slab)
      → IsAt whole pos (at n b s ss) i
      → Backward (slablist_prev m hs h (some (at n b s ss, i)))
  unfolding slablist_prev
  backward m n h hs [] s ss a = elim (Bool-cases (i == 0)) [
    | inl t ↦ rw (t, slablist_prev) (λ k. absurd (ground (arith, a.offset)), λ k. (refl, refl))
    | inr t ↦
        rw (t, slablist_prev)
          (
            λ k. on-Reaches whole (pos - 1) (i - 1) (at n [] s ss) (
                within whole pos i (i - 1) (at n [] s ss) a (ground (arith, a.inside)) (pos - 1)
                  (ground (arith, a.offset))),
            λ k. absurd (ground (arith, a.offset)),
          )
  ]
  backward m n h hs (t ∷ b) s ss a = elim (Bool-cases (i == 0)) [
    | inl u ↦
        let zero_index : i ≡ 0 = ground arith in
        rw (u, slablist_prev)
          (
            λ k. on-Reaches whole (pos - 1) (t.s_elems - 1) (at n b t (s ∷ ss)) (
                back_edge whole n pos t b s ss
                  (subst (IsAt whole pos (at n (t ∷ b) s ss)) zero_index a)),
            λ k. absurd (omega (arith, a.offset, length-rflat b t, a.left.0.used)),
          )
    | inr u ↦
        rw (u, slablist_prev)
          (
            λ k. on-Reaches whole (pos - 1) (i - 1) (at n (t ∷ b) s ss) (
                within whole pos i (i - 1) (at n (t ∷ b) s ss) a (ground (arith, a.inside))
                  (pos - 1) (ground (arith, a.offset))),
            λ k. absurd (ground (arith, a.offset)),
          )
  ]

  -- From a bookmark at a position of a list of slabs, slablist_next goes to the next position and
  -- stores the element there, within a slab and over the edge to the next one. At the last
  -- position it clears the bookmark and stores nothing.
  pub slablist_next-Forward :
      (n : ℕ) (s : Slab) (ss : List Slab) (p : Place)
      → IsAt whole pos p i
      → Forward (slablist_next n s ss (some (p, i)))
  slablist_next-Forward n s ss p a = forward n p.sl_slabs s ss p.before p.cur p.after a

  -- From a bookmark at a position of a list of slabs, slablist_prev goes to the position before
  -- and stores the element there, within a slab and over the edge to the previous one. At the
  -- first position it clears the bookmark and stores nothing.
  pub slablist_prev-Backward :
      (n : ℕ) (b : List Slab) (s : Slab) (p : Place)
      → IsAt whole pos p i
      → Backward (slablist_prev n b s (some (p, i)))
  slablist_prev-Backward n b s p a = backward n p.sl_slabs s b p.before p.cur p.after a
