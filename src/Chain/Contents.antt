-- ===== src/Chain/Contents.antt =====
-- The contents of a chain, seen from any of its slabs.
use libslablist.Prelude.{
  All, ℕ, suc, ◌+◌, ◌-◌, ◌<◌, arith, length, length-append, length-slice, slice, slice-cut, ◌≡◌,
  refl, sym, ap, ◌∙◌, List, [], ◌∷◌, ◌++◌, append_assoc,
}
use libslablist.Callbacks.{Elem}
use libslablist.Slab.{Slab, live}
use libslablist.Slab.Edit.{IsValid}
use libslablist.Chain.{Place, flat, rflat, rewind, slabs, contents}

-- Two neighbours in the middle of a run of four.
pub regroup {ℓ} : {A : Type ℓ} (r a b c : List A) → (r ++ a) ++ (b ++ c) ≡ r ++ ((a ++ b) ++ c)
regroup r a b c = append_assoc r a (b ++ c) ∙ ap (λ t. r ++ t) (sym (append_assoc a b c))

pub flat-rewind : (b ss : List Slab) → flat (rewind b ss) ≡ rflat b ++ flat ss
flat-rewind [] ss = refl
flat-rewind (s ∷ b) ss = flat-rewind b (s ∷ ss) ∙ sym (append_assoc (rflat b) (live s) (flat ss))

pub All-rewind : (b ss : List Slab) → All IsValid b → All IsValid ss → All IsValid (rewind b ss)
All-rewind [] ss h k = k
All-rewind (s ∷ b) ss h k = All-rewind b (s ∷ ss) h.1 (h.0, k)

pub length-rewind : (b ss : List Slab) → length (rewind b ss) ≡ length b + length ss
length-rewind [] ss = omega arith
length-rewind (s ∷ b) ss = omega (arith, length-rewind b (s ∷ ss))

-- Whatever slab one looks from, the elements are those of the chain from its head on.
pub flat-slabs : (p : Place) → flat (slabs p) ≡ contents p
flat-slabs p = flat-rewind p.before (p.cur ∷ p.after)

-- The contents on both sides of a cell of the slab in view.
module _ (p : Place) (off : ℕ) where
  abbrev pub behind : List Elem
  behind = slice p.cur.s_arr (suc off) (p.cur.s_elems - (off + 1)) ++ flat p.after

  abbrev pub ahead : List Elem
  ahead = rflat p.before ++ slice p.cur.s_arr 0 off

  pub cut_at : off < p.cur.s_elems → contents p ≡ ahead ++ (p.cur.s_arr off ∷ behind)
  cut_at h =
      ap (λ t. rflat p.before ++ (t ++ flat p.after))
        (slice-cut p.cur.s_arr off (suc (p.cur.s_elems - (off + 1))) p.cur.s_elems (omega arith))
      ∙ sym (
          regroup (rflat p.before) (slice p.cur.s_arr 0 off)
            (slice p.cur.s_arr off (suc (p.cur.s_elems - (off + 1)))) (flat p.after))

  pub length-ahead : length ahead ≡ length (rflat p.before) + off
  length-ahead = omega (
    arith,
    length-append (rflat p.before) (slice p.cur.s_arr 0 off),
    length-slice p.cur.s_arr 0 off,
  )
