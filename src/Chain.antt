-- ===== src/Chain.antt =====
-- The doubly linked chain of slabs, and a pointer into it: src/slablist_cons.c (link_slab,
-- unlink_slab). A `slab_t *` is the slab with what is reached from it by `s_prev` and by `s_next`,
-- nearest first; NULL is the empty list. `sl_slabs` of the list goes along, since the functions that
-- link count in it. `sl_head` and `sl_end` are the two ends.
pub mod Contents
use libslablist.Prelude.{
  All, ℕ, suc, ◌+◌, ◌≡◌, ◌%◌, ◌^◌, List, [], ◌∷◌, ◌++◌, Bool, true, false, Option, none, some, ltb,
  ◌==◌, add64, sub64, length,
}
use libslablist.Callbacks.{Elem}
use libslablist.Slab.{Slab, live, mk_slab, selem_max}
use libslablist.Slab.Edit.{IsValid}

pub record Place : Type 0 where
  pub sl_slabs : ℕ
  pub before : List Slab
  pub cur : Slab
  pub after : List Slab

abbrev pub at : ℕ → List Slab → Slab → List Slab → Place
at n b s a = record { sl_slabs = n; before = b; cur = s; after = a }

-- The elements of a run of slabs, and of a run that is held nearest first.
abbrev pub flat : List Slab → List Elem
flat [] = []
flat (s ∷ ss) = live s ++ flat ss

abbrev pub rflat : List Slab → List Elem
rflat [] = []
rflat (s ∷ ss) = rflat ss ++ live s

abbrev pub contents : Place → List Elem
contents p = rflat p.before ++ (live p.cur ++ flat p.after)

-- Back to the slab at the head.
abbrev pub rewind : List Slab → List Slab → List Slab
rewind [] ss = ss
rewind (s ∷ b) ss = rewind b (s ∷ ss)

abbrev pub slabs : Place → List Slab
slabs p = rewind p.before (p.cur ∷ p.after)

-- Every slab of the chain is valid, and the count is right as far as 64 bits tell.
pub record IsWhole (p : Place) : Type 0 where
  pub left : All IsValid p.before
  pub here : IsValid p.cur
  pub right : All IsValid p.after
  pub counted : p.sl_slabs ≡ (length p.before + suc (length p.after)) % 2 ^ 64

-- link_slab (mk_slab (), s, SLAB_LINK_AFTER) and the same with SLAB_LINK_BEFORE.
unfoldable pub link_after : Slab → Place → Place
link_after ns p = record p { sl_slabs = add64 p.sl_slabs 1; after = ns ∷ p.after }

unfoldable pub link_before : Slab → Place → Place
link_before ns p = record p { sl_slabs = add64 p.sl_slabs 1; before = ns ∷ p.before }

-- unlink_slab: the slabs that stay, split where the slab stood.
abbrev pub unlink_slab : Place → ℕ × List Slab × List Slab
unlink_slab p = (sub64 p.sl_slabs 1, p.before, p.after)

-- `s != NULL && s->s_elems < SELEM_MAX`, of a neighbour.
abbrev pub has_room : List Slab → Bool
has_room [] = false
has_room (s ∷ _) = ltb s.s_elems selem_max

-- `s == NULL || s->s_elems == SELEM_MAX`.
abbrev pub is_full : List Slab → Bool
is_full [] = true
is_full (s ∷ _) = s.s_elems == selem_max
