-- ===== src/Bookmark.antt =====
-- Bookmarks on a list of slabs: slablist_cur, slablist_next and slablist_prev of src/slablist_find.c,
-- with slablist_head and slablist_end. `sb_node` is NULL or a slab of the chain. `sb_index` stays
-- below 122, so the `int8_t` does not wrap; below 0 it is tested before it is stored.
pub mod Steps
pub mod Pass
use libslablist.Prelude.{ℕ, suc, ◌+◌, ◌-◌, List, [], ◌∷◌, Option, none, some, ◌==◌, if◌then◌else◌}
use libslablist.Callbacks.{Elem}
use libslablist.Slab.{Slab}
use libslablist.Chain.{Place, at, slabs, rewind}

-- `sb_node` with `sb_index`.
abbrev pub Mark : Type 0
Mark = Option (Place × ℕ)

-- What a step leaves in the bookmark, and what it stores through `e`; nothing is -1.
pub record Step : Type 0 where
  pub mark : Mark
  pub e : Option Elem

abbrev stop : Step
stop = record { mark = none; e = none }

abbrev pub on : Place → ℕ → Step
on p i = record { mark = some (p, i); e = some (p.cur.s_arr i) }

unfoldable pub slablist_cur : Mark → Option Elem
slablist_cur none = none
slablist_cur (some (p, i)) = some (p.cur.s_arr i)

-- `s->s_next`, with the place there.
abbrev pub next_slab : Place → Option Place
next_slab p = elim p.after [ [] ↦ none | t ∷ ss ↦ some (at p.sl_slabs (p.cur ∷ p.before) t ss) ]

abbrev pub prev_slab : Place → Option Place
prev_slab p = elim p.before [ [] ↦ none | t ∷ b ↦ some (at p.sl_slabs b t (p.cur ∷ p.after)) ]

-- On the list of `n` slabs with the head `s`.
unfoldable pub slablist_next : ℕ → Slab → List Slab → Mark → Step
slablist_next n s ss none = on (at n [] s ss) 0
slablist_next n s ss (some (p, i)) =
    if i + 1 == p.cur.s_elems
    then elim (next_slab p) [ none ↦ stop | some q ↦ on q 0 ]
    else on p (i + 1)

-- On the list of `n` slabs with the end `s`, and `b` before it.
unfoldable pub slablist_prev : ℕ → List Slab → Slab → Mark → Step
slablist_prev n b s none = on (at n b s []) (s.s_elems - 1)
slablist_prev n b s (some (p, i)) =
    if i == 0
    then elim (prev_slab p) [ none ↦ stop | some q ↦ on q (q.cur.s_elems - 1) ]
    else on p (i - 1)
