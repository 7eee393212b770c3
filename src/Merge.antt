-- ===== src/Merge.antt =====
-- What follows a removal from a slab: slab_generic_rem of src/slablist_rem.c. A slab that became empty
-- is unlinked; otherwise the slab, its predecessor or its successor is emptied into the other two
-- where it fits, and unlinked.
pub mod Slabs
pub mod Keeps
use libslablist.Prelude.{ℕ, ◌+◌, List, [], ◌∷◌, if◌then◌else◌, leb, ◌==◌, sub64}
use libslablist.Slab.{Slab, slab_free_space, move_to_next, move_to_prev}
use libslablist.Chain.{Place, rewind, slabs, unlink_slab}

-- The cases after the two early ends, from the neighbours: `sl_slabs` and the slabs from the head on.
unfoldable pub merge : ℕ → List Slab → Slab → List Slab → ℕ × List Slab
unfolding move_to_next move_to_prev
merge n [] s [] = (n, s ∷ [])
merge n [] s (sn ∷ a) =
    if leb s.s_elems (slab_free_space sn)
    then (sub64 n 1, (move_to_next s sn).1 ∷ a)
    else (n, s ∷ (sn ∷ a))
merge n (sp ∷ b) s [] =
    if leb s.s_elems (slab_free_space sp)
    then (sub64 n 1, rewind b ((move_to_prev sp s).0 ∷ []))
    else (n, rewind b (sp ∷ (s ∷ [])))
merge n (sp ∷ b) s (sn ∷ a) =
    if leb s.s_elems (slab_free_space sn)
    then (sub64 n 1, rewind b (sp ∷ ((move_to_next s sn).1 ∷ a)))
    else if leb s.s_elems (slab_free_space sp)
    then (sub64 n 1, rewind b ((move_to_prev sp s).0 ∷ (sn ∷ a)))
    else if leb s.s_elems (slab_free_space sp + slab_free_space sn)
    then (let (s1, sn') = move_to_next s sn in
        let (sp', _) = move_to_prev sp s1 in (sub64 n 1, rewind b (sp' ∷ (sn' ∷ a))))
    else if leb sn.s_elems (slab_free_space s + slab_free_space sp)
    then (let (sp', s1) = move_to_prev sp s in
        let (s2, _) = move_to_prev s1 sn in (sub64 n 1, rewind b (sp' ∷ (s2 ∷ a))))
    else if leb sp.s_elems (slab_free_space s + slab_free_space sn)
    then (let (s1, sn') = move_to_next s sn in
        let (_, s2) = move_to_next sp s1 in (sub64 n 1, rewind b (s2 ∷ (sn' ∷ a))))
    else (n, rewind b (sp ∷ (s ∷ (sn ∷ a))))

-- The pointer is at the slab that lost an element.
unfoldable pub slab_generic_rem : Place → ℕ × List Slab
unfolding merge
slab_generic_rem p =
    if p.cur.s_elems == 0
    then (sub64 p.sl_slabs 1, rewind p.before p.after)
    else if p.sl_slabs == 1
    then (p.sl_slabs, slabs p)
    else merge p.sl_slabs p.before p.cur p.after
