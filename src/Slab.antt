-- ===== src/Slab.antt =====
-- `slab_t` of src/slablist_impl.h and the operations on one slab or on two neighbours:
-- src/slablist_add.c (add_elem, addsn, addsp) and src/slablist_rem.c (remove_elem, move_to_next,
-- move_to_prev). A slab is its cells with the count of those in use; `s_next` and `s_prev` are its
-- place in the chain. `s_below` is NULL, so the walks down the sublayers have no rounds.
pub mod Cells
pub mod Edit
pub mod Spill
pub mod Move
use libslablist.Prelude.{
  ℕ, ◌+◌, ◌-◌, ◌≤◌, ◌<◌, List, Bool, leb, ltb, ◌==◌, if◌then◌else◌, add8, sub8, write, bcopy, slice,
}
use libslablist.Callbacks.{Elem}

-- SELEM_MAX
abbrev pub selem_max : ℕ
selem_max = 121

pub record Slab : Type 0 where
  pub s_min : Elem
  pub s_max : Elem
  pub s_elems : ℕ
  pub s_arr : ℕ → Elem

-- The elements that a slab holds.
abbrev pub live : Slab → List Elem
live s = slice s.s_arr 0 s.s_elems

-- The allocator hands out zeroed memory.
abbrev pub mk_slab : Slab
mk_slab = record { s_min = 0; s_max = 0; s_elems = 0; s_arr = λ _. 0 }

-- SLAB_FREE_SPACE
abbrev pub slab_free_space : Slab → ℕ
slab_free_space s = selem_max - s.s_elems

-- `bcopy` of no cells changes nothing, so the test of `shiftsz` is that of the copy.
unfoldable pub add_elem : Slab → Elem → ℕ → Slab
add_elem s elem i =
    let arr = write (bcopy s.s_arr i s.s_arr (i + 1) (s.s_elems - i)) i elem in
    let min = if i == 0 then arr 0 else s.s_min in
    let max = if i == s.s_elems then arr s.s_elems else s.s_max in
    if ltb s.s_elems selem_max
    then record { s_min = min; s_max = max; s_elems = add8 s.s_elems 1; s_arr = arr }
    else record { s_min = arr 0; s_max = arr (selem_max - 1); s_elems = s.s_elems; s_arr = arr }

-- Spill the last element of `s` into the slab after it. Both slabs are returned, `s` first.
unfoldable pub addsn : Slab → Slab → Elem → ℕ → Slab × Slab
addsn s snx elem q =
    let lst_elem = s.s_arr (s.s_elems - 1) in
    let b4_lst_elem = s.s_arr (s.s_elems - 2) in
    let s' = record s { s_elems = sub8 s.s_elems 1; s_max = b4_lst_elem } in
    let q' = if ltb s'.s_elems q then q - 1 else q in (add_elem s' elem q', add_elem snx lst_elem 0)

-- Spill the first element of `s` into the slab before it. Both slabs are returned, that one first.
unfoldable pub addsp : Slab → Slab → Elem → ℕ → Slab × Slab
addsp spv s elem q =
    let fst_elem = s.s_arr 0 in
    let arr = bcopy s.s_arr 1 s.s_arr 0 (selem_max - 1) in
    let s' = record s { s_elems = sub8 s.s_elems 1; s_arr = arr; s_min = arr 0 } in
    let q' = if ltb 0 q then q - 1 else q in
    (add_elem spv fst_elem spv.s_elems, add_elem s' elem q')

-- The shift is skipped for the last element, where it would move no cell.
unfoldable pub remove_elem : ℕ → Slab → Slab
remove_elem i s =
    let arr =
      if i == s.s_elems - 1
      then s.s_arr
      else bcopy s.s_arr (i + 1) s.s_arr i (s.s_elems - (i + 1)) in
    let n = sub8 s.s_elems 1 in
    let min = if n == 0 then s.s_min else if i == 0 then arr 0 else s.s_min in
    let max = if n == 0 then s.s_max else if i == n then arr (i - 1) else s.s_max in
    record { s_min = min; s_max = max; s_elems = n; s_arr = arr }

-- The last elements of `s` go to the front of `sn`, as many as fit. `s` comes first.
-- With `s` left empty the source reads `s_arr[-1]` for its maximum; here that is cell 0.
unfoldable pub move_to_next : Slab → Slab → Slab × Slab
move_to_next s sn =
    let free = slab_free_space sn in
    let cpelems = if leb free s.s_elems then free else s.s_elems in
    let from = if leb free s.s_elems then s.s_elems - cpelems else 0 in
    let shifted = bcopy sn.s_arr 0 sn.s_arr cpelems sn.s_elems in
    let snarr = bcopy s.s_arr from shifted 0 cpelems in
    let left = s.s_elems - cpelems in
    if s.s_elems == 0 then (s, sn) else (
      record s { s_elems = left; s_max = s.s_arr (left - 1) },
      record sn { s_elems = add8 sn.s_elems cpelems; s_arr = snarr; s_min = snarr 0 },
    )

-- The first elements of `s` go to the end of `sp`, as many as fit. `sp` comes first.
unfoldable pub move_to_prev : Slab → Slab → Slab × Slab
move_to_prev sp s =
    let free = slab_free_space sp in
    let cpelems = if leb free s.s_elems then free else s.s_elems in
    let sparr = bcopy s.s_arr 0 sp.s_arr sp.s_elems cpelems in
    let pn = add8 sp.s_elems cpelems in
    let left = s.s_elems - cpelems in
    let sarr = bcopy s.s_arr cpelems s.s_arr 0 left in
    if s.s_elems == 0 then (sp, s) else (
      record { s_elems = pn; s_arr = sparr; s_min = sparr 0; s_max = sparr (pn - 1) },
      record { s_elems = left; s_arr = sarr; s_min = sarr 0; s_max = sarr (left - 1) },
    )
