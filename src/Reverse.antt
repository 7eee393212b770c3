-- ===== src/Reverse.antt =====
-- slablist_reverse (src/slablist_add.c).
pub mod Turned
use libslablist.Prelude.{ℕ, zero, suc, ◌+◌, ◌-◌, List, [], ◌∷◌, ltb, if◌then◌else◌, write, sub8}
use libslablist.Callbacks.{Elem}
use libslablist.Slab.{Slab}
use libslablist.Slablist.{Slablist, Head, small, chain, slist_sorted}

-- `while (i < j)`; the fuel is the first `j`, and each round takes two cells.
unfoldable pub swap_loop : ℕ → (ℕ → Elem) → ℕ → ℕ → ℕ → Elem
swap_loop zero arr i j = arr
swap_loop (suc k) arr i j =
    let rest = swap_loop k (write (write arr i (arr j)) j (arr i)) (i + 1) (j - 1) in
    if ltb i j then rest else arr

-- `j` is a `uint8_t`, so it starts at 255 in an empty slab, and the swaps leave the array. `s_min` and
-- `s_max` stay as they are.
unfoldable pub turn : Slab → Slab
unfolding swap_loop
turn s = record s { s_arr = swap_loop (sub8 s.s_elems 1) s.s_arr 0 (sub8 s.s_elems 1) }

-- Each slab goes before those that came before it.
unfoldable pub turn_slabs : List Slab → List Slab → List Slab
turn_slabs done [] = done
turn_slabs done (s ∷ ss) = turn_slabs (turn s ∷ done) ss

unfoldable pub turn_nodes : List Elem → List Elem → List Elem
turn_nodes n_prev [] = n_prev
turn_nodes n_prev (x ∷ xs) = turn_nodes (x ∷ n_prev) xs

unfoldable pub slablist_reverse : Slablist → Slablist
slablist_reverse sl = if slist_sorted sl.sl_flags then sl else record sl {
  sl_head = elim sl.sl_head [
    | small nodes ↦ small (turn_nodes [] nodes)
    | chain n ss ↦ chain n (turn_slabs [] ss)
  ];
}
