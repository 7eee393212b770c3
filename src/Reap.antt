-- ===== src/Reap.antt =====
-- Reaping of a list of slabs: slablist_reap (src/slablist_rem.c), try_reap and try_reap_all
-- (src/slablist_cons.c), where there are no sublayers to tell.
pub mod Keeps
use libslablist.Prelude.{
  ℕ, ◌+◌, ◌-◌, ◌/◌, List, [], ◌∷◌, Bool, true, false, Option, none, some, if◌then◌else◌, ltb, leb,
  ◌==◌, ◌&&◌, sub64,
}
use libslablist.Slab.{Slab, selem_max, move_to_prev}

-- The slab `s` stays before what the loop makes of the rest.
abbrev pub behind : Slab → Option (ℕ × List Slab) → Option (ℕ × List Slab)
behind s none = none
behind s (some (n, r)) = some (n, s ∷ r)

-- `while (i < (sl->sl_slabs - 1))`, from the slab `s` with those after it, or from `s->s_next` of a slab
-- that was unlinked. Returned are `sl_slabs` and the slabs from `s` on; `none` as a whole is an access
-- through NULL. The last slab is left alone where it is full, and `s_next` is followed otherwise.
pub reap_loop : ℕ → ℕ → Option Slab → List Slab → Option (ℕ × List Slab)
unfolding move_to_prev
reap_loop i n none [] = if ltb i (sub64 n 1) then none else some (n, [])
reap_loop i n none (x ∷ r) = reap_loop i n (some x) r
reap_loop i n (some s) [] = elim (ltb i (sub64 n 1)) [
  | false ↦ some (n, s ∷ [])
  | true ↦
      if ltb s.s_elems selem_max
      then none
      else if ltb (i + 1) (sub64 n 1)
      then none
      else some (n, s ∷ [])
]
reap_loop i n (some s) (sn ∷ r) = elim (ltb i (sub64 n 1)) [
  | false ↦ some (n, s ∷ (sn ∷ r))
  | true ↦ elim (ltb s.s_elems selem_max) [
    | false ↦ behind s (reap_loop (i + 1) n (some sn) r)
    | true ↦
        let (s', sn') = move_to_prev s sn in
        elim (sn'.s_elems == 0) [
          | true ↦ behind s' (reap_loop (i + 1) (sub64 n 1) none r)
          | false ↦ behind s' (reap_loop (i + 1) n (some sn') r)
        ]
  ]
]

-- IS_SMALL_LIST leaves before the loop.
unfoldable pub slablist_reap : ℕ → List Slab → Option (ℕ × List Slab)
unfolding reap_loop
slablist_reap n ss = if n == 0 then some (n, ss) else reap_loop 0 n none ss

-- The share of the slabs that could be saved is computed in `float`; `enough` is that test, of the
-- slabs that can be saved, the slabs, and the percentage asked for.
unfoldable pub try_reap : (ℕ → ℕ → ℕ → Bool) → ℕ → ℕ → ℕ → ℕ → List Slab → Option (ℕ × List Slab)
try_reap enough sl_mslabs sl_mpslabs sl_elems n ss =
    let saveable = sub64 n (sl_elems / selem_max) in
    if leb sl_mslabs saveable && enough saveable n sl_mpslabs
    then slablist_reap n ss
    else some (n, ss)
