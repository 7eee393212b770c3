-- ===== src/Layer/Position.antt =====
-- Access by position through the sublayers: slab_get_elem_pos of src/slablist_find.c, from the baselayer
-- on. `none` is an access through NULL.
use libslablist.Prelude.{
  ℕ, zero, suc, ◌+◌, ◌≤◌, ◌<◌, ◌^◌, ◌≡◌, refl, List, [], ◌∷◌, ◌++◌, map, Option, none, some,
  if◌then◌else◌, ltb, add64, sub64, arith,
}
use libslablist.Slab.{Slab}
use libslablist.Layer.{Cell, Kind, kind, refs, concat}
use libslablist.Layer.Layered.{total}

-- `while (sum_usr_elems < act_pos)`: the sum, and the cells from the pointer on.
unfoldable pub walk_pos : {A : Type 0} → Kind A → ℕ → ℕ → List A → Option (ℕ × List A)
walk_pos k sum pos [] = if ltb sum pos then none else some (sum, [])
walk_pos k sum pos (b ∷ bs) =
    let rest = walk_pos k (add64 sum (k.elems_of b)) pos bs in
    if ltb sum pos then rest else some (sum, b ∷ bs)

-- From the first cell that a subslab points to, which stands in the chain of its layer, with `n` layers
-- to go. The loop over the layers goes on with the sum that the layer below left; `elems_skipped` is
-- taken for the sum only where that loop begins and at the toplayer.
unfoldable pub pos_from : (n : ℕ) → ℕ → ℕ → ℕ → List (Cell n) → Option (Slab × ℕ)
unfolding walk_pos
pos_from zero sum skipped pos ss = elim (walk_pos (kind zero) skipped pos ss) [
  | none ↦ none
  | some (sum', rest) ↦ elim rest [
    | [] ↦ none
    | s ∷ _ ↦ some (s, sub64 (sub64 pos (sub64 sum' s.s_elems)) 1)
  ]
]
pos_from (suc n) sum skipped pos cs = elim (walk_pos (kind (suc n)) sum pos cs) [
  | none ↦ none
  | some (sum', rest) ↦ elim rest [
    | [] ↦ none
    | b ∷ r ↦ pos_from n sum' (sub64 sum' b.ss_usr_elems) pos (concat (map refs (b ∷ r)))
  ]
]

-- With `suc n` sublayers, for a position other than 0, from the head of the baselayer on.
unfoldable pub layered_elem_pos : (n : ℕ) → ℕ → List (Cell (suc n)) → Option (Slab × ℕ)
unfolding pos_from walk_pos
layered_elem_pos n pos base = elim (walk_pos (kind (suc n)) 0 pos base) [
  | none ↦ none
  | some (sum, rest) ↦ elim rest [
    | [] ↦ none
    | b ∷ r ↦
        let skipped = sub64 sum b.ss_usr_elems in
        pos_from n skipped skipped pos (concat (map refs (b ∷ r)))
  ]
]

-- The walk steps past the cell that holds the position.
walk_pos_past :
    {A : Type 0} (k : Kind A) (sum pos : ℕ) (bs : List A) (b : A)
    → sum + total k bs < pos
    → pos ≤ sum + total k bs + k.elems_of b
    → sum + total k bs + k.elems_of b < 2 ^ 64
    → (sum' : ℕ) × (walk_pos k sum pos (bs ++ (b ∷ [])) ≡ some (sum', []))
unfolding walk_pos
walk_pos_past k sum pos [] b low high bound = (add64 sum (k.elems_of b), ground arith)
walk_pos_past k sum pos (c ∷ bs) b low high bound =
    let rest =
      walk_pos_past k (add64 sum (k.elems_of c)) pos bs b (omega arith) (omega arith)
        (omega arith) in
    (rest.0, ground (arith, rest.1))

-- slab_get_elem_pos on a list with sublayers, at a position that the last subslab of the baselayer
-- leads up to and where the sum of the elements does not wrap, follows NULL: the walk along the
-- baselayer has already left that subslab.
pub layered_elem_pos_faults :
    (n pos : ℕ) (bs : List (Cell (suc n))) (b : Cell (suc n))
    → total (kind (suc n)) bs < pos
    → pos ≤ total (kind (suc n)) bs + b.ss_usr_elems
    → total (kind (suc n)) bs + b.ss_usr_elems < 2 ^ 64
    → layered_elem_pos n pos (bs ++ (b ∷ [])) ≡ none
unfolding layered_elem_pos
layered_elem_pos_faults n pos bs b low high bound =
    let walk = walk_pos_past (kind (suc n)) 0 pos bs b (omega arith) (omega arith) (omega arith) in
    rw (walk.1, layered_elem_pos) refl
