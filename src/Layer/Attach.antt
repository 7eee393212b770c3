-- ===== src/Layer/Attach.antt =====
-- The layers of a list, and the sublayer that is put below them: attach_sublayer of
-- src/slablist_cons.c. `fresh` is what the memory of the new array holds.
use libslablist.Prelude.{ℕ, zero, suc, ◌+◌, ◌-◌, List, [], ◌∷◌, Option, none, some, write, add64}
use libslablist.Slab.{Slab}
use libslablist.Layer.{Subslab, Cell, Kind, kind}

-- What a `slablist_t` keeps of one layer: the chain from its head on, and the counts.
pub record Layer (A : Type 0) : Type 0 where
  pub sl_slabs : ℕ
  pub sl_elems : ℕ
  pub sl_head : List A

-- The toplayer and `n` sublayers, the baselayer first.
abbrev pub Layers : ℕ → Type 0
Layers zero = Layer Slab
Layers (suc n) = Layer (Cell (suc n)) × Layers n

abbrev pub baselayer : (n : ℕ) → Layers n → Layer (Cell n)
baselayer zero l = l
baselayer (suc n) (l, _) = l

abbrev pub toplayer : (n : ℕ) → Layers n → Layer Slab
toplayer zero l = l
toplayer (suc n) (_, l) = toplayer n l

-- `while (i < sl->sl_slabs)`: the rounds left, `i`, the array, `ss_usr_elems` and the cells to come.
-- `none` is an access through NULL.
unfoldable pub attach_loop :
    {A : Type 0} → Kind A → ℕ → ℕ → (ℕ → A) → ℕ → List A → Option ((ℕ → A) × ℕ)
attach_loop k zero i arr usr cs = some (arr, usr)
attach_loop k (suc n) i arr usr [] = none
attach_loop k (suc n) i arr usr (c ∷ cs) =
    attach_loop k n (i + 1) (write arr i c) (add64 usr (k.elems_of c)) cs

-- The head subslab of the new layer.
unfoldable pub mk_base : {A : Type 0} → Kind A → (ℕ → A) → Layer A → Option (Subslab A)
unfolding attach_loop
mk_base k fresh l = elim (attach_loop k l.sl_slabs 0 fresh 0 l.sl_head) [
  | none ↦ none
  | some (arr, usr) ↦ some (record {
    ss_min = k.min_of (arr 0);
    ss_max = k.max_of (arr (l.sl_slabs - 1));
    ss_elems = l.sl_slabs;
    ss_usr_elems = usr;
    ss_arr = arr;
  })
]

unfoldable pub attach_sublayer : (n : ℕ) → (ℕ → Cell n) → Layers n → Option (Layers (suc n))
unfolding mk_base
attach_sublayer n fresh l = elim (mk_base (kind n) fresh (baselayer n l)) [
  | none ↦ none
  | some s ↦
      some (record { sl_slabs = 1; sl_elems = (baselayer n l).sl_slabs; sl_head = s ∷ [] }, l)
]
