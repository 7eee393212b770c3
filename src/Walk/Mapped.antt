-- ===== src/Walk/Mapped.antt =====
-- slablist_map: the slabs are written, a small list is not.
use libslablist.Prelude.{
  ℕ, zero, suc, ◌+◌, ◌<◌, ◌≡◌, refl, sym, ap₂, ◌∙◌, List, [], ◌∷◌, ◌++◌, Option, some, arith,
  length, slice, map, map-append,
}
use libslablist.Callbacks.{Elem}
use libslablist.Slab.{Slab, live}
use libslablist.Chain.{flat}
use libslablist.Slablist.{Slablist, Head, small, chain, elems}
use libslablist.Slablist.Shape.{IsList}
use libslablist.Walk.{map_loop, slablist_map}

module _ (f : (ℕ → Elem) → ℕ → ℕ → Elem) (g : Elem → Elem) where
  -- The callback writes `g` of each of the cells it is given.
  abbrev pub Maps : Type 0
  Maps = (arr : ℕ → Elem) (n k : ℕ) → k < n → f arr n k ≡ g (arr k)

  slice-map :
      (h arr : ℕ → Elem) (i n : ℕ)
      → ((k : ℕ) → k < i + n → h k ≡ g (arr k))
      → slice h i n ≡ map g (slice arr i n)
  slice-map h arr i zero e = refl
  slice-map h arr i (suc n) e =
      ap₂ ◌∷◌ (e i (omega arith)) (slice-map h arr (suc i) n (λ k l. e k (omega arith)))

  pub record Mapped {B : Type 0} (content : B → List Elem) (xs : List Elem) (res : Option B)
      : Type 0 where
    pub out : B
    pub is : res ≡ some out
    pub holds : content out ≡ map g xs

  map_loop-Mapped :
      Maps → (n : ℕ) (ss : List Slab) → n ≡ length ss → Mapped flat (flat ss) (map_loop f n ss)
  unfolding map_loop
  map_loop-Mapped law zero [] h = record { out = []; is = refl; holds = refl }
  map_loop-Mapped law zero (s ∷ ss) h = absurd (omega arith)
  map_loop-Mapped law (suc k) [] h = absurd (omega arith)
  map_loop-Mapped law (suc k) (s ∷ ss) h =
      let rest = map_loop-Mapped law k ss (omega arith) in
      rw rest.is (record {
        out = record s { s_arr = f s.s_arr s.s_elems } ∷ rest.out;
        is = refl;
        holds =
            ap₂ ◌++◌
              (slice-map (f s.s_arr s.s_elems) s.s_arr 0 s.s_elems
                (λ k l. law s.s_arr s.s_elems k (omega arith)))
              rest.holds
            ∙ sym (map-append g (live s) (flat ss));
      })

  -- By the kind of the list.
  abbrev pub MapOutcome : Slablist → Head → Option Slablist → Type 0
  MapOutcome sl (small nodes) res = res ≡ some sl
  MapOutcome sl (chain n ss) res = Mapped (λ o. elems o.sl_head) (flat ss) res

  map_head :
      (sl : Slablist) (h : Head)
      → Maps
      → IsList (record sl { sl_head = h })
      → MapOutcome (record sl { sl_head = h }) h (slablist_map f (record sl { sl_head = h }))
  unfolding slablist_map
  map_head sl (small nodes) law w = refl
  map_head sl (chain n ss) law w =
      let done = map_loop-Mapped law n ss w.shape.0 in
      rw (done.is, slablist_map)
        (record { out = record sl { sl_head = chain n done.out }; is = refl; holds = done.holds })

  -- On a well-formed list and for a callback that writes a function of each cell it is given,
  -- slablist_map returns: the elements of a list of slabs are mapped by the function, and a small
  -- list stays as it is.
  pub slablist_map-MapOutcome :
      (sl : Slablist) → Maps → IsList sl → MapOutcome sl sl.sl_head (slablist_map f sl)
  slablist_map-MapOutcome sl law w = map_head sl sl.sl_head law w
