-- ===== src/Slablist/Find.antt =====
-- slablist_find (src/slablist_find.c): what it reports is what the list holds under the key.
use libslablist.Prelude.{
  ℕ, zero, suc, ◌≤◌, ◌≡◌, refl, subst, inl, inr, List, [], ◌∷◌, Bool, false, Option, none, some,
  arith, length, not, ◌==◌, if◌then◌else◌, Bool-cases,
}
use libslablist.Callbacks.{Elem, Callbacks, Ranked, same, Sign-cases}
use libslablist.Slab.{Slab}
use libslablist.Search.{slab_bin_srch}
use libslablist.Sorted.{find}
use libslablist.Chain.{Place, at, contents}
use libslablist.Scan.{find_linear_scan}
use libslablist.Insert.{is_same}
use libslablist.Insert.Total.{Stops, find-at}
use libslablist.Small.{Status, success, enfound, argord}
use libslablist.Slablist.{Head, small, chain, Slablist, elems, slist_sorted, slist_is_sorting_temp}
use libslablist.Slablist.Shape.{IsSorted, found_at, stops_at}

-- What is returned, and what is stored through `found`, if anything.
pub record Report : Type 0 where
  pub ret : Status
  pub found : Option Elem

-- The walk of a small list, to an equal element or the end.
pub walk : Callbacks → Elem → ℕ → List Elem → List Elem
walk cb key zero nodes = nodes
walk cb key (suc k) [] = []
walk cb key (suc k) (x ∷ xs) = elim (cb.cmp key x) [ same ↦ x ∷ xs | _ ↦ walk cb key k xs ]

-- In the slab where the search stopped.
unfoldable pub find_in : Callbacks → Elem → Bool → Slab → Report
find_in cb key sorting s =
    let i = slab_bin_srch cb key sorting s in
    if i == s.s_elems then record { ret = enfound; found = none } else record {
      ret = if is_same (cb.cmp key (s.s_arr i)) then success else enfound;
      found = some (s.s_arr i);
    }

unfoldable pub slablist_find : Callbacks → Elem → Slablist → Option Report
unfolding walk
slablist_find cb key sl =
    if not (slist_sorted sl.sl_flags)
    then some (record { ret = argord; found = none })
    else elim sl.sl_head [
      | small nodes ↦ some (elim (walk cb key sl.sl_elems nodes) [
        | [] ↦ record { ret = enfound; found = none }
        | x ∷ _ ↦ record { ret = success; found = some x }
      ])
      | chain n [] ↦ none
      | chain n (s ∷ ss) ↦
          let sorting = slist_is_sorting_temp sl.sl_flags in
          some (find_in cb key sorting (find_linear_scan cb key sorting (at n [] s ss)).1.cur)
    ]

pub record Says (ret : Status) (res : Option Report) : Type 0 where
  pub out : Report
  pub is : res ≡ some out
  pub says : out.ret ≡ ret

missing : (f : Option Elem) → Says enfound (some (record { ret = enfound; found = f }))
missing f = record { out = record { ret = enfound; found = f }; is = refl; says = refl }

-- What is reported, by the element that the list holds under the key.
abbrev pub Reports : Option Elem → Option Report → Type 0
Reports none res = Says enfound res
Reports (some x) res = res ≡ some (record { ret = success; found = some x })

module _ {cb : Callbacks} (r : Ranked cb) (e : Elem) where
  open r use {rank}

  walk-find :
      (xs : List Elem) (k : ℕ)
      → length xs ≤ k
      → Reports (find cb e xs) (
          some (elim (walk cb e k xs) [
            | [] ↦ record { ret = enfound; found = none }
            | x ∷ _ ↦ record { ret = success; found = some x }
          ]))
  unfolding walk find
  walk-find [] zero h = missing none
  walk-find [] (suc k) h = missing none
  walk-find (x ∷ xs) zero h = absurd (omega arith)
  walk-find (x ∷ xs) (suc k) h = elim (Sign-cases (cb.cmp e x)) [
    | inl t ↦ rw (t, find, walk) (walk-find xs k (omega arith))
    | inr (inl t) ↦ rw (t, find, walk) refl
    | inr (inr t) ↦ rw (t, find, walk) (walk-find xs k (omega arith))
  ]

  in_slab :
      (p : Place) → Stops r e p → Reports (find cb e (contents p)) (some (find_in cb e false p.cur))
  unfolding find_in
  in_slab p s =
      rw (find-at r e p s) (elim (Bool-cases (slab_bin_srch cb e false p.cur == p.cur.s_elems)) [
        | inl t ↦ rw t (missing none)
        | inr t ↦
            rw t
              (elim (Bool-cases
                (is_same (cb.cmp e (p.cur.s_arr (slab_bin_srch cb e false p.cur))))) [
                  | inl u ↦ rw u refl
                  | inr u ↦ rw u (missing (some (p.cur.s_arr (slab_bin_srch cb e false p.cur))))
                ])
      ])

  by_head :
      (sl : Slablist) (h : Head)
      → IsSorted r (record sl { sl_head = h })
      → Reports (find cb e (elems h)) (slablist_find cb e (record sl { sl_head = h }))
  unfolding slablist_find
  by_head sl (small nodes) w =
      rw w.sorted (walk-find nodes sl.sl_elems (omega (arith, w.list.counted)))
  by_head sl (chain n []) w = absurd (omega (arith, w.list.shape))
  by_head sl (chain n (s ∷ ss)) w =
      let found = find_linear_scan cb e false (at n [] s ss) in
      let f = found_at r e n sl.sl_elems s ss w.list.shape w.rises w.list.counted w.list.bounded in
      rw (w.sorted, w.no_temp)
        (subst (λ xs. Reports (find cb e xs) (some (find_in cb e false found.1.cur))) f.kept
          (in_slab found.1 (stops_at r e n s ss w.rises f)))

  -- On a well-formed sorted list that is not used for sorting, slablist_find returns. If the list
  -- holds an element with the key, it returns SL_SUCCESS and stores that element; otherwise it
  -- returns SL_ENFOUND.
  pub slablist_find-Reports :
      (sl : Slablist)
      → IsSorted r sl
      → Reports (find cb e (elems sl.sl_head)) (slablist_find cb e sl)
  slablist_find-Reports sl w = by_head sl sl.sl_head w
