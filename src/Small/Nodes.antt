-- ===== src/Small/Nodes.antt =====
-- Addition to a small list, against the sorted list.
use libslablist.Prelude.{
  inl, inr, zero, suc, ℕ, ◌≡◌, refl, List, [], ◌∷◌, true, false, Option, none, some, arith, length,
  add64,
}
use libslablist.Callbacks.{Elem, Callbacks, Ranked, Sign-cases}
use libslablist.Sorted.{insert, find, Ascends, find-Above, Above-mono}
use libslablist.Small.{Status, success, edup, Small, SmallAdd, add_sorted, small_list_add}

module _ {cb : Callbacks} (r : Ranked cb) (e : Elem) where
  open r use {rank}

  -- With no replacement a key that is there is refused, and any other element goes to its place.
  abbrev pub SmallOutcome : Option Elem → Small → SmallAdd → Type 0
  SmallOutcome none sl a =
      (a.ret ≡ success)
      × (a.list.nodes ≡ insert cb e sl.nodes)
      × (a.list.sl_elems ≡ add64 sl.sl_elems 1)
  SmallOutcome (some x) sl a =
      (a.ret ≡ edup) × (a.list.nodes ≡ sl.nodes) × (a.list.sl_elems ≡ sl.sl_elems)

  add_sorted-new :
      (k : ℕ) (xs : List Elem)
      → k ≡ length xs
      → find cb e xs ≡ none
      → add_sorted cb false e k xs ≡ some (success, none, insert cb e xs)
  unfolding add_sorted find insert
  add_sorted-new zero [] c h = refl
  add_sorted-new zero (x ∷ xs) c h = absurd (omega arith)
  add_sorted-new (suc k) [] c h = absurd (omega arith)
  add_sorted-new (suc k) (x ∷ xs) c h =
      let rest : find cb e xs ≡ none
          → add_sorted cb false e k xs ≡ some (success, none, insert cb e xs) =
        add_sorted-new k xs (omega arith) in
      elim (Sign-cases (cb.cmp e x)) [
        | inl o ↦ rw (o, add_sorted, insert) (rw (rest (ground (arith, h, o)), insert) refl)
        | inr (inl o) ↦ absurd (ground (arith, h, o))
        | inr (inr o) ↦ rw (o, add_sorted, insert) refl
      ]

  add_sorted-old :
      (k : ℕ) (xs : List Elem) (x : Elem)
      → k ≡ length xs
      → Ascends rank xs
      → find cb e xs ≡ some x
      → add_sorted cb false e k xs ≡ some (edup, none, xs)
  unfolding add_sorted find
  add_sorted-old k [] x c asc h = cc
  add_sorted-old zero (y ∷ ys) x c asc h = absurd (omega arith)
  add_sorted-old (suc k) (y ∷ ys) x c asc h = ground (
    arith,
    r.cmp_rank e y,
    add_sorted-old k ys x (omega arith) asc.1,
    find-Above r e ys,
    Above-mono rank e y ys,
  )

  -- What the loop gives is what is returned; the first element makes the head node, as the loop would.
  added :
      (xs ys : List Elem) (n : ℕ) (ret : Status)
      → n ≡ length xs
      → add_sorted cb false e n xs ≡ some (ret, none, ys)
      → small_list_add cb true false e (record { nodes = xs; sl_elems = n })
        ≡ some (record {
          ret = ret;
          repd = none;
          list = record { nodes = ys; sl_elems = elim ret [ edup ↦ n | _ ↦ add64 n 1 ] };
        })
  unfolding small_list_add add_sorted
  added (x ∷ xs) ys n ret c h = rw h refl
  added [] ys zero ret c h = cc
  added [] ys (suc n) ret c h = absurd (omega arith)

  -- Without replacement, small_list_add on a sorted list of rising nodes that are counted returns,
  -- with SL_EDUP and neither nodes nor count changed if the key is there, and otherwise with
  -- SL_SUCCESS, the element inserted at its place and counted.
  pub small_list_add-Outcome :
      (sl : Small)
      → Ascends rank sl.nodes
      → sl.sl_elems ≡ length sl.nodes
      → (a : SmallAdd) × (small_list_add cb true false e sl ≡ some a)
        × SmallOutcome (find cb e sl.nodes) sl a
  small_list_add-Outcome sl asc count =
      (elim (find cb e sl.nodes)
          as (λ o.
            find cb e sl.nodes ≡ o
            → (a : SmallAdd) × (small_list_add cb true false e sl ≡ some a) × SmallOutcome o sl a) [
              | none ↦ λ h. (
                record {
                  ret = success;
                  repd = none;
                  list = record { nodes = insert cb e sl.nodes; sl_elems = add64 sl.sl_elems 1 };
                },
                added sl.nodes (insert cb e sl.nodes) sl.sl_elems success count
                    (add_sorted-new sl.sl_elems sl.nodes count h),
                (refl, refl, refl),
              )
              | some x ↦ λ h. (
                record { ret = edup; repd = none; list = sl },
                added sl.nodes sl.nodes sl.sl_elems edup count
                    (add_sorted-old sl.sl_elems sl.nodes x count asc h),
                (refl, refl, refl),
              )
            ])
        refl
