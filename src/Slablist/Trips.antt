-- ===== src/Slablist/Trips.antt =====
-- One entry point after another: what an addition puts in a lookup finds and a removal takes out.
use libslablist.Prelude.{
  ℕ, ◌+◌, ◌<◌, ◌^◌, ◌≡◌, ◌≢◌, refl, sym, subst, ap, ◌∙◌, List, [], ◌∷◌, Bool, false, Option, none,
  some, arith,
}
use libslablist.Callbacks.{Elem, Callbacks, Ranked}
use libslablist.Sorted.{insert, find, delete}
use libslablist.Small.{Status, success, edup}
use libslablist.Slablist.{Slablist, Added, elems, slablist_add_impl}
use libslablist.Slablist.Shape.{IsSorted}
use libslablist.Slablist.Add.{slablist_add_impl-Outcome}
use libslablist.Slablist.Add.Slabs.{AddOutcome, Does}
use libslablist.Slablist.Find.{slablist_find, Reports, slablist_find-Reports}
use libslablist.Slablist.Rem.{slablist_rem_impl}
use libslablist.Slablist.Rem.Effect.{Lone, Leaves, slablist_rem_impl-Leaves}

-- The element that a list holds under the key of `e` once `e` was added.
abbrev pub held : Elem → Option Elem → Elem
held e none = e
held e (some x) = x

unsome : (a b : Added) → some a ≡ some b → a ≡ b
unsome a b h = cc

module _ {cb : Callbacks} (r : Ranked cb) (e : Elem) where
  open r use {rank, cmp_rank}

  find-insert : (xs : List Elem) → find cb e xs ≡ none → find cb e (insert cb e xs) ≡ some e
  unfolding find insert
  find-insert [] h = ground (arith, cmp_rank e e)
  find-insert (x ∷ xs) h = ground (arith, cmp_rank e x, cmp_rank e e, find-insert xs)

  find-insert_other :
      (k : Elem) (xs : List Elem) → rank k ≢ rank e → find cb k (insert cb e xs) ≡ find cb k xs
  unfolding find insert
  find-insert_other k [] h = ground (arith, cmp_rank k e)
  find-insert_other k (x ∷ xs) h =
      ground (arith, cmp_rank e x, cmp_rank k x, cmp_rank k e, find-insert_other k xs h)

  delete-insert : (xs : List Elem) → find cb e xs ≡ none → delete cb e (insert cb e xs) ≡ xs
  unfolding find insert delete
  delete-insert [] h = ground (arith, cmp_rank e e)
  delete-insert (x ∷ xs) h = ground (arith, cmp_rank e x, cmp_rank e e, delete-insert xs)

  module _ (enough : ℕ → ℕ → ℕ → Bool) (sl : Slablist) (w : IsSorted r sl)
      (room : sl.sl_elems + 1 < 2 ^ 64) (out : Added)
      (added : slablist_add_impl cb enough e false sl ≡ some out) where
    abbrev xs : List Elem
    xs = elems sl.sl_head

    -- What is known of the outcome holds of the list that was returned.
    returned :
        (ret : Status) (ys : List Elem)
        → Does r ret ys (slablist_add_impl cb enough e false sl)
        → (elems out.list.sl_head ≡ ys) × IsSorted r out.list
    returned ret ys d =
        let same : d.out ≡ out = unsome d.out out (sym d.is ∙ added) in
        (
          ap (λ o. elems o.list.sl_head) (sym same) ∙ d.holds,
          subst (λ o. IsSorted r o.list) same d.sorted,
        )

    found_then :
        (o : Option Elem)
        → find cb e xs ≡ o
        → AddOutcome r enough e o xs (slablist_add_impl cb enough e false sl)
        → (find cb e (elems out.list.sl_head) ≡ some (held e o)) × IsSorted r out.list
    found_then none new d =
        let back = returned success (insert cb e xs) d in
        (ap (find cb e) back.0 ∙ find-insert xs new, back.1)
    found_then (some x) old d =
        let back = returned edup xs d in (ap (find cb e) back.0 ∙ old, back.1)

    -- On a well-formed sorted list with room for one more, a lookup after an addition without
    -- replacement that attaches no sublayer succeeds, and returns the element that was added, or
    -- the one that the list held under the key before.
    pub slablist_find-slablist_add_impl :
        out.attaches ≡ false
        → slablist_find cb e out.list
          ≡ some (record { ret = success; found = some (held e (find cb e xs)) })
    slablist_find-slablist_add_impl _ =
        let then =
          found_then (find cb e xs) refl (slablist_add_impl-Outcome r enough e sl w room) in
        subst (λ o. Reports o (slablist_find cb e out.list)) then.0
          (slablist_find-Reports r e out.list then.1)

    -- On a well-formed sorted list with room for one more that does not hold the key, a removal
    -- after an addition that attaches no sublayer succeeds and leaves the elements of before,
    -- provided that a list of SMELEM_MAX elements has one slab.
    pub slablist_rem_impl-slablist_add_impl :
        (pos : ℕ)
        → out.attaches ≡ false
        → find cb e xs ≡ none
        → Lone out.list
        → Leaves (IsSorted r) xs (slablist_rem_impl cb enough e pos out.list)
    slablist_rem_impl-slablist_add_impl pos _ new lone =
        let d =
          subst (λ o. AddOutcome r enough e o xs (slablist_add_impl cb enough e false sl)) new
            (slablist_add_impl-Outcome r enough e sl w room) in
        let back = returned success (insert cb e xs) d in
        subst (λ ys. Leaves (IsSorted r) ys (slablist_rem_impl cb enough e pos out.list))
          (ap (delete cb e) back.0 ∙ delete-insert xs new)
          (slablist_rem_impl-Leaves r enough e e out.list pos back.1 lone
            (ap (find cb e) back.0 ∙ find-insert xs new))
