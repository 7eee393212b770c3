-- ===== src/Range/Effect.antt =====
-- What the removal of a range leaves of a sorted chain, and of a list.
use libslablist.Prelude.{
  ℕ, suc, ◌≤◌, ◌<◌, ◌^◌, ◌≡◌, sym, subst, ap, inl, inr, List, [], ◌∷◌, All, false, arith, length,
}
use libslablist.Callbacks.{Elem, Callbacks, Ranked}
use libslablist.Slab.{Slab}
use libslablist.Slab.Edit.{IsValid}
use libslablist.Sorted.{Below, Above, Ascends}
use libslablist.Chain.{Place, at, flat, rflat, contents}
use libslablist.Scan.{find_linear_scan}
use libslablist.Slablist.Rem.Cut.{IsOpen, whole-IsOpen}
use libslablist.Range.{cut_between, rem_range_chain}
use libslablist.Range.Filter.{outside}
use libslablist.Range.Between.{Meet, Over}
use libslablist.Range.Split.{find_both}
use libslablist.Range.Edges.{Cuts, in_one, in_two}

module _ {cb : Callbacks} (r : Ranked cb) (min max : Elem) (le : r.rank min ≤ r.rank max) where
  open r use {rank}

  by_meet :
      (m : ℕ) (p q : Place)
      → IsOpen p
      → m ≡ length (contents p)
      → Ascends rank (contents p)
      → Below rank min (rflat p.before)
      → Above rank min (flat p.after)
      → Above rank max (flat q.after)
      → Meet p q (Over r min max le)
      → Cuts (outside cb min max (contents p)) (cut_between cb min max false m p q)
  by_meet m p q o total asc low rising high (inl e) =
      subst (λ y. Cuts (outside cb min max (contents p)) (cut_between cb min max false m p y)) e
        (in_one r min max le m p o total asc low
          (subst (λ y. Above rank max (flat y.after)) (sym e) high))
  by_meet m p q o total asc low rising high (inr x) =
      in_two r min max le m p q o total asc low rising high x

  -- From a counted, valid and sorted chain, with the lesser end first, the removal of a range does not
  -- leave the chain, and leaves exactly the elements outside the range, in order, in valid slabs that
  -- are counted.
  pub rem_range_chain-Cuts :
      (n m : ℕ) (s : Slab) (ss : List Slab)
      → n ≡ suc (length ss)
      → All IsValid (s ∷ ss)
      → m ≡ length (flat (s ∷ ss))
      → length (flat (s ∷ ss)) < 2 ^ 64
      → Ascends rank (flat (s ∷ ss))
      → Cuts (outside cb min max (flat (s ∷ ss))) (rem_range_chain cb min max false n m (s ∷ ss))
  unfolding rem_range_chain
  rem_range_chain-Cuts n m s ss count v total bound asc =
      let p = (find_linear_scan cb min false (at n [] s ss)).1 in
      let q = (find_linear_scan cb max false (at n [] s ss)).1 in
      let b = find_both r min max le n s ss count v bound asc in
      subst (λ t. Cuts (outside cb min max t) (cut_between cb min max false m p q)) b.kept
        (by_meet m p q (whole-IsOpen p b.whole (omega (arith, bound, ap length b.kept)))
          (omega (arith, total, ap length b.kept)) (subst (Ascends rank) (sym b.kept) asc) b.low
          b.rising b.high b.meet)
