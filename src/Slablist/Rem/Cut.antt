-- ===== src/Slablist/Rem/Cut.antt =====
-- One element out of one slab of a chain: what is left, after the merge and after a reap.
use libslablist.Prelude.{
  ℕ, suc, ◌+◌, ◌-◌, ◌≤◌, ◌<◌, ◌^◌, ◌≡◌, refl, sym, subst, ap, ◌∙◌, List, ◌∷◌, ◌++◌, All, Bool, true,
  some, arith, length, length-append, length-slice, remove_at, remove_at-append, slice, slice-cut,
  ltb, sub64,
}
use libslablist.Callbacks.{Elem}
use libslablist.Slab.{Slab, remove_elem}
use libslablist.Slab.Edit.{IsValid, live-remove_elem, remove_elem-IsValid}
use libslablist.Chain.{Place, flat, rflat, contents, slabs, IsWhole}
use libslablist.Chain.Contents.{
  flat-slabs, regroup, ahead, behind, cut_at, All-rewind, length-rewind,
}
use libslablist.Merge.{slab_generic_rem}
use libslablist.Merge.Keeps.{IsChain, slab_generic_rem-IsChain}
use libslablist.Small.{success, smelem_max}
use libslablist.Slablist.{Slablist, elems, reaped}
use libslablist.Slablist.Reaped.{Reaped, reaped-Reaped}
use libslablist.Slablist.Shape.{IsList, length-flat}
use libslablist.Slablist.Rem.{Removed, take_at}

-- The slab in view without its `i`-th element.
abbrev pub without : ℕ → Place → Place
without i p = record p { cur = remove_elem i p.cur }

contents-without :
    (p : Place) (i : ℕ)
    → IsValid p.cur
    → i < p.cur.s_elems
    → contents (without i p) ≡ ahead p i ++ behind p i
contents-without p i v h =
    ap (λ t. rflat p.before ++ (t ++ flat p.after))
      (live-remove_elem p.cur 0 i v h
        ∙ ap (remove_at i) (slice-cut arr i (suc rest) p.cur.s_elems (omega arith))
        ∙ ap (λ k. remove_at k (slice arr 0 i ++ slice arr i (suc rest)))
            (sym (length-slice arr 0 i))
        ∙ remove_at-append (slice arr 0 i) (slice arr (suc i) rest) (arr i))
    ∙ sym (regroup (rflat p.before) (slice arr 0 i) (slice arr (suc i) rest) (flat p.after))
  where
    arr : ℕ → Elem
    arr = p.cur.s_arr

    rest : ℕ
    rest = p.cur.s_elems - (i + 1)

-- A chain that is valid where it is not in view, and counted.
pub record IsOpen (p : Place) : Type 0 where
  pub left : All IsValid p.before
  pub here : IsValid p.cur
  pub right : All IsValid p.after
  pub counted : p.sl_slabs ≡ suc (length p.before + length p.after)
  pub bounded : length (contents p) < 2 ^ 64

pub whole-IsOpen : (p : Place) → IsWhole p → length (contents p) < 2 ^ 64 → IsOpen p
whole-IsOpen p w bounded = record {
  left = w.left;
  here = w.here;
  right = w.right;
  counted = omega (
    arith,
    w.counted,
    bounded,
    length-rewind p.before (p.cur ∷ p.after),
    length-flat (slabs p) (All-rewind p.before (p.cur ∷ p.after) w.left (w.here, w.right)),
    ap length (flat-slabs p),
  );
  bounded = bounded;
}

module _ (enough : ℕ → ℕ → ℕ → Bool) (sl : Slablist) (p : Place) (i : ℕ) (o : IsOpen p)
    (h : i < p.cur.s_elems) where
  abbrev pub stay : List Elem
  stay = ahead p i ++ behind p i

  pub fewer : suc (length stay) ≡ length (contents p)
  fewer = omega (
    arith,
    ap length (cut_at p i h),
    length-append (ahead p i) (p.cur.s_arr i ∷ behind p i),
    length-append (ahead p i) (behind p i),
  )

  few_slabs : p.sl_slabs < 2 ^ 64
  few_slabs = omega (
    arith,
    o.counted,
    o.bounded,
    length-rewind p.before (p.cur ∷ p.after),
    length-flat (slabs p) (All-rewind p.before (p.cur ∷ p.after) o.left (o.here, o.right)),
    ap length (flat-slabs p),
  )

  merged : IsChain stay (slab_generic_rem (without i p))
  merged =
      subst (λ xs. IsChain xs (slab_generic_rem (without i p))) (contents-without p i o.here h)
        (slab_generic_rem-IsChain (without i p) o.counted few_slabs o.left
          (remove_elem-IsValid p.cur 0 i o.here h) o.right)

  abbrev chain_out : ℕ × List Slab
  chain_out = slab_generic_rem (without i p)

  pub reap : Reaped stay (reaped enough sl chain_out.0 chain_out.1)
  reap =
      reaped-Reaped enough sl chain_out.0 chain_out.1 stay merged.counted merged.valid merged.holds
        (omega (arith, fewer, o.bounded))

  abbrev pub taken : Removed
  taken = record {
    ret = success;
    rdl = some (p.cur.s_arr i);
    list = record sl { sl_head = reap.head; sl_elems = sub64 sl.sl_elems 1 };
  }

  pub take_at-taken : take_at enough sl p i ≡ some taken
  unfolding take_at
  take_at-taken =
      let in_use : ltb i p.cur.s_elems ≡ true = ground arith in rw in_use (rw reap.is refl)

  pub holds : elems taken.list.sl_head ≡ stay
  holds = reap.holds

  pub taken-IsList :
      sl.sl_elems ≡ length (contents p) → smelem_max ≤ length stay → IsList taken.list
  taken-IsList counted some_left = record {
    counted = omega (arith, counted, o.bounded, fewer, ap length holds);
    bounded = omega arith;
    shape = reap.shape some_left;
  }
