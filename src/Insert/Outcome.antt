-- ===== src/Insert/Outcome.antt =====
-- `slab_gen_add` at the slab where the search stopped: a key that is in the list is refused and
-- nothing changes; any other element goes to its place.
use libslablist.Prelude.{
  ◌-◌, ◌≤◌, ◌<◌, ◌≡◌, ◌≢◌, refl, inl, inr, true, false, Option, none, some, arith,
}
use libslablist.Callbacks.{Elem, Callbacks, Ranked, same, Sign-cases}
use libslablist.Search.{slab_bin_srch}
use libslablist.Search.Order.{Rises→Climbs}
use libslablist.Sorted.{find, find-Lacks, Lacks}
use libslablist.Chain.{Place, contents}
use libslablist.Scan.{status}
use libslablist.Scan.Found.{status-bounds, min-le-max}
use libslablist.Insert.{
  AddCtx, edup, ctx, is_same, gen_add_ira, gen_add_ura, gen_add_ora, slab_gen_add,
}
use libslablist.Insert.Sort.{Adds, split, rises, inside, differs, ira-Adds}
use libslablist.Insert.Edges.{ura-Adds, ora-Adds}
use libslablist.Insert.Total.{Stops, in_slab, find-at}

module _ (cb : Callbacks) (e : Elem) (p : Place) where
  ura_how : (gen_add_ura cb false e p).0.ac_how ≢ edup
  unfolding gen_add_ura
  ura_how = ground arith

  ora_how : (gen_add_ora cb false e p).0.ac_how ≢ edup
  unfolding gen_add_ora
  ora_how = ground arith

  ira_how :
      is_same (cb.cmp e (p.cur.s_arr (slab_bin_srch cb e false p.cur))) ≡ false
      → (gen_add_ira cb false false e p).0.ac_how ≢ edup
  unfolding gen_add_ira
  ira_how h = ground arith

  ira_edup :
      is_same (cb.cmp e (p.cur.s_arr (slab_bin_srch cb e false p.cur))) ≡ true
      → gen_add_ira cb false false e p ≡ (ctx edup false, p)
  unfolding gen_add_ira
  ira_edup h = rw h

module _ {cb : Callbacks} (r : Ranked cb) (e : Elem) (p : Place) (s : Stops r e p) where
  open r use {rank}

  -- What an addition does, by what the list held under the key before.
  abbrev pub Outcome : Option Elem → AddCtx × Place → Type 0
  Outcome (some x) (c, q) = (c ≡ ctx edup false) × (q ≡ p)
  Outcome none (c, q) = Adds r e p s.whole q × (c.ac_how ≢ edup)

  abbrev out : AddCtx × Place
  out = slab_gen_add cb false e false (status cb e p.cur) p

  bounded : status cb e p.cur ≡ same → (rank p.cur.s_min ≤ rank e) × (rank e ≤ rank p.cur.s_max)
  bounded x = ground (arith, status-bounds r e p.cur s.whole.here (in_slab r e p s))

  module _ (new : find cb e (contents p) ≡ none) where
    lacks : Lacks rank e (contents p)
    lacks = find-Lacks r e (contents p) new

    no_equal :
        status cb e p.cur ≡ same
        → is_same (cb.cmp e (p.cur.s_arr (slab_bin_srch cb e false p.cur))) ≡ false
    no_equal x =
        let range = bounded x in
        let place = inside r e p s.whole s.asc lacks s.low range.0 range.1 in
        differs r e p s.whole s.asc lacks (slab_bin_srch cb e false p.cur) place.1

    pub new_key : Outcome none out
    unfolding slab_gen_add
    new_key = elim (Sign-cases (status cb e p.cur)) [
      | inl x ↦
          let past : rank p.cur.s_max < rank e = ground (
            arith,
            status-bounds r e p.cur s.whole.here (in_slab r e p s),
            min-le-max r e p.cur s.whole.here (in_slab r e p s),
          ) in
          rw x (ora-Adds r e p s.whole s.asc lacks s.low past (rw (s.last x) tt), ora_how cb e p)
      | inr (inl x) ↦
          let range = bounded x in
          rw x
            (ira-Adds r e p s.whole s.asc lacks s.low range.0 range.1, ira_how cb e p (no_equal x))
      | inr (inr x) ↦ rw x (
        ura-Adds r e p s.whole s.asc lacks s.low
            (ground (arith, status-bounds r e p.cur s.whole.here (in_slab r e p s))),
        ura_how cb e p,
      )
    ]

  module _ (x : Elem) (old : find cb e (contents p) ≡ some x) where
    equal_there :
        (slab_bin_srch cb e false p.cur < p.cur.s_elems)
        × (is_same (cb.cmp e (p.cur.s_arr (slab_bin_srch cb e false p.cur))) ≡ true)
    equal_there = ground (arith, find-at r e p s, (split r e p s.whole s.asc).0)

    in_range : status cb e p.cur ≡ same
    in_range =
        let k = slab_bin_srch cb e false p.cur in
        let climbs = Rises→Climbs rank p.cur.s_arr p.cur.s_elems (rises r e p s.whole s.asc) in
        ground (
          arith,
          equal_there,
          s.whole.here,
          status-bounds r e p.cur s.whole.here (in_slab r e p s),
          r.cmp_rank e (p.cur.s_arr k),
          climbs 0 k,
          climbs k (p.cur.s_elems - 1),
        )

    pub old_key : Outcome (some x) out
    unfolding slab_gen_add
    old_key = rw (in_range, ira_edup cb e p equal_there.1) (refl, refl)

  -- At a slab of a sorted chain at which a search for the element stops, slab_gen_add without
  -- replacement refuses a key that is in the chain and changes nothing; any other element goes to
  -- its place among the elements of the whole chain, every slab stays valid, and the answer is not
  -- AC_HOW_EDUP. This holds on every branch: into the slab or a neighbour, with a spill to either
  -- side, and into a new slab.
  pub slab_gen_add-Outcome : Outcome (find cb e (contents p)) out
  slab_gen_add-Outcome =
      (elim (find cb e (contents p)) as (λ o. find cb e (contents p) ≡ o → Outcome o out) [
        | none ↦ new_key
        | some x ↦ old_key x
      ])
        refl
