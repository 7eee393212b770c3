-- ===== src/Range/Edges.antt =====
-- What the two slabs at the ends of a range, and those between them, leave of a sorted chain.
use libslablist.Prelude.{
  ℕ, suc, ◌+◌, ◌-◌, ◌≤◌, ◌<◌, ◌^◌, ◌≡◌, refl, sym, ap, ap₂, ◌∙◌, List, [], ◌∷◌, ◌++◌, append-nil,
  All, All-append, Option, some, false, true, arith, length, length-append, length-slice, ltb, ◌==◌,
}
use libslablist.Callbacks.{Elem, Callbacks, Ranked}
use libslablist.Slab.{live}
use libslablist.Slab.Edit.{IsValid}
use libslablist.Sorted.{Below, Above, Ascends}
use libslablist.Chain.{Place, flat, rflat, rewind, slabs, contents}
use libslablist.Chain.Contents.{flat-rewind, flat-slabs, All-rewind, length-rewind}
use libslablist.Slablist.Shape.{length-flat}
use libslablist.Slablist.Rem.Cut.{IsOpen}
use libslablist.Range.{Cut, decruftify_slab, decruftify_edges, rem_slabs_between, cut_between}
use libslablist.Range.Filter.{outside, outside-append, outside-below, outside-above, outside-within}
use libslablist.Range.Cells.{Edge, decruftify_slab-Edge}
use libslablist.Range.Split.{flat-append, cur_asc, Apart, reaches-Apart}
use libslablist.Range.Between.{Reaches, Over, rem_slabs_between_lem}

-- A removal that does not leave the chain, and what it leaves.
pub record Cuts (xs : List Elem) (res : Option Cut) : Type 0 where
  pub out : Cut
  pub is : res ≡ some out
  pub holds : flat out.chain ≡ xs
  pub valid : All IsValid out.chain
  pub counted : out.sl_slabs ≡ length out.chain
  pub least : length (flat out.chain) ≤ out.sl_elems

open_bound : (p : Place) → IsOpen p → p.sl_slabs < 2 ^ 64
open_bound p o = omega (
  arith,
  o.counted,
  o.bounded,
  length-rewind p.before (p.cur ∷ p.after),
  length-flat (slabs p) (All-rewind p.before (p.cur ∷ p.after) o.left (o.here, o.right)),
  ap length (flat-slabs p),
)

-- The elements of a chain by what stands before a slab, in it, and behind it.
sizes :
    (p : Place)
    → length (contents p) ≡ length (rflat p.before) + (p.cur.s_elems + length (flat p.after))
sizes p = omega (
  arith,
  length-append (rflat p.before) (live p.cur ++ flat p.after),
  length-append (live p.cur) (flat p.after),
  length-slice p.cur.s_arr 0 p.cur.s_elems,
)

module _ {cb : Callbacks} (r : Ranked cb) (min max : Elem) (le : r.rank min ≤ r.rank max) where
  open r use {rank}

  -- Both ends in one slab.
  module _ (m : ℕ) (p : Place) (o : IsOpen p) (total : m ≡ length (contents p))
      (asc : Ascends rank (contents p)) (low : Below rank min (rflat p.before))
      (high : Above rank max (flat p.after)) where
    pub in_one : Cuts (outside cb min max (contents p)) (cut_between cb min max false m p p)
    unfolding cut_between
    in_one =
        let c = decruftify_slab cb min max false p.sl_slabs m p.cur p.after in
        let edge =
          decruftify_slab-Edge r min max le p.cur o.here (cur_asc r min max le p asc) p.sl_slabs m
            p.after (omega (arith, o.counted)) (open_bound p o) (omega (arith, sizes p, total))
            (omega (arith, o.bounded, total)) in
        let same_index : (length p.before == length p.before) ≡ true = ground arith in
        rw same_index (record {
          out = record {
            sl_slabs = c.sl_slabs;
            sl_elems = c.sl_elems;
            given = c.given;
            chain = rewind p.before c.chain;
          };
          is = refl;
          holds =
              flat-rewind p.before c.chain
              ∙ ap (λ t. rflat p.before ++ t) edge.left
              ∙ sym (
                  outside-append r min max (rflat p.before) (live p.cur ++ flat p.after)
                  ∙ ap₂ ◌++◌ (outside-below r min max (rflat p.before) low) (
                      outside-append r min max (live p.cur) (flat p.after)
                      ∙ ap (λ t. outside cb min max (live p.cur) ++ t)
                          (outside-above r min max (flat p.after) high)));
          valid = All-rewind p.before c.chain o.left (edge.valid o.right);
          counted = omega (arith, edge.slabs, o.counted, length-rewind p.before c.chain);
          least = omega (
            arith,
            edge.least,
            total,
            sizes p,
            ap length (flat-rewind p.before c.chain),
            length-append (rflat p.before) (flat c.chain),
          );
        })

  -- The ends in two slabs, with those between them in the range.
  module _ (m : ℕ) (p q : Place) (o : IsOpen p) (total : m ≡ length (contents p))
      (asc : Ascends rank (contents p)) (low : Below rank min (rflat p.before))
      (rising : Above rank min (flat p.after)) (high : Above rank max (flat q.after))
      (x : Reaches p q (Over r min max le)) where
    abbrev rest : List Elem
    rest = live q.cur ++ flat q.after

    apart : Apart r min max le p q x
    apart = reaches-Apart r min max le p q x o.right asc rising

    mid_gone : outside cb min max (flat x.mid) ≡ []
    mid_gone = outside-within r min max (flat x.mid) apart.mid_within

    left_over :
        outside cb min max (contents p)
        ≡ rflat p.before
          ++ (outside cb min max (live p.cur) ++ (outside cb min max (live q.cur) ++ flat q.after))
    left_over =
        outside-append r min max (rflat p.before) (live p.cur ++ flat p.after)
        ∙ ap₂ ◌++◌ (outside-below r min max (rflat p.before) low) (
            outside-append r min max (live p.cur) (flat p.after)
            ∙ ap (λ t. outside cb min max (live p.cur) ++ t)
                (ap (outside cb min max) apart.after_p
                  ∙ outside-append r min max (flat x.mid) rest
                  ∙ ap (λ t. t ++ outside cb min max rest) mid_gone
                  ∙ outside-append r min max (live q.cur) (flat q.after)
                  ∙ ap (λ t. outside cb min max (live q.cur) ++ t)
                      (outside-above r min max (flat q.after) high)))

    pub in_two : Cuts (outside cb min max (contents p)) (cut_between cb min max false m p q)
    unfolding cut_between decruftify_edges
    in_two =
        let gap : length q.before - length p.before - 1 ≡ length x.mid = omega (arith, x.ahead) in
        let other : (length p.before == length q.before) ≡ false = ground (arith, x.ahead) in
        let ahead : ltb (length p.before) (length q.before) ≡ true = ground (arith, x.ahead) in
        let spanned : length p.after ≡ length x.mid + suc (length q.after) =
          ap length x.split ∙ length-append x.mid (q.cur ∷ q.after) in
        let bound = open_bound p o in
        let size : length (flat p.after)
            ≡ length (flat x.mid) + (q.cur.s_elems + length (flat q.after)) =
          omega (
            arith,
            ap length apart.after_p,
            length-append (flat x.mid) rest,
            length-append (live q.cur) (flat q.after),
            length-slice q.cur.s_arr 0 q.cur.s_elems,
          ) in
        let small_total : m < 2 ^ 64 = omega (arith, o.bounded, total) in
        let gone =
          rem_slabs_between_lem x.mid p.sl_slabs m q.cur q.after (omega (arith, o.counted, spanned))
            bound (omega (arith, total, sizes p, size)) small_total in
        let taken = ap (rem_slabs_between (length x.mid) p.sl_slabs m) x.split ∙ gone.2 in
        let c = decruftify_slab cb min max false gone.0 gone.1 p.cur [] in
        let edge : Edge r min max le p.cur o.here (cur_asc r min max le p asc) gone.0 gone.1 [] c =
          decruftify_slab-Edge r min max le p.cur o.here (cur_asc r min max le p asc) gone.0 gone.1
            [] (omega (arith, gone.3, o.counted, spanned)) (omega (arith, gone.3, bound))
            (omega (arith, gone.4, total, sizes p, size)) (omega (arith, gone.4, small_total)) in
        let d = decruftify_slab cb min max false c.sl_slabs c.sl_elems q.cur q.after in
        let edge' : Edge r min max le q.cur apart.stop_valid.0 apart.stop_asc c.sl_slabs c.sl_elems
            q.after d =
          decruftify_slab-Edge r min max le q.cur apart.stop_valid.0 apart.stop_asc c.sl_slabs
            c.sl_elems q.after (omega (arith, edge.slabs, gone.3, o.counted, spanned))
            (omega (arith, edge.slabs, gone.3, bound, edge.few))
            (omega (arith, edge.least, gone.4, total, sizes p, size))
            (omega (arith, edge.most, gone.4, small_total)) in
        rw (other, ahead, gap)
          (rw taken (record {
            out = record {
              sl_slabs = d.sl_slabs;
              sl_elems = d.sl_elems;
              given = c.given ++ d.given;
              chain = rewind p.before (c.chain ++ d.chain);
            };
            is = refl;
            holds =
                flat-rewind p.before (c.chain ++ d.chain)
                ∙ ap (λ t. rflat p.before ++ t)
                    (flat-append c.chain d.chain
                      ∙ ap₂ ◌++◌ (edge.left ∙ append-nil (outside cb min max (live p.cur)))
                          edge'.left)
                ∙ sym left_over;
            valid = All-rewind p.before (c.chain ++ d.chain) o.left (
                All-append IsValid c.chain d.chain (edge.valid tt)
                  (edge'.valid apart.stop_valid.1));
            counted = omega (
              arith,
              edge.slabs,
              edge'.slabs,
              gone.3,
              o.counted,
              spanned,
              length-append c.chain d.chain,
              length-rewind p.before (c.chain ++ d.chain),
            );
            least = omega (
              arith,
              edge.least,
              edge'.least,
              gone.4,
              total,
              sizes p,
              size,
              ap length (flat-rewind p.before (c.chain ++ d.chain)),
              ap length (flat-append c.chain d.chain),
              length-append (rflat p.before) (flat (c.chain ++ d.chain)),
              length-append (flat c.chain) (flat d.chain),
            );
          }))
