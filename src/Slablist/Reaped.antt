-- ===== src/Slablist/Reaped.antt =====
-- The head of a list of slabs after try_reap_all: the elements stay, and it is well-formed.
use libslablist.Prelude.{
  ℕ, ◌≤◌, ◌<◌, ◌^◌, ◌≡◌, refl, ap, ◌∙◌, List, All, Bool, Option, some, arith, length,
}
use libslablist.Callbacks.{Elem}
use libslablist.Slab.{Slab}
use libslablist.Slab.Edit.{IsValid}
use libslablist.Chain.{flat}
use libslablist.Reap.Keeps.{try_reap-Reaps}
use libslablist.Small.{smelem_max}
use libslablist.Slablist.{Head, chain, Slablist, elems, reaped}
use libslablist.Slablist.Shape.{Shape, length-flat, some_slab}

-- A head with the elements `xs`.
pub record Reaped (xs : List Elem) (res : Option Head) : Type 0 where
  pub head : Head
  pub is : res ≡ some head
  pub holds : elems head ≡ xs
  pub shape : smelem_max ≤ length xs → Shape head

-- On valid slabs that are counted and hold `xs`, the reap does not follow NULL.
pub reaped-Reaped :
    (enough : ℕ → ℕ → ℕ → Bool) (sl : Slablist) (n : ℕ) (ss : List Slab) (xs : List Elem)
    → n ≡ length ss
    → All IsValid ss
    → flat ss ≡ xs
    → length xs < 2 ^ 64
    → Reaped xs (reaped enough sl n ss)
unfolding reaped
reaped-Reaped enough sl n ss xs count valid holds room =
    let k =
      try_reap-Reaps enough sl.sl_mslabs sl.sl_mpslabs sl.sl_elems n ss count
        (omega (arith, count, length-flat ss valid, ap length holds, room)) valid in
    let same : flat k.out.1 ≡ xs = k.keeps.kept ∙ holds in
    rw (k.is, reaped)
      (record {
        head = chain k.out.0 k.out.1;
        is = refl;
        holds = same;
        shape = λ some_elem. (
          omega (arith, k.keeps.counted, count),
          omega (
            arith,
            k.keeps.counted,
            count,
            some_slab k.out.1 (omega (arith, some_elem, ap length same)),
          ),
          k.keeps.valid,
          omega (arith, some_elem, ap length same),
        );
      })
