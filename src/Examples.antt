-- ===== src/Examples.antt =====
-- Test data: the callbacks of a list of numbers, slabs of evenly spaced numbers, and lists of them.
mod Lists
mod Slabs
mod Runs
mod Passes
mod Layers
mod Ranges
mod Searches
mod Spans
use libslablist.Prelude.{
  ℕ, zero, suc, ◌+◌, ◌-◌, ◌*◌, ◌≤◌, ◌<◌, ◌≡◌, refl, subst, sym, List, [], ◌∷◌, ◌++◌, All, Bool,
  arith, append-nil, leb, length, length-append, length-slice, slice,
}
use libslablist.Callbacks.{Elem, Callbacks, Ranked, sign, bounds}
use libslablist.Slab.{Slab, live, selem_max}
use libslablist.Slab.Edit.{IsValid}
use libslablist.Sorted.{Ascends, Ascends-append}
use libslablist.Sorted.Cells.{All-slice}
use libslablist.Chain.{Place, at, flat, IsWhole}
use libslablist.Slablist.{Slablist, small, chain, null}
use libslablist.Slablist.Shape.{IsList, IsSorted}

abbrev pub numbers : Callbacks
numbers = record { cmp = sign; bnd = bounds }

abbrev pub numbers_ranked : Ranked numbers
numbers_ranked = record { rank = λ x. x; cmp_rank = λ a b. refl; bnd_rank = λ e lo hi h. refl }

-- `slabs_saveable / sl_slabs >= sl_mpslabs / 100` without rounding.
abbrev pub share : ℕ → ℕ → ℕ → Bool
share saveable slabs percent = leb (percent * slabs) (100 * saveable)

-- `n` numbers from `b` on, two apart.
abbrev pub ramp : ℕ → ℕ → Slab
ramp b n = record { s_min = b; s_max = b + 2 * (n - 1); s_elems = n; s_arr = λ k. b + 2 * k }

pub ramp-IsValid : (b n : ℕ) → 0 < n → n ≤ selem_max → IsValid (ramp b n)
ramp-IsValid b n h k = record { used = h; fits = k; min_first = omega arith; max_last = refl }

run-Ascends : (b i n : ℕ) → Ascends (λ x. x) (slice (λ k. b + 2 * k) i n)
run-Ascends b i zero = tt
run-Ascends b i (suc n) = (
  All-slice (λ x. b + 2 * i < x) (λ k. b + 2 * k) (suc i) n (λ k h l. omega arith),
  run-Ascends b (suc i) n,
)

pub ramp-Ascends : (b n : ℕ) → Ascends (λ x. x) (live (ramp b n))
ramp-Ascends b n = run-Ascends b 0 n

pub Below-ramp :
    (b n c m : ℕ) → b + 2 * n ≤ c → All (λ x. All (λ y. x < y) (live (ramp c m))) (live (ramp b n))
Below-ramp b n c m h =
    All-slice (λ x. All (λ y. x < y) (live (ramp c m))) (λ k. b + 2 * k) 0 n
      (λ k _ l. All-slice (λ y. b + 2 * k < y) (λ j. c + 2 * j) 0 m (λ j _ l'. omega arith))

-- Two slabs: 0, 2, … 120 and 200, 202, … 320.
abbrev pub two_slabs : List Slab
two_slabs = ramp 0 61 ∷ (ramp 200 61 ∷ [])

pub two_slabs-IsValid : All IsValid two_slabs
two_slabs-IsValid = (
  ramp-IsValid 0 61 (omega arith) (omega arith),
  (ramp-IsValid 200 61 (omega arith) (omega arith), tt),
)

pub two_slabs-Ascends : Ascends (λ x. x) (flat two_slabs)
two_slabs-Ascends =
    Ascends-append (λ x. x) (live (ramp 0 61)) (live (ramp 200 61) ++ []) (ramp-Ascends 0 61)
      (subst (Ascends (λ x. x)) (sym (append-nil (live (ramp 200 61)))) (ramp-Ascends 200 61))
      (subst (λ ys. All (λ x. All (λ y. x < y) ys) (live (ramp 0 61)))
        (sym (append-nil (live (ramp 200 61)))) (Below-ramp 0 61 200 61 (omega arith)))

-- A list of these slabs; 128 is SL_SORTED.
abbrev pub slab_list : ℕ → Slablist
slab_list flags = record {
  sl_flags = flags;
  sl_req_sublayer = 10;
  sl_mpslabs = 30;
  sl_mslabs = 30;
  sl_elems = 122;
  sl_head = chain 2 two_slabs;
  sl_baselayer = null;
}

pub two_slabs-length : length (flat two_slabs) ≡ 122
two_slabs-length = omega (
  arith,
  length-append (live (ramp 0 61)) (live (ramp 200 61) ++ []),
  length-append (live (ramp 200 61)) [],
  length-slice (ramp 0 61).s_arr 0 61,
  length-slice (ramp 200 61).s_arr 0 61,
)

pub slab_list-IsList : (flags : ℕ) → IsList (slab_list flags)
slab_list-IsList flags = record {
  counted = sym two_slabs-length;
  bounded = omega arith;
  shape = (omega arith, omega arith, two_slabs-IsValid, omega (arith, two_slabs-length));
}

pub slab_list-IsSorted : IsSorted numbers_ranked (slab_list 128)
slab_list-IsSorted = record {
  list = slab_list-IsList 128;
  sorted = refl;
  no_temp = refl;
  rises = two_slabs-Ascends;
}

-- The chain, seen from its first slab.
abbrev pub from_head : Place
from_head = at 2 [] (ramp 0 61) (ramp 200 61 ∷ [])

pub from_head-IsWhole : IsWhole from_head
from_head-IsWhole = record {
  left = tt;
  here = two_slabs-IsValid.0;
  right = two_slabs-IsValid.1;
  counted = omega arith;
}
