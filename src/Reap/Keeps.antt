-- ===== src/Reap/Keeps.antt =====
-- Reaping moves elements between neighbours and nothing else.
use libslablist.Prelude.{
  ℕ, ◌+◌, ◌≤◌, ◌<◌, ◌^◌, ◌≡◌, refl, sym, ap, ◌∙◌, inl, inr, List, [], ◌∷◌, ◌++◌, All, Bool, Option,
  none, some, append_assoc, append-nil, ◌/◌, ◌&&◌, arith, length, ltb, leb, ◌==◌, sub64, false,
  Bool-cases, slice,
}
use libslablist.Slab.{Slab, live, selem_max, move_to_prev}
use libslablist.Slab.Edit.{IsValid}
use libslablist.Slab.Move.{move_to_prev-IsValid, both-move_to_prev}
use libslablist.Chain.{flat}
use libslablist.Reap.{behind, reap_loop, slablist_reap, try_reap}

abbrev pub from : Option Slab → List Slab → List Slab
from none ss = ss
from (some s) ss = s ∷ ss

-- What the loop makes of a run of slabs: the same elements in the same order in valid slabs, and a
-- count that changes with their number.
pub record Keeps (n : ℕ) (ss : List Slab) (out : ℕ × List Slab) : Type 0 where
  pub kept : flat out.1 ≡ flat ss
  pub valid : All IsValid out.1
  pub fewer : length out.1 ≤ length ss
  pub counted : out.0 + length ss ≡ n + length out.1

keep_on :
    (n : ℕ) (s : Slab) (ss : List Slab) (out : ℕ × List Slab)
    → IsValid s
    → Keeps n ss out
    → Keeps n (s ∷ ss) (out.0, s ∷ out.1)
keep_on n s ss out v k = record {
  kept = ap (λ t. live s ++ t) k.kept;
  valid = (v, k.valid);
  fewer = omega (arith, k.fewer);
  counted = omega (arith, k.counted);
}

-- Elements went over from `sn` to `s`.
module _ (s sn : Slab) (v : IsValid s) (w : IsValid sn) where
  abbrev s' : Slab
  s' = (move_to_prev s sn).0

  abbrev sn' : Slab
  sn' = (move_to_prev s sn).1

  moved : live s' ++ live sn' ≡ live s ++ live sn
  moved = both-move_to_prev s sn (inr v) w

  pub still-IsValid : 0 < sn'.s_elems → IsValid sn'
  still-IsValid h = ground (arith, move_to_prev-IsValid s sn (inr v) w)

  pub shift :
      (n : ℕ) (r : List Slab) (out : ℕ × List Slab)
      → Keeps n (sn' ∷ r) out
      → Keeps n (s ∷ (sn ∷ r)) (out.0, s' ∷ out.1)
  shift n r out k = record {
    kept =
        ap (λ t. live s' ++ t) k.kept
        ∙ sym (append_assoc (live s') (live sn') (flat r))
        ∙ ap (λ t. t ++ flat r) moved
        ∙ append_assoc (live s) (live sn) (flat r);
    valid = ((move_to_prev-IsValid s sn (inr v) w).0, k.valid);
    fewer = omega (arith, k.fewer);
    counted = omega (arith, k.counted);
  }

  pub merge :
      (n : ℕ) (r : List Slab) (out : ℕ × List Slab)
      → sn'.s_elems ≡ 0
      → 0 < n
      → n < 2 ^ 64
      → Keeps (sub64 n 1) r out
      → Keeps n (s ∷ (sn ∷ r)) (out.0, s' ∷ out.1)
  merge n r out gone some_slab b k = record {
    kept =
        ap (λ t. live s' ++ t) k.kept
        ∙ ap (λ t. t ++ flat r)
            (sym (append-nil (live s')) ∙ ap (λ t. live s' ++ t) (sym none_left) ∙ moved)
        ∙ append_assoc (live s) (live sn) (flat r);
    valid = ((move_to_prev-IsValid s sn (inr v) w).0, k.valid);
    fewer = omega (arith, k.fewer);
    counted = omega (arith, k.counted);
  }
    where
      none_left : live sn' ≡ []
      none_left = ap (slice sn'.s_arr 0) gone

-- A reap that does not follow NULL.
pub record Reaps (n : ℕ) (ss : List Slab) (res : Option (ℕ × List Slab)) : Type 0 where
  pub out : ℕ × List Slab
  pub is : res ≡ some out
  pub keeps : Keeps n ss out

stays : (n : ℕ) (ss : List Slab) → All IsValid ss → Reaps n ss (some (n, ss))
stays n ss v = record {
  out = (n, ss);
  is = refl;
  keeps = record { kept = refl; valid = v; fewer = omega arith; counted = refl };
}

-- The slab `s` before the rest, with what is known of both together.
put :
    {n m : ℕ} {ss r : List Slab} (s : Slab) (res : Option (ℕ × List Slab))
    → Reaps m r res
    → ((out : ℕ × List Slab) → Keeps m r out → Keeps n ss (out.0, s ∷ out.1))
    → Reaps n ss (behind s res)
put s res k grow = record {
  out = (k.out.0, s ∷ k.out.1);
  is = ap (behind s) k.is;
  keeps = grow k.out k.keeps;
}

-- `i` slabs are done, and the others are those to come.
reap_loop-Reaps :
    (i n : ℕ) (o : Option Slab) (ss : List Slab)
    → i + length (from o ss) ≡ n
    → 0 < n
    → n < 2 ^ 64
    → All IsValid (from o ss)
    → Reaps n (from o ss) (reap_loop i n o ss)
unfolding reap_loop
reap_loop-Reaps i n none [] h z b v =
    let ended : ltb i (sub64 n 1) ≡ false = ground (arith, h, z, b) in rw ended (stays n [] tt)
reap_loop-Reaps i n none (x ∷ r) h z b v = reap_loop-Reaps i n (some x) r h z b v
reap_loop-Reaps i n (some s) [] h z b v =
    let ended : ltb i (sub64 n 1) ≡ false = ground (arith, h, z, b) in
    rw (ended, reap_loop) (stays n (s ∷ []) v)
reap_loop-Reaps i n (some s) (sn ∷ r) h z b v = elim (Bool-cases (ltb i (sub64 n 1))) [
  | inr t ↦ rw (t, reap_loop) (stays n (s ∷ (sn ∷ r)) v)
  | inl t ↦
      rw (t, reap_loop)
        (elim (Bool-cases (ltb s.s_elems selem_max)) [
          | inr u ↦ rw u (
              put s (reap_loop (i + 1) n (some sn) r)
                (reap_loop-Reaps (i + 1) n (some sn) r (omega arith) z b v.1)
                (λ out k. keep_on n s (sn ∷ r) out v.0 k))
          | inl u ↦ rw u (elim (Bool-cases ((move_to_prev s sn).1.s_elems == 0)) [
            | inl e ↦ rw e (
                put (move_to_prev s sn).0 (reap_loop (i + 1) (sub64 n 1) none r)
                  (reap_loop-Reaps (i + 1) (sub64 n 1) none r (omega arith) (omega arith)
                    (omega arith) v.1.1)
                  (λ out k. merge s sn v.0 v.1.0 n r out (ground arith) z b k))
            | inr e ↦ rw e (
                put (move_to_prev s sn).0 (reap_loop (i + 1) n (some (move_to_prev s sn).1) r)
                  (reap_loop-Reaps (i + 1) n (some (move_to_prev s sn).1) r (omega arith) z b
                    (still-IsValid s sn v.0 v.1.0 (ground arith), v.1.1))
                  (λ out k. shift s sn v.0 v.1.0 n r out k))
          ])
        ])
]

slablist_reap-Reaps :
    (n : ℕ) (ss : List Slab)
    → n ≡ length ss
    → n < 2 ^ 64
    → All IsValid ss
    → Reaps n ss (slablist_reap n ss)
unfolding slablist_reap
slablist_reap-Reaps n ss h b v = elim (Bool-cases (n == 0)) [
  | inl t ↦ rw t (stays n ss v)
  | inr t ↦ rw t (reap_loop-Reaps 0 n none ss (omega arith) (ground arith) b v)
]

-- On a chain of valid slabs that sl_slabs counts, in 64 bits, and whatever its test decides,
-- try_reap does not follow NULL, and the chain holds the same elements in the same order, in valid
-- slabs that are no more than before, and sl_slabs counts them again.
pub try_reap-Reaps :
    (enough : ℕ → ℕ → ℕ → Bool) (mslabs mpslabs elems n : ℕ) (ss : List Slab)
    → n ≡ length ss
    → n < 2 ^ 64
    → All IsValid ss
    → Reaps n ss (try_reap enough mslabs mpslabs elems n ss)
unfolding try_reap
try_reap-Reaps enough mslabs mpslabs elems n ss h b v =
    elim (Bool-cases (
      leb mslabs (sub64 n (elems / selem_max)) && enough (sub64 n (elems / selem_max)) n mpslabs)) [
        | inl t ↦ rw t (slablist_reap-Reaps n ss h b v)
        | inr t ↦ rw t (stays n ss v)
      ]
