-- ===== src/Reverse/Turned.antt =====
-- A reversal turns the list of the elements round.
use libslablist.Prelude.{
  All, sub8, ℕ, zero, suc, ◌+◌, ◌-◌, ◌<◌, ◌≤◌, ◌≡◌, refl, sym, ap, ap₂, ◌∙◌, List, [], ◌∷◌, ◌++◌,
  false, append-nil, append_assoc, arith, slice, slice-add, write, leb, ◌&&◌, if◌then◌else◌,
  reverse, reverse-append,
}
use libslablist.Callbacks.{Elem}
use libslablist.Slab.{Slab, live}
use libslablist.Slab.Edit.{IsValid}
use libslablist.Slablist.Shape.{IsList, Shape}
use libslablist.Chain.{flat}
use libslablist.Slablist.{Slablist, Head, small, chain, elems, slist_sorted}
use libslablist.Reverse.{swap_loop, turn, turn_slabs, turn_nodes, slablist_reverse}

-- What lies between the two indices is turned round, and nothing else.
swap_loop_cell :
    (f : ℕ) (arr : ℕ → Elem) (i j k : ℕ)
    → j ≤ i + f + f
    → swap_loop f arr i j k ≡ (if leb i k && leb k j then arr (i + j - k) else arr k)
unfolding swap_loop
swap_loop_cell zero arr i j k h = ground arith
swap_loop_cell (suc f) arr i j k h = ground (
  arith,
  swap_loop_cell f (write (write arr i (arr j)) j (arr i)) (i + 1) (j - 1) k (omega arith),
)

-- Cells in the opposite order.
slice-reverse :
    (n i j : ℕ) (h arr : ℕ → Elem)
    → ((k : ℕ) → k < n → h (i + k) ≡ arr (j + (n - 1 - k)))
    → slice h i n ≡ reverse (slice arr j n)
slice-reverse zero i j h arr e = refl
slice-reverse (suc n) i j h arr e =
    let one_more : suc n ≡ n + 1 = omega arith in
    ap₂ ◌∷◌ (ground (arith, e 0))
      (slice-reverse n (suc i) j h arr (λ k l. ground (arith, e (suc k))))
    ∙ sym (
        ap reverse (ap (slice arr j) one_more ∙ slice-add arr j n 1)
        ∙ reverse-append (slice arr j n) (arr (j + n) ∷ []))

live-turn : (s : Slab) → IsValid s → live (turn s) ≡ reverse (live s)
unfolding turn
live-turn s v =
    let last : sub8 s.s_elems 1 ≡ s.s_elems - 1 = omega (arith, v.used, v.fits) in
    slice-reverse s.s_elems 0 0 (turn s).s_arr s.s_arr (λ k l.
      ground (
        arith,
        last,
        swap_loop_cell (sub8 s.s_elems 1) s.s_arr 0 (sub8 s.s_elems 1) k (omega arith),
      ))

turn_slabs-flat :
    (done ss : List Slab)
    → All IsValid ss
    → flat (turn_slabs done ss) ≡ reverse (flat ss) ++ flat done
unfolding turn_slabs
turn_slabs-flat done [] v = refl
turn_slabs-flat done (s ∷ ss) v =
    turn_slabs-flat (turn s ∷ done) ss v.1
    ∙ ap (λ t. reverse (flat ss) ++ (t ++ flat done)) (live-turn s v.0)
    ∙ sym (append_assoc (reverse (flat ss)) (reverse (live s)) (flat done))
    ∙ ap (λ t. t ++ flat done) (sym (reverse-append (live s) (flat ss)))

turn_nodes-reverse : (n_prev xs : List Elem) → turn_nodes n_prev xs ≡ reverse xs ++ n_prev
unfolding turn_nodes
turn_nodes-reverse n_prev [] = refl
turn_nodes-reverse n_prev (x ∷ xs) =
    turn_nodes-reverse (x ∷ n_prev) xs ∙ sym (append_assoc (reverse xs) (x ∷ []) n_prev)

turned :
    (sl : Slablist) (h : Head)
    → Shape h
    → slist_sorted sl.sl_flags ≡ false
    → elems (slablist_reverse (record sl { sl_head = h })).sl_head ≡ reverse (elems h)
unfolding slablist_reverse
turned sl (small nodes) w ordered =
    rw ordered (turn_nodes-reverse [] nodes ∙ append-nil (reverse nodes))
turned sl (chain n ss) w ordered =
    rw ordered (turn_slabs-flat [] ss w.2 ∙ append-nil (reverse (flat ss)))

-- slablist_reverse turns the elements of a well-formed ordered list round, whether it is small or
-- of slabs.
pub slablist_reverse-reverse :
    (sl : Slablist)
    → IsList sl
    → slist_sorted sl.sl_flags ≡ false
    → elems (slablist_reverse sl).sl_head ≡ reverse (elems sl.sl_head)
slablist_reverse-reverse sl w ordered = turned sl sl.sl_head w.shape ordered
