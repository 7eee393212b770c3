-- ===== src/Merge/Keeps.antt =====
-- A slab is unlinked only when it is empty, so a removal takes out no more than its element.
use libslablist.Prelude.{
  ℕ, suc, ◌+◌, ◌<◌, ◌^◌, ◌≡◌, refl, sym, ap, ◌∙◌, inl, inr, List, [], ◌∷◌, ◌++◌, All, true, false,
  append_assoc, arith, length, leb, ◌==◌, sub64, Bool-cases, slice,
}
use libslablist.Callbacks.{Elem}
use libslablist.Slab.{Slab, live, slab_free_space, move_to_next, move_to_prev}
use libslablist.Slab.Edit.{IsValid}
use libslablist.Slab.Move.{IsLeft, move_to_next-IsValid, move_to_prev-IsValid}
use libslablist.Chain.{Place, flat, rflat, contents, rewind}
use libslablist.Chain.Contents.{regroup, flat-rewind, flat-slabs, All-rewind, length-rewind}
use libslablist.Merge.{merge, slab_generic_rem}
use libslablist.Merge.Slabs.{into_next, into_prev, Two, spread, from_next, from_prev}

-- The chain that is left holds `xs`, in valid slabs that are counted.
pub record IsChain (xs : List Elem) (out : ℕ × List Slab) : Type 0 where
  pub holds : flat out.1 ≡ xs
  pub valid : All IsValid out.1
  pub counted : out.0 ≡ length out.1

-- The chain round slabs that hold what others held there before.
module _ (b a : List Slab) (vb : All IsValid b) (va : All IsValid a) where
  round_one :
      (n : ℕ) (t : Slab) (xs : List Elem)
      → n ≡ suc (length b + length a)
      → live t ≡ xs
      → IsValid t
      → IsChain (rflat b ++ (xs ++ flat a)) (n, rewind b (t ∷ a))
  round_one n t xs count h v = record {
    holds = flat-rewind b (t ∷ a) ∙ ap (λ l. rflat b ++ (l ++ flat a)) h;
    valid = All-rewind b (t ∷ a) vb (v, va);
    counted = omega (arith, count, length-rewind b (t ∷ a));
  }

  round_two :
      (n : ℕ) (t u : Slab) (xs : List Elem)
      → n ≡ suc (suc (length b + length a))
      → live t ++ live u ≡ xs
      → IsValid t
      → IsValid u
      → IsChain (rflat b ++ (xs ++ flat a)) (n, rewind b (t ∷ (u ∷ a)))
  round_two n t u xs count h v w = record {
    holds =
        flat-rewind b (t ∷ (u ∷ a))
        ∙ ap (λ l. rflat b ++ l) (sym (append_assoc (live t) (live u) (flat a)))
        ∙ ap (λ l. rflat b ++ (l ++ flat a)) h;
    valid = All-rewind b (t ∷ (u ∷ a)) vb (v, (w, va));
    counted = omega (arith, count, length-rewind b (t ∷ (u ∷ a)));
  }

holding : (xs ys : List Elem) (out : ℕ × List Slab) → xs ≡ ys → IsChain xs out → IsChain ys out
holding xs ys out e c = record { holds = c.holds ∙ e; valid = c.valid; counted = c.counted }

three : (r x y z f : List Elem) → r ++ ((x ++ (y ++ z)) ++ f) ≡ (r ++ x) ++ (y ++ (z ++ f))
three r x y z f =
    ap (λ t. r ++ t) (append_assoc x (y ++ z) f ∙ ap (λ t. x ++ t) (append_assoc y z f))
    ∙ sym (append_assoc r x (y ++ (z ++ f)))

-- With both neighbours.
module _ (n : ℕ) (sp s sn : Slab) (b a : List Slab)
    (count : n ≡ suc (suc (suc (length b + length a)))) (small : n < 2 ^ 64) (u : IsValid sp)
    (v : IsValid s) (w : IsValid sn) (vb : All IsValid b) (va : All IsValid a) where
  abbrev all : List Elem
  all = rflat (sp ∷ b) ++ (live s ++ flat (sn ∷ a))

  fewer : sub64 n 1 ≡ suc (suc (length b + length a))
  fewer = omega arith

  two :
      (t t' : Slab)
      → live t ++ live t' ≡ live sp ++ (live s ++ live sn)
      → IsValid t
      → IsValid t'
      → IsChain all (sub64 n 1, rewind b (t ∷ (t' ∷ a)))
  two t t' h vt vt' =
      holding (rflat b ++ ((live sp ++ (live s ++ live sn)) ++ flat a)) all
        (sub64 n 1, rewind b (t ∷ (t' ∷ a))) (three (rflat b) (live sp) (live s) (live sn) (flat a))
        (round_two b a vb va (sub64 n 1) t t' (live sp ++ (live s ++ live sn)) fewer h vt vt')

  of_pair :
      (out : Slab × Slab)
      → Two sp s sn out
      → IsChain all (sub64 n 1, rewind b (out.0 ∷ (out.1 ∷ a)))
  of_pair out h = two out.0 out.1 h.kept h.valid.0 h.valid.1

  untouched : IsChain all (n, rewind b (sp ∷ (s ∷ (sn ∷ a))))
  untouched =
      holding (rflat (sp ∷ b) ++ ((live s ++ live sn) ++ flat a)) all
        (n, rewind b (sp ∷ (s ∷ (sn ∷ a))))
        (ap (λ t. rflat (sp ∷ b) ++ t) (append_assoc (live s) (live sn) (flat a)))
        (round_two (sp ∷ b) a (u, vb) va n s sn (live s ++ live sn) (omega (arith, count)) refl v w)

  pub between : IsChain all (merge n (sp ∷ b) s (sn ∷ a))
  unfolding merge
  between = elim (Bool-cases (leb s.s_elems (slab_free_space sn))) [
    | inl t ↦ rw t (
        two sp (move_to_next s sn).1 (ap (λ l. live sp ++ l) (into_next s sn v w (ground arith))) u
          (move_to_next-IsValid s sn v w).1)
    | inr t ↦ rw t (elim (Bool-cases (leb s.s_elems (slab_free_space sp))) [
      | inl t1 ↦ rw t1 (
          two (move_to_prev sp s).0 sn
            (ap (λ l. l ++ live sn) (into_prev sp s u v (ground arith))
              ∙ append_assoc (live sp) (live s) (live sn))
            (move_to_prev-IsValid sp s (inr u) v).0 w)
      | inr t1 ↦
          rw t1 (elim (Bool-cases (leb s.s_elems (slab_free_space sp + slab_free_space sn))) [
            | inl t2 ↦ rw t2 (
                of_pair ((move_to_prev sp (move_to_next s sn).0).0, (move_to_next s sn).1)
                  (spread sp s sn u v w (ground arith) (ground arith)))
            | inr t2 ↦
                rw t2 (elim (Bool-cases (leb sn.s_elems (slab_free_space s + slab_free_space sp))) [
                  | inl t3 ↦ rw t3 (
                      of_pair ((move_to_prev sp s).0, (move_to_prev (move_to_prev sp s).1 sn).0)
                        (from_next sp s sn u v w (ground arith) (ground arith)))
                  | inr t3 ↦
                      rw t3
                        (elim (Bool-cases
                          (leb sp.s_elems (slab_free_space s + slab_free_space sn))) [
                            | inl t4 ↦ rw t4 (
                                of_pair
                                  ((move_to_next sp (move_to_next s sn).0).1, (move_to_next s sn).1)
                                  (from_prev sp s sn u v w (ground arith) (ground arith)))
                            | inr t4 ↦ rw t4 untouched
                          ])
                ])
          ])
    ])
  ]

merge-IsChain :
    (n : ℕ) (b : List Slab) (s : Slab) (a : List Slab)
    → n ≡ suc (length b + length a)
    → n < 2 ^ 64
    → All IsValid b
    → IsValid s
    → All IsValid a
    → IsChain (rflat b ++ (live s ++ flat a)) (merge n b s a)
unfolding merge
merge-IsChain n [] s [] count small vb v va = round_one [] [] vb va n s (live s) count refl v
merge-IsChain n [] s (sn ∷ a) count small vb v va =
    elim (Bool-cases (leb s.s_elems (slab_free_space sn))) [
      | inl t ↦ rw t (
          holding ((live s ++ live sn) ++ flat a) _ _ (append_assoc (live s) (live sn) (flat a)) (
            round_one [] a vb va.1 (sub64 n 1) (move_to_next s sn).1 (live s ++ live sn)
              (omega arith) (into_next s sn v va.0 (ground arith))
              (move_to_next-IsValid s sn v va.0).1))
      | inr t ↦ rw t (
          holding ((live s ++ live sn) ++ flat a) _ _ (append_assoc (live s) (live sn) (flat a))
            (round_two [] a vb va.1 n s sn (live s ++ live sn) (omega arith) refl v va.0))
    ]
merge-IsChain n (sp ∷ b) s [] count small vb v va =
    elim (Bool-cases (leb s.s_elems (slab_free_space sp))) [
      | inl t ↦ rw t (
          holding (rflat b ++ ((live sp ++ live s) ++ [])) _ _
            (sym (regroup (rflat b) (live sp) (live s) []))
            (round_one b [] vb.1 va (sub64 n 1) (move_to_prev sp s).0 (live sp ++ live s)
              (omega arith) (into_prev sp s vb.0 v (ground arith))
              (move_to_prev-IsValid sp s (inr vb.0) v).0))
      | inr t ↦ rw t (
          holding (rflat b ++ ((live sp ++ live s) ++ [])) _ _
            (sym (regroup (rflat b) (live sp) (live s) []))
            (round_two b [] vb.1 va n sp s (live sp ++ live s) (omega arith) refl vb.0 v))
    ]
merge-IsChain n (sp ∷ b) s (sn ∷ a) count small vb v va =
    between n sp s sn b a (omega (arith, count)) small vb.0 v va.0 vb.1 va.1

-- After a removal from the slab in view, whose chain is counted and otherwise valid,
-- slab_generic_rem leaves a chain that holds exactly the elements it held, in valid slabs, with
-- the right count: a slab is unlinked only when it is empty, in each of the five merges and where
-- there is none.
pub slab_generic_rem-IsChain :
    (p : Place)
    → p.sl_slabs ≡ suc (length p.before + length p.after)
    → p.sl_slabs < 2 ^ 64
    → All IsValid p.before
    → IsLeft p.cur
    → All IsValid p.after
    → IsChain (contents p) (slab_generic_rem p)
unfolding slab_generic_rem
slab_generic_rem-IsChain p count small vb (inl none_left) va =
    let empty : (p.cur.s_elems == 0) ≡ true = ground arith in
    rw empty (record {
      holds =
          flat-rewind p.before p.after
          ∙ ap (λ t. rflat p.before ++ (t ++ flat p.after))
              (sym (ap (slice p.cur.s_arr 0) none_left));
      valid = All-rewind p.before p.after vb va;
      counted = omega (arith, count, length-rewind p.before p.after);
    })
slab_generic_rem-IsChain p count small vb (inr v) va =
    let some_left : (p.cur.s_elems == 0) ≡ false = ground (arith, v) in
    rw some_left (elim (Bool-cases (p.sl_slabs == 1)) [
      | inl t ↦ rw t (record {
        holds = flat-slabs p;
        valid = All-rewind p.before (p.cur ∷ p.after) vb (v, va);
        counted = omega (arith, count, length-rewind p.before (p.cur ∷ p.after));
      })
      | inr t ↦ rw t (merge-IsChain p.sl_slabs p.before p.cur p.after count small vb v va)
    ])
