-- ===== src/Merge/Slabs.antt =====
-- Two and three neighbours in a merge: a slab that goes into the others is left empty, and they hold
-- what it held.
use libslablist.Prelude.{
  ◌+◌, ◌≤◌, ◌<◌, ◌≡◌, sym, ap, ◌∙◌, inr, [], ◌++◌, append_assoc, append-nil, arith, slice,
}
use libslablist.Slab.{Slab, live, slab_free_space, move_to_next, move_to_prev}
use libslablist.Slab.Edit.{IsValid}
use libslablist.Slab.Move.{
  move_to_next_counts, move_to_next-IsValid, both-move_to_next, move_to_prev_counts,
  move_to_prev-IsValid, both-move_to_prev,
}

-- A slab that went into its neighbour.
module _ (s t : Slab) (v : IsValid s) (w : IsValid t) where
  gone : (u : Slab) → u.s_elems ≡ 0 → live u ≡ []
  gone u h = ap (slice u.s_arr 0) h

  pub into_next : s.s_elems ≤ slab_free_space t → live (move_to_next s t).1 ≡ live s ++ live t
  into_next h =
      ap (λ l. l ++ live (move_to_next s t).1)
        (sym (gone (move_to_next s t).0 ((move_to_next_counts s t v w).1 h)))
      ∙ both-move_to_next s t v w

  pub into_prev : t.s_elems ≤ slab_free_space s → live (move_to_prev s t).0 ≡ live s ++ live t
  into_prev h =
      sym (append-nil (live (move_to_prev s t).0))
      ∙ ap (λ l. live (move_to_prev s t).0 ++ l)
          (sym (gone (move_to_prev s t).1 ((move_to_prev_counts s t (inr v) w).1 h)))
      ∙ both-move_to_prev s t (inr v) w

-- Three neighbours become two.
pub record Two (s t u : Slab) (out : Slab × Slab) : Type 0 where
  pub kept : live out.0 ++ live out.1 ≡ live s ++ (live t ++ live u)
  pub valid : IsValid out.0 × IsValid out.1

module _ (sp s sn : Slab) (u : IsValid sp) (v : IsValid s) (w : IsValid sn) where
  pub spread :
      slab_free_space sn < s.s_elems
      → s.s_elems ≤ slab_free_space sp + slab_free_space sn
      → Two sp s sn ((move_to_prev sp (move_to_next s sn).0).0, (move_to_next s sn).1)
  spread h k =
      let s1 = (move_to_next s sn).0 in
      let sn' = (move_to_next s sn).1 in
      let counts = move_to_next_counts s sn v w in
      let v1 : IsValid s1 = ground (arith, counts, v, w, move_to_next-IsValid s sn v w) in
      let fits : s1.s_elems ≤ slab_free_space sp = ground (arith, counts, v, w) in
      record {
        kept =
            ap (λ t. t ++ live sn') (into_prev sp s1 u v1 fits)
            ∙ append_assoc (live sp) (live s1) (live sn')
            ∙ ap (λ t. live sp ++ t) (both-move_to_next s sn v w);
        valid = ((move_to_prev-IsValid sp s1 (inr u) v1).0, (move_to_next-IsValid s sn v w).1);
      }

  pub from_next :
      slab_free_space sp < s.s_elems
      → sn.s_elems ≤ slab_free_space s + slab_free_space sp
      → Two sp s sn ((move_to_prev sp s).0, (move_to_prev (move_to_prev sp s).1 sn).0)
  from_next h k =
      let sp' = (move_to_prev sp s).0 in
      let s1 = (move_to_prev sp s).1 in
      let counts = move_to_prev_counts sp s (inr u) v in
      let v1 : IsValid s1 = ground (arith, counts, u, v, move_to_prev-IsValid sp s (inr u) v) in
      let fits : sn.s_elems ≤ slab_free_space s1 = ground (arith, counts, u, v) in
      record {
        kept =
            ap (λ t. live sp' ++ t) (into_prev s1 sn v1 w fits)
            ∙ sym (append_assoc (live sp') (live s1) (live sn))
            ∙ ap (λ t. t ++ live sn) (both-move_to_prev sp s (inr u) v)
            ∙ append_assoc (live sp) (live s) (live sn);
        valid =
            ((move_to_prev-IsValid sp s (inr u) v).0, (move_to_prev-IsValid s1 sn (inr v1) w).0);
      }

  pub from_prev :
      slab_free_space sn < s.s_elems
      → sp.s_elems ≤ slab_free_space s + slab_free_space sn
      → Two sp s sn ((move_to_next sp (move_to_next s sn).0).1, (move_to_next s sn).1)
  from_prev h k =
      let s1 = (move_to_next s sn).0 in
      let sn' = (move_to_next s sn).1 in
      let counts = move_to_next_counts s sn v w in
      let v1 : IsValid s1 = ground (arith, counts, v, w, move_to_next-IsValid s sn v w) in
      let fits : sp.s_elems ≤ slab_free_space s1 = ground (arith, counts, v, w) in
      record {
        kept =
            ap (λ t. t ++ live sn') (into_next sp s1 u v1 fits)
            ∙ append_assoc (live sp) (live s1) (live sn')
            ∙ ap (λ t. live sp ++ t) (both-move_to_next s sn v w);
        valid = ((move_to_next-IsValid sp s1 u v1).1, (move_to_next-IsValid s sn v w).1);
      }
