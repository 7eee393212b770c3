-- ===== src/Insert/Branches.antt =====
-- Each way of adding puts the element where an insertion into the found slab would, and keeps the
-- chain whole.
use libslablist.Prelude.{
  ℕ, suc, ◌+◌, ◌≤◌, ◌<◌, ◌%◌, ◌^◌, ◌≡◌, sym, ◌⊎◌, inr, ap, ap₂, ◌∙◌, List, [], ◌∷◌, ◌++◌, All,
  append-nil, append_assoc, arith, insert_at, insert_at-append_left, insert_at-append, length,
  length-slice,
}
use libslablist.Callbacks.{Elem}
use libslablist.Slab.{Slab, live, selem_max, add_elem, addsn, addsp}
use libslablist.Slab.Edit.{IsValid, live-add_elem, add_elem-IsValid}
use libslablist.Slab.Spill.{both-addsn, addsn-AreValid, both-addsp, addsp-AreValid}
use libslablist.Chain.{Place, flat, rflat, contents, IsWhole}
use libslablist.Chain.Contents.{regroup}
use libslablist.Insert.{spill_next, spill_prev, add_before, add_after}

-- `q` is `p` with `e` put in at index `i` of the slab that `p` points to.
pub record Puts (e : Elem) (i : ℕ) (p q : Place) : Type 0 where
  pub put : contents q ≡ rflat p.before ++ (insert_at i e (live p.cur) ++ flat p.after)
  pub whole : IsWhole q

module _ (e : Elem) (i : ℕ) (p : Place) (w : IsWhole p) where
  pub into-Puts :
      p.cur.s_elems < selem_max
      → i ≤ p.cur.s_elems
      → Puts e i p (record p { cur = add_elem p.cur e i })
  into-Puts room at = record {
    put = ap (λ t. rflat p.before ++ (t ++ flat p.after)) (live-add_elem p.cur e i room at);
    whole = record {
      left = w.left;
      here = add_elem-IsValid p.cur e i room at (inr w.here);
      right = w.right;
      counted = w.counted;
    };
  }

  module _ (full : p.cur.s_elems ≡ selem_max) where
    -- The neighbour may be a slab that was just linked.
    pub next-Puts :
        (snx : Slab) (rest : List Slab) (n : ℕ)
        → i < selem_max
        → snx.s_elems < selem_max
        → (snx.s_elems ≡ 0) ⊎ IsValid snx
        → All IsValid rest
        → n ≡ (length p.before + suc (suc (length rest))) % 2 ^ 64
        → live snx ++ flat rest ≡ flat p.after
        → Puts e i p (spill_next e i (record p { sl_slabs = n; after = snx ∷ rest }))
    unfolding spill_next
    next-Puts snx rest n at room v vs counted same_after = record {
      put =
          ap (λ t. rflat p.before ++ t)
            (sym (append_assoc (live out.0) (live out.1) (flat rest))
              ∙ ap (λ t. t ++ flat rest)
                  (both-addsn p.cur snx e i full room at
                    ∙ insert_at-append_left i (live p.cur) (live snx) e
                        (omega (arith, length-slice p.cur.s_arr 0 p.cur.s_elems)))
              ∙ append_assoc (insert_at i e (live p.cur)) (live snx) (flat rest)
              ∙ ap (λ t. insert_at i e (live p.cur) ++ t) same_after);
      whole =
          let valid = addsn-AreValid p.cur snx e i full room at w.here v in
          record { left = w.left; here = valid.0; right = (valid.1, vs); counted = counted };
    }
      where
        out : Slab × Slab
        out = addsn p.cur snx e i

-- The end of a slab.
appended : (s : Slab) (e : Elem) → insert_at s.s_elems e (live s) ≡ live s ++ (e ∷ [])
appended s e =
    ap₂ (λ k t. insert_at k e t) (sym (length-slice s.s_arr 0 s.s_elems))
      (sym (append-nil (live s)))
    ∙ insert_at-append (live s) [] e

module _ (e : Elem) (p : Place) (w : IsWhole p) where
  module _ (spv : Slab) (rest : List Slab) (n : ℕ) (room : spv.s_elems < selem_max)
      (v : (spv.s_elems ≡ 0) ⊎ IsValid spv) (vs : All IsValid rest)
      (counted : n ≡ (suc (length rest) + suc (length p.after)) % 2 ^ 64)
      (same_before : rflat rest ++ live spv ≡ rflat p.before) where
    pub prev-Puts :
        (j : ℕ)
        → p.cur.s_elems ≡ selem_max
        → j < selem_max
        → Puts e (suc j) p (spill_prev e (suc j) (record p { sl_slabs = n; before = spv ∷ rest }))
    unfolding spill_prev
    prev-Puts j full at = record {
      put =
          regroup (rflat rest) (live out.0) (live out.1) (flat p.after)
          ∙ ap (λ t. rflat rest ++ (t ++ flat p.after)) (both-addsp spv p.cur e j full room at)
          ∙ sym (regroup (rflat rest) (live spv) (insert_at (suc j) e (live p.cur)) (flat p.after))
          ∙ ap (λ t. t ++ (insert_at (suc j) e (live p.cur) ++ flat p.after)) same_before;
      whole =
          let valid = addsp-AreValid spv p.cur e j full room at w.here v in
          record { left = (valid.0, vs); here = valid.1; right = w.right; counted = counted };
    }
      where
        out : Slab × Slab
        out = addsp spv p.cur e (suc j)

    -- At the end of the slab before, which is in front of this one.
    pub before-Puts :
        (i : ℕ)
        → i ≡ spv.s_elems
        → Puts e 0 p (add_before e i (record p { sl_slabs = n; before = spv ∷ rest }))
    unfolding add_before
    before-Puts i at = record {
      put =
          ap (λ t. (rflat rest ++ t) ++ (live p.cur ++ flat p.after))
            (live-add_elem spv e i room (omega arith)
              ∙ ap (λ k. insert_at k e (live spv)) at
              ∙ appended spv e)
          ∙ ap (λ t. t ++ (live p.cur ++ flat p.after))
              (sym (append_assoc (rflat rest) (live spv) (e ∷ [])))
          ∙ append_assoc (rflat rest ++ live spv) (e ∷ []) (live p.cur ++ flat p.after)
          ∙ ap (λ t. t ++ (e ∷ (live p.cur ++ flat p.after))) same_before;
      whole = record {
        left = (add_elem-IsValid spv e i room (omega arith) v, vs);
        here = w.here;
        right = w.right;
        counted = counted;
      };
    }

  -- At the start of the slab after, which is behind this one.
  pub after-Puts :
      (snx : Slab) (rest : List Slab) (n : ℕ)
      → snx.s_elems < selem_max
      → (snx.s_elems ≡ 0) ⊎ IsValid snx
      → All IsValid rest
      → n ≡ (length p.before + suc (suc (length rest))) % 2 ^ 64
      → live snx ++ flat rest ≡ flat p.after
      → Puts e p.cur.s_elems p (add_after e 0 (record p { sl_slabs = n; after = snx ∷ rest }))
  unfolding add_after
  after-Puts snx rest n room v vs counted same_after = record {
    put =
        ap (λ t. rflat p.before ++ (live p.cur ++ (t ++ flat rest)))
          (live-add_elem snx e 0 room (omega arith))
        ∙ ap (λ t. rflat p.before ++ t)
            (ap (λ t. live p.cur ++ (e ∷ t)) same_after
              ∙ sym (append_assoc (live p.cur) (e ∷ []) (flat p.after))
              ∙ ap (λ t. t ++ flat p.after) (sym (appended p.cur e)));
    whole = record {
      left = w.left;
      here = w.here;
      right = (add_elem-IsValid snx e 0 room (omega arith) v, vs);
      counted = counted;
    };
  }
