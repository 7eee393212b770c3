-- ===== src/Slablist/Append.antt =====
-- slablist_add on an ordered list: the element goes behind the last one.
use libslablist.Prelude.{
  ℕ, ◌+◌, ◌-◌, ◌≤◌, ◌<◌, ◌^◌, ◌≡◌, refl, sym, subst, ap, ◌∙◌, inl, inr, List, [], ◌∷◌, ◌++◌, All,
  Bool, true, false, Option, some, append_assoc, append-nil, arith, length, length-append, ltb, leb,
  ◌==◌, add8, add64, write, slice, Bool-cases,
}
use libslablist.Callbacks.{Elem, Callbacks}
use libslablist.Slab.{Slab, live, mk_slab, selem_max}
use libslablist.Slab.Edit.{IsValid}
use libslablist.Chain.{flat}
use libslablist.Small.{Small, success, smelem_max, small_list_to_slab}
use libslablist.Small.Convert.{
  slice-write, small_list_add_end, live-small_list_to_slab, small_list_to_slab-IsValid,
}
use libslablist.Slablist.{
  Head, small, chain, Slablist, elems, slist_sorted, Added, add_end, slab_list_add,
  slablist_add_impl,
}
use libslablist.Slablist.Reaped.{reaped-Reaped}
use libslablist.Slablist.Shape.{IsList, Shape, length-flat}

-- The slabs with one more element at the end.
pub record Longer (e : Elem) (n : ℕ) (ss : List Slab) (res : Option (ℕ × List Slab)) : Type 0 where
  pub out : ℕ × List Slab
  pub is : res ≡ some out
  pub holds : flat out.1 ≡ flat ss ++ (e ∷ [])
  pub valid : All IsValid out.1
  pub counted : out.0 + length ss ≡ n + length out.1

abbrev last_with : Elem → Slab → Slab
last_with e s = record s {
  s_arr = write s.s_arr s.s_elems e;
  s_max = e;
  s_elems = add8 s.s_elems 1;
}

abbrev one_with : Elem → Slab
one_with e = record mk_slab { s_arr = write mk_slab.s_arr 0 e; s_min = e; s_max = e; s_elems = 1 }

live-last_with :
    (e : Elem) (s : Slab) → s.s_elems < selem_max → live (last_with e s) ≡ live s ++ (e ∷ [])
live-last_with e s h =
    let count : add8 s.s_elems 1 ≡ s.s_elems + 1 = omega arith in
    ap (slice (write s.s_arr s.s_elems e) 0) count ∙ slice-write s.s_arr s.s_elems e

last_with-IsValid :
    (e : Elem) (s : Slab) → IsValid s → s.s_elems < selem_max → IsValid (last_with e s)
last_with-IsValid e s v h = ground arith

one_with-IsValid : (e : Elem) → IsValid (one_with e)
one_with-IsValid e = ground arith

add_end-Longer :
    (e : Elem) (n : ℕ) (s : Slab) (ss : List Slab)
    → n + 1 < 2 ^ 64
    → All IsValid (s ∷ ss)
    → Longer e n (s ∷ ss) (add_end e n (s ∷ ss))
unfolding add_end
add_end-Longer e n s [] room v = elim (Bool-cases (ltb s.s_elems selem_max)) [
  | inl t ↦
      rw (t, add_end)
        (record {
          out = (n, last_with e s ∷ []);
          is = refl;
          holds =
              append-nil (live (last_with e s))
              ∙ live-last_with e s (ground arith)
              ∙ ap (λ xs. xs ++ (e ∷ [])) (sym (append-nil (live s)));
          valid = (last_with-IsValid e s v.0 (ground arith), tt);
          counted = omega arith;
        })
  | inr t ↦
      rw (t, add_end)
        (record {
          out = (add64 n 1, s ∷ (one_with e ∷ []));
          is = refl;
          holds = ap (λ xs. xs ++ (e ∷ [])) (sym (append-nil (live s)));
          valid = (v.0, (one_with-IsValid e, tt));
          counted = omega arith;
        })
]
add_end-Longer e n s (t ∷ r) room v =
    let rest = add_end-Longer e n t r room v.1 in
    rw rest.is (record {
      out = (rest.out.0, s ∷ rest.out.1);
      is = refl;
      holds =
          ap (λ xs. live s ++ xs) rest.holds ∙ sym (append_assoc (live s) (flat (t ∷ r)) (e ∷ []));
      valid = (v.0, rest.valid);
      counted = omega (arith, rest.counted);
    })

-- An addition that succeeds, to the end.
pub record Appends (e : Elem) (xs : List Elem) (res : Option Added) : Type 0 where
  pub out : Added
  pub is : res ≡ some out
  pub says : out.ret ≡ success
  pub holds : elems out.list.sl_head ≡ xs ++ (e ∷ [])
  pub sound : IsList out.list

module _ (cb : Callbacks) (enough : ℕ → ℕ → ℕ → Bool) (e : Elem) (rep : Bool) where
  length_end : (xs : List Elem) → length (xs ++ (e ∷ [])) ≡ length xs + 1
  length_end xs = length-append xs (e ∷ [])

  slabs_end :
      (sl : Slablist) (n : ℕ) (s : Slab) (ss : List Slab)
      → slist_sorted sl.sl_flags ≡ false
      → Shape (chain n (s ∷ ss))
      → sl.sl_elems ≡ length (flat (s ∷ ss))
      → sl.sl_elems + 1 < 2 ^ 64
      → Appends e (flat (s ∷ ss)) (slab_list_add cb enough e rep sl n (s ∷ ss))
  unfolding slab_list_add
  slabs_end sl n s ss ordered shape counted room =
      let few = length-flat (s ∷ ss) shape.2 in
      let long = add_end-Longer e n s ss (omega (arith, few, shape, counted)) shape.2 in
      let n' = long.out.0 in
      let ss' = long.out.1 in
      let all : length (flat ss') ≡ length (flat (s ∷ ss)) + 1 =
        ap length long.holds ∙ length_end (flat (s ∷ ss)) in
      let count : n' ≡ length ss' = omega (arith, long.counted, shape) in
      let k =
        reaped-Reaped enough sl n' ss' (flat (s ∷ ss) ++ (e ∷ [])) count long.valid long.holds
          (omega (arith, length_end (flat (s ∷ ss)), counted, room)) in
      rw (ordered, long.is)
        (rw k.is (record {
          out = record {
            ret = success;
            attaches = false;
            list = record sl { sl_head = k.head; sl_elems = add64 sl.sl_elems 1 };
          };
          is = refl;
          says = refl;
          holds = k.holds;
          sound = record {
            counted = omega (arith, ap length k.holds, length_end (flat (s ∷ ss)), counted, room);
            bounded = omega arith;
            shape = k.shape (omega (arith, length_end (flat (s ∷ ss)), shape));
          };
        }))

  by_head :
      (sl : Slablist) (h : Head)
      → IsList (record sl { sl_head = h })
      → slist_sorted sl.sl_flags ≡ false
      → sl.sl_elems + 1 < 2 ^ 64
      → Appends e (elems h) (slablist_add_impl cb enough e rep (record sl { sl_head = h }))
  unfolding slablist_add_impl
  by_head sl (chain n []) w ordered room = absurd (omega (arith, w.shape))
  by_head sl (chain n (s ∷ ss)) w ordered room =
      slabs_end (record sl { sl_head = chain n (s ∷ ss) }) n s ss ordered w.shape w.counted room
  by_head sl (small nodes) w ordered room = elim (Bool-cases (leb sl.sl_elems (smelem_max - 1))) [
    | inl t ↦
        let list : Small = record { nodes = nodes; sl_elems = sl.sl_elems } in
        rw (t, ordered)
          (rw (small_list_add_end cb e list) (record {
            out = record {
              ret = success;
              attaches = false;
              list = record sl {
                sl_head = small (nodes ++ (e ∷ []));
                sl_elems = add64 sl.sl_elems 1;
              };
            };
            is = refl;
            says = refl;
            holds = refl;
            sound = record {
              counted = omega (arith, length_end nodes, w.counted, room);
              bounded = omega arith;
              shape = ground (arith, length_end nodes, w.counted);
            };
          }))
    | inr t ↦
        let full : (sl.sl_elems == smelem_max) ≡ true = ground (arith, w) in
        let full_count : length nodes ≡ smelem_max = ground (arith, w) in
        let s = small_list_to_slab nodes in
        let fits : length nodes ≤ selem_max = omega (arith, full_count) in
        let same : flat (s ∷ []) ≡ nodes =
          append-nil (live s) ∙ live-small_list_to_slab nodes fits in
        rw (t, full)
          (subst
            (λ xs.
              Appends e xs
                (slab_list_add cb enough e rep (record sl { sl_head = small nodes }) 1 (s ∷ [])))
            same
            (slabs_end (record sl { sl_head = small nodes }) 1 s [] ordered
              (
                refl,
                omega arith,
                (small_list_to_slab-IsValid nodes (omega (arith, full_count)) fits, tt),
                omega (arith, full_count, ap length same),
              )
              (w.counted ∙ sym (ap length same)) room))
  ]

  -- On a well-formed ordered list whose count has room, slablist_add returns SL_SUCCESS and the
  -- elements are those of before with the new one at the end; the list is again well-formed,
  -- through the conversion to slabs, a new slab and a reap.
  pub slablist_add_impl-Appends :
      (sl : Slablist)
      → IsList sl
      → slist_sorted sl.sl_flags ≡ false
      → sl.sl_elems + 1 < 2 ^ 64
      → Appends e (elems sl.sl_head) (slablist_add_impl cb enough e rep sl)
  slablist_add_impl-Appends sl w ordered room = by_head sl sl.sl_head w ordered room
