-- ===== src/Slablist/Get.antt =====
-- Access by position: slab_get_elem_pos without sublayers, sml_node_get, slablist_get, slablist_head
-- and slablist_end (src/slablist_find.c). `none` is NULL, which every caller follows, or a fault.
use libslablist.Prelude.{
  ℕ, zero, suc, ◌+◌, ◌-◌, ◌≤◌, ◌<◌, ◌%◌, ◌^◌, ◌≡◌, refl, sym, ap, ◌∙◌, inl, inr, List, [], ◌∷◌,
  ◌++◌, All, Bool, false, Option, none, some, append_assoc, arith, length, length-append,
  length-slice, get_elem?, get_elem?-append, ltb, ◌==◌, if◌then◌else◌, add64, sub64, Bool-cases,
}
use libslablist.Callbacks.{Elem}
use libslablist.Slab.{Slab, live}
use libslablist.Slab.Edit.{IsValid}
use libslablist.Chain.{Place, at, flat, rflat, contents}
use libslablist.Chain.Contents.{cut_at, ahead, behind, length-ahead}
use libslablist.Slablist.{Head, small, chain, Slablist, elems, slist_is_circular}
use libslablist.Slablist.Shape.{IsList}

-- `while (i < sl->sl_slabs)`, with `sum_usr_elems`; the place found and `off_pos`. After the last
-- round the source goes on to `sl_baselayer`, which is NULL.
pub pos_loop : ℕ → ℕ → ℕ → ℕ → List Slab → List Slab → Option (Place × ℕ)
pos_loop zero n sum pos b ss = none
pos_loop (suc k) n sum pos b [] = none
pos_loop (suc k) n sum pos b (s ∷ ss) =
    let sum' = add64 sum s.s_elems in
    let rest = pos_loop k n sum' pos (s ∷ b) ss in
    if ltb pos sum' then some (at n b s ss, sub64 pos (sub64 sum' s.s_elems)) else rest

-- From `act_pos` on.
unfoldable pub slab_at : ℕ → ℕ → List Slab → Option (Place × ℕ)
unfolding pos_loop
slab_at pos n [] = none
slab_at pos n (s ∷ ss) = if pos == 0 then some (at n [] s ss, 0) else pos_loop n n 0 pos [] (s ∷ ss)

unfoldable pub slab_get_elem_pos : Bool → ℕ → ℕ → ℕ → List Slab → Option (Place × ℕ)
slab_get_elem_pos circular sl_elems pos n ss =
    if ltb sl_elems pos
    then (if circular then slab_at (pos % sl_elems) n ss else none)
    else slab_at pos n ss

unfoldable pub sml_node_get : Bool → ℕ → ℕ → List Elem → Option Elem
sml_node_get circular sl_elems pos nodes =
    if sl_elems == 0
    then none
    else if ltb sl_elems pos
    then (if circular then get_elem? nodes (pos % sl_elems) else none)
    else get_elem? nodes pos

unfoldable pub slablist_get : ℕ → Slablist → Option Elem
slablist_get pos sl =
    let circular = slist_is_circular sl.sl_flags in
    elim sl.sl_head [
      | small nodes ↦ sml_node_get circular sl.sl_elems pos nodes
      | chain n ss ↦ elim (slab_get_elem_pos circular sl.sl_elems pos n ss) [
        | none ↦ none
        | some (p, off) ↦ some (p.cur.s_arr off)
      ]
    ]

-- The place of a position: the chain is the same and the offset leads to the element.
pub record IsAt (ss : List Slab) (pos : ℕ) (p : Place) (off : ℕ) : Type 0 where
  pub kept : contents p ≡ flat ss
  pub left : All IsValid p.before
  pub here : IsValid p.cur
  pub right : All IsValid p.after
  pub counted : suc (length p.before + length p.after) ≡ length ss
  pub inside : off < p.cur.s_elems
  pub offset : length (rflat p.before) + off ≡ pos

pub record Leads (ss : List Slab) (pos n : ℕ) (res : Option (Place × ℕ)) : Type 0 where
  pub place : Place
  pub off : ℕ
  pub is : res ≡ some (place, off)
  pub same_count : place.sl_slabs ≡ n
  pub there : IsAt ss pos place off

pos_loop-Leads :
    (k n sum pos : ℕ) (b : List Slab) (ss : List Slab)
    → length ss ≤ k
    → sum ≡ length (rflat b)
    → sum ≤ pos
    → pos < sum + length (flat ss)
    → sum + length (flat ss) < 2 ^ 64
    → All IsValid b
    → All IsValid ss
    → (whole : List Slab) → rflat b ++ flat ss ≡ flat whole
    → length b + length ss ≡ length whole
    → Leads whole pos n (pos_loop k n sum pos b ss)
unfolding pos_loop
pos_loop-Leads zero n sum pos b [] h0 h1 h2 h3 h4 vb v whole e c = absurd (omega arith)
pos_loop-Leads zero n sum pos b (s ∷ ss) h0 h1 h2 h3 h4 vb v whole e c = absurd (omega arith)
pos_loop-Leads (suc k) n sum pos b [] h0 h1 h2 h3 h4 vb v whole e c = absurd (omega arith)
pos_loop-Leads (suc k) n sum pos b (s ∷ ss) h0 h1 h2 h3 h4 vb v whole e c =
    let count : length (flat (s ∷ ss)) ≡ s.s_elems + length (flat ss) =
      omega (arith, length-append (live s) (flat ss), length-slice s.s_arr 0 s.s_elems) in
    let next : add64 sum s.s_elems ≡ sum + s.s_elems = omega (arith, count, h4) in
    elim (Bool-cases (ltb pos (add64 sum s.s_elems))) [
      | inl t ↦ rw t (
          let off : ℕ = sub64 pos (sub64 (add64 sum s.s_elems) s.s_elems) in
          let off_from : off ≡ pos - sum = omega (arith, next, count, h4, h3) in
          let inside : pos < sum + s.s_elems = ground (arith, next) in
          record {
            place = at n b s ss;
            off = off;
            is = refl;
            same_count = refl;
            there = record {
              kept = e;
              left = vb;
              here = v.0;
              right = v.1;
              counted = omega (arith, c);
              inside = omega (arith, off_from, inside, h2);
              offset = omega (arith, off_from, h1, h2);
            };
          })
      | inr t ↦ rw t (
          pos_loop-Leads k n (add64 sum s.s_elems) pos (s ∷ b) ss (omega arith)
            (omega
              (arith, next, h1, length-append (rflat b) (live s), length-slice s.s_arr 0 s.s_elems))
            (ground arith) (omega (arith, next, count, h3)) (omega (arith, next, count, h4))
            (v.0, vb) v.1 whole (append_assoc (rflat b) (live s) (flat ss) ∙ e) (omega arith))
    ]

slab_at-Leads :
    (pos n : ℕ) (ss : List Slab)
    → n ≡ length ss
    → pos < length (flat ss)
    → length (flat ss) < 2 ^ 64
    → All IsValid ss
    → Leads ss pos n (slab_at pos n ss)
unfolding slab_at
slab_at-Leads pos n [] count h bound v = absurd (omega arith)
slab_at-Leads pos n (s ∷ ss) count h bound v = elim (Bool-cases (pos == 0)) [
  | inl t ↦ rw t (record {
    place = at n [] s ss;
    off = 0;
    is = refl;
    same_count = refl;
    there = record {
      kept = refl;
      left = tt;
      here = v.0;
      right = v.1;
      counted = omega arith;
      inside = v.0.used;
      offset = ground arith;
    };
  })
  | inr t ↦ rw t (
      pos_loop-Leads n n 0 pos [] (s ∷ ss) (omega arith) refl (omega arith) (omega arith)
        (omega arith) tt v (s ∷ ss) refl (omega arith))
]

-- Every position that is in the list has its place, with no regard to the circular flag.
pub slab_get_elem_pos-Leads :
    (circular : Bool) (elems pos n : ℕ) (ss : List Slab)
    → n ≡ length ss
    → elems ≡ length (flat ss)
    → pos < elems
    → elems < 2 ^ 64
    → All IsValid ss
    → Leads ss pos n (slab_get_elem_pos circular elems pos n ss)
unfolding slab_get_elem_pos
slab_get_elem_pos-Leads circular elems pos n ss count many h bound v =
    let in_range : ltb elems pos ≡ false = ground arith in
    rw in_range (slab_at-Leads pos n ss count (omega arith) (omega arith) v)

-- The cell at a place is the element at the position.
pub get-IsAt :
    (ss : List Slab) (pos off : ℕ) (p : Place)
    → IsAt ss pos p off
    → get_elem? (flat ss) pos ≡ some (p.cur.s_arr off)
get-IsAt ss pos off p a =
    ap (λ xs. get_elem? xs pos) (sym a.kept ∙ cut_at p off a.inside)
    ∙ ap (get_elem? (ahead p off ++ (p.cur.s_arr off ∷ behind p off)))
        (sym (length-ahead p off ∙ a.offset))
    ∙ get_elem?-append (ahead p off) (behind p off) (p.cur.s_arr off)

by_head :
    (sl : Slablist) (h : Head) (pos : ℕ)
    → IsList (record sl { sl_head = h })
    → pos < sl.sl_elems
    → slablist_get pos (record sl { sl_head = h }) ≡ get_elem? (elems h) pos
unfolding slablist_get sml_node_get
by_head sl (small nodes) pos w h = ground arith
by_head sl (chain n ss) pos w h =
    let leads =
      slab_get_elem_pos-Leads (slist_is_circular sl.sl_flags) sl.sl_elems pos n ss w.shape.0
        w.counted h w.bounded w.shape.2 in
    rw (leads.is, slablist_get) (sym (get-IsAt ss pos leads.off leads.place leads.there))

-- On a well-formed list of either kind and for a position below its count, slablist_get returns
-- the element at that position.
pub slablist_get-get_elem? :
    (sl : Slablist) (pos : ℕ)
    → IsList sl
    → pos < sl.sl_elems
    → slablist_get pos sl ≡ get_elem? (elems sl.sl_head) pos
slablist_get-get_elem? sl pos w h = by_head sl sl.sl_head pos w h
