-- ===== src/Layer/Layered.antt =====
-- When the layers of a list are well-formed, that attaching a sublayer keeps them so, and
-- the search of any such list.
use libslablist.Prelude.{
  ℕ, zero, suc, ◌+◌, ◌-◌, ◌≤◌, ◌<◌, ◌%◌, ◌^◌, ◌≡◌, refl, sym, ap, ap₂, subst, ◌∙◌, List, [], ◌∷◌,
  ◌++◌, map, map-append, append_assoc, append-nil, All, some, arith, slice, length, write, add64,
  dec_lt, false,
}
use libslablist.Sorted.Cells.{All-at}
use libslablist.Callbacks.{Elem, Callbacks, Ranked}
use libslablist.Slab.{Slab}
use libslablist.Chain.{at}
use libslablist.Scan.{find_linear_scan}
use libslablist.Layer.{Subslab, Cell, Kind, kind, refs, concat, tops, subelem_max, find_bubble_up}
use libslablist.Layer.Order.{IsIndex}
use libslablist.Layer.Bubble.{find_bubble_up-linear_scan}
use libslablist.Layer.Attach.{
  Layer, Layers, baselayer, toplayer, attach_loop, mk_base, attach_sublayer,
}

-- The elements of the user in a run of cells.
abbrev pub total : {A : Type 0} → Kind A → List A → ℕ
total k [] = 0
total k (c ∷ cs) = k.elems_of c + total k cs

-- A subslab counts the elements of the user that it leads up to, as far as 64 bits tell.
abbrev pub Counts : (n : ℕ) → Cell (suc n) → Type 0
Counts n s = s.ss_usr_elems ≡ total (kind n) (refs s) % 2 ^ 64

module _ (rank : ℕ → ℕ) where
  -- The ranges of a chain follow one another.
  abbrev pub Follows : {A : Type 0} → Kind A → List A → Type 0
  Follows k [] = Unit
  Follows k (x ∷ xs) = All (λ y. rank (k.max_of x) < rank (k.min_of y)) xs × Follows k xs

  pub record IsLayer (n : ℕ) (l : Layer (Cell n)) : Type 0 where
    pub counted : l.sl_slabs ≡ length l.sl_head
    pub used : 0 < l.sl_slabs
    pub index : All (IsIndex rank n) l.sl_head
    pub follows : Follows (kind n) l.sl_head

  -- Every layer is well-formed, and the subslabs of each sublayer lead up to exactly the chain above.
  abbrev pub IsLayered : (n : ℕ) → Layers n → Type 0
  IsLayered zero l = IsLayer zero l
  IsLayered (suc n) (l, above) =
      IsLayer (suc n) l
      × (concat (map refs l.sl_head) ≡ (baselayer n above).sl_head)
      × All (Counts n) l.sl_head
      × IsLayered n above

  pub base_IsLayer : (n : ℕ) (l : Layers n) → IsLayered n l → IsLayer n (baselayer n l)
  base_IsLayer zero l v = v
  base_IsLayer (suc n) (l, above) v = v.0

top_counted :
    (rank : ℕ → ℕ) (n : ℕ) (l : Layers n)
    → IsLayered rank n l
    → (toplayer n l).sl_slabs ≡ length (toplayer n l).sl_head
top_counted rank zero l v = v.counted
top_counted rank (suc n) (l, above) v = top_counted rank n above v.3

concat-append {ℓ} :
    {A : Type ℓ} (xs ys : List (List A)) → concat (xs ++ ys) ≡ concat xs ++ concat ys
concat-append [] ys = refl
concat-append (x ∷ xs) ys =
    ap (λ t. x ++ t) (concat-append xs ys) ∙ sym (append_assoc x (concat xs) (concat ys))

-- Two layers up at once.
tops-refs :
    (n : ℕ) (ss : List (Cell (suc n)))
    → concat (map (tops (suc n)) ss) ≡ concat (map (tops n) (concat (map refs ss)))
tops-refs n [] = refl
tops-refs n (s ∷ ss) =
    ap (λ t. tops (suc n) s ++ t) (tops-refs n ss)
    ∙ sym (
        ap concat (map-append (tops n) (refs s) (concat (map refs ss)))
        ∙ concat-append (map (tops n) (refs s)) (map (tops n) (concat (map refs ss))))

tops-zero : (ss : List Slab) → concat (map (tops zero) ss) ≡ ss
tops-zero [] = refl
tops-zero (s ∷ ss) = ap (λ t. s ∷ t) (tops-zero ss)

covers :
    (rank : ℕ → ℕ) (n : ℕ) (l : Layers n)
    → IsLayered rank n l
    → concat (map (tops n) (baselayer n l).sl_head) ≡ (toplayer n l).sl_head
covers rank zero l v = tops-zero l.sl_head
covers rank (suc n) (l, above) v =
    tops-refs n l.sl_head ∙ ap (λ t. concat (map (tops n) t)) v.1 ∙ covers rank n above v.3

-- The loop copies the chain into the array, and counts what it leads up to.
record Copies {A : Type 0} (k : Kind A) (n i : ℕ) (arr : ℕ → A) (usr : ℕ) (cs : List A)
    : Type 0 where
  arr' : ℕ → A
  usr' : ℕ
  is : attach_loop k n i arr usr cs ≡ some (arr', usr')
  copied : slice arr' i n ≡ cs
  kept : (j : ℕ) → j < i → arr' j ≡ arr j
  sum : usr' ≡ (usr + total k cs) % 2 ^ 64

attach_loop-Copies :
    {A : Type 0} (k : Kind A) (n i : ℕ) (arr : ℕ → A) (usr : ℕ) (cs : List A)
    → n ≡ length cs
    → usr < 2 ^ 64
    → Copies k n i arr usr cs
unfolding attach_loop
attach_loop-Copies k zero i arr usr [] h b = record {
  arr' = arr;
  usr' = usr;
  is = refl;
  copied = refl;
  kept = λ j p. refl;
  sum = omega arith;
}
attach_loop-Copies k zero i arr usr (c ∷ cs) h b = absurd (omega arith)
attach_loop-Copies k (suc n) i arr usr [] h b = absurd (omega arith)
attach_loop-Copies k (suc n) i arr usr (c ∷ cs) h b =
    let rest =
      attach_loop-Copies k n (i + 1) (write arr i c) (add64 usr (k.elems_of c)) cs (omega arith)
        (omega arith) in
    let e : suc i ≡ i + 1 = omega arith in
    record {
      arr' = rest.arr';
      usr' = rest.usr';
      is = rest.is;
      copied =
          ap₂ ◌∷◌ (ground (arith, rest.kept i (omega arith)))
            (ap (λ t. slice rest.arr' t n) e ∙ rest.copied);
      kept = λ j p. ground (arith, rest.kept j (omega arith));
      sum = omega (arith, rest.sum);
    }

module _ (rank : ℕ → ℕ) where
  -- What a run of cells of an array shares with the chain.
  Follows-at :
      {A : Type 0} (k : Kind A) (f : ℕ → A) (i n x y : ℕ)
      → Follows rank k (slice f i n)
      → i ≤ x
      → x < y
      → y < i + n
      → rank (k.max_of (f x)) < rank (k.min_of (f y))
  Follows-at k f i zero x y h p q l = absurd (omega arith)
  Follows-at k f i (suc n) x y h p q l = elim (dec_lt i x) [
    | yes m ↦ Follows-at k f (suc i) n x y h.1 (omega arith) q (omega arith)
    | no m ↦
        let e : x ≡ i = omega arith in
        rw e (
          All-at (λ c. rank (k.max_of (f i)) < rank (k.min_of c)) f (suc i) n y h.0 (omega arith)
            (omega arith))
  ]

  mk_base-IsIndex :
      (n : ℕ) (fresh : ℕ → Cell n) (l : Layer (Cell n))
      → IsLayer rank n l
      → length l.sl_head ≤ subelem_max
      → (s : Subslab (Cell n)) × (mk_base (kind n) fresh l ≡ some s)
        × IsIndex rank (suc n) s
        × (refs s ≡ l.sl_head)
        × Counts n s
  unfolding mk_base
  mk_base-IsIndex n fresh l v fits =
      let c = attach_loop-Copies (kind n) l.sl_slabs 0 fresh 0 l.sl_head v.counted (omega arith) in
      let follows : Follows rank (kind n) (slice c.arr' 0 l.sl_slabs) =
        subst (Follows rank (kind n)) (sym c.copied) v.follows in
      let index : All (IsIndex rank n) (slice c.arr' 0 l.sl_slabs) =
        subst (All (IsIndex rank n)) (sym c.copied) v.index in
      (
        record {
          ss_min = (kind n).min_of (c.arr' 0);
          ss_max = (kind n).max_of (c.arr' (l.sl_slabs - 1));
          ss_elems = l.sl_slabs;
          ss_usr_elems = c.usr';
          ss_arr = c.arr';
        },
        rw (c.is, mk_base) refl,
        record {
          used = v.used;
          fits = omega (arith, v.counted);
          min_first = refl;
          max_last = refl;
          each = λ i p.
              All-at (IsIndex rank n) c.arr' 0 l.sl_slabs i index (omega arith) (omega arith);
          rises = λ i j p q.
              Follows-at (kind n) c.arr' 0 l.sl_slabs i j follows (omega arith) p (omega arith);
        },
        c.copied,
        omega (arith, c.sum, ap (total (kind n)) c.copied),
      )

  -- attach_sublayer, on well-formed layers whose baselayer has at most SUBELEM_MAX cells, does not
  -- follow NULL, puts one subslab below that leads up to the whole baselayer, and gives well-
  -- formed layers over the same toplayer, whatever the memory of the new array holds.
  pub attach_sublayer-IsLayered :
      (n : ℕ) (fresh : ℕ → Cell n) (l : Layers n)
      → IsLayered rank n l
      → length (baselayer n l).sl_head ≤ subelem_max
      → (l' : Layers (suc n)) × (attach_sublayer n fresh l ≡ some l')
        × IsLayered rank (suc n) l'
        × ((baselayer (suc n) l').sl_slabs ≡ 1)
        × (toplayer (suc n) l' ≡ toplayer n l)
  unfolding attach_sublayer
  attach_sublayer-IsLayered n fresh l v fits =
      let b = mk_base-IsIndex n fresh (baselayer n l) (base_IsLayer rank n l v) fits in
      (
        (record { sl_slabs = 1; sl_elems = (baselayer n l).sl_slabs; sl_head = b.0 ∷ [] }, l),
        rw (b.1, attach_sublayer) refl,
        (
          record { counted = refl; used = omega arith; index = (b.2, tt); follows = (tt, tt) },
          append-nil (refs b.0) ∙ b.3,
          (b.4, tt),
          v,
        ),
        refl,
        refl,
      )

-- The search of a sorted list with sublayers, whatever their number: over well-formed layers, with
-- the baselayer and the toplayer given from their heads on, find_bubble_up returns the status and
-- the slab that find_linear_scan does from the head of the toplayer.
pub find_bubble_up_layered :
    {cb : Callbacks} (r : Ranked cb) (e : Elem) (n : ℕ) (l : Layers (suc n)) (s : Cell (suc n))
    (ss : List (Cell (suc n))) (t : Slab) (ts : List Slab)
    → IsLayered r.rank (suc n) l
    → (baselayer (suc n) l).sl_head ≡ s ∷ ss
    → (toplayer (suc n) l).sl_head ≡ t ∷ ts
    → find_bubble_up cb e false n (baselayer (suc n) l).sl_slabs s ss ≡ (
      (find_linear_scan cb e false (at (toplayer (suc n) l).sl_slabs [] t ts)).0,
      (find_linear_scan cb e false (at (toplayer (suc n) l).sl_slabs [] t ts)).1.cur,
    )
find_bubble_up_layered r e n l s ss t ts v base top =
    let whole = base_IsLayer r.rank (suc n) l v in
    let tops_counted = top_counted r.rank (suc n) l v in
    find_bubble_up-linear_scan r e n (baselayer (suc n) l).sl_slabs (toplayer (suc n) l).sl_slabs s
      ss t ts (whole.counted ∙ ap length base) (tops_counted ∙ ap length top)
      (subst (All (IsIndex r.rank (suc n))) base whole.index)
      (ap (λ x. concat (map (tops (suc n)) x)) (sym base) ∙ covers r.rank (suc n) l v ∙ top)
