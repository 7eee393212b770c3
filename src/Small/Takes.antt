-- ===== src/Small/Takes.antt =====
-- Removal from a small list, by key and by position, against the lookup of each.
use libslablist.Prelude.{
  ℕ, zero, suc, ◌≤◌, ◌<◌, ◌%◌, ◌≡◌, refl, sym, ap, ◌∙◌, subst, ◌==◌, if◌then◌else◌, inl, inr, List,
  [], ◌∷◌, Bool, true, false, Option, none, some, arith, length, remove_at, get_elem?, sub64,
}
use libslablist.Callbacks.{Elem, Callbacks, Sign-cases}
use libslablist.Sorted.{find, delete}
use libslablist.Small.{
  success, enfound, encirc, Small, SmallRem, rem_sorted, take_out, taken, small_list_rem,
}

-- An element taken out, or nothing.
abbrev with_rest : Option Elem → List Elem → Option (Elem × List Elem)
with_rest none rest = none
with_rest (some x) rest = some (x, rest)

abbrev keep : Elem → Option (Elem × List Elem) → Option (Elem × List Elem)
keep x o = elim o [ none ↦ none | some (y, ys) ↦ some (y, x ∷ ys) ]

keep-with_rest :
    (x : Elem) (o : Option Elem) (xs : List Elem) → keep x (with_rest o xs) ≡ with_rest o (x ∷ xs)
keep-with_rest x none xs = refl
keep-with_rest x (some y) xs = refl

abbrev keep_on : Elem → Option (Option (Elem × List Elem)) → Option (Option (Elem × List Elem))
keep_on x o = elim o [
  | none ↦ none
  | some none ↦ some none
  | some (some (y, ys)) ↦ some (some (y, x ∷ ys))
]

keep_on-with_rest :
    (x : Elem) (o : Option Elem) (xs : List Elem)
    → keep_on x (some (with_rest o xs)) ≡ some (with_rest o (x ∷ xs))
keep_on-with_rest x none xs = refl
keep_on-with_rest x (some y) xs = refl

-- In as many rounds as there are nodes the loop of a sorted removal takes out the element that a lookup finds.
pub rem_sorted-find :
    (cb : Callbacks) (e : Elem) (k : ℕ) (xs : List Elem)
    → k ≡ length xs
    → rem_sorted cb e k xs ≡ some (with_rest (find cb e xs) (delete cb e xs))
unfolding rem_sorted find delete
rem_sorted-find cb e zero [] count = refl
rem_sorted-find cb e zero (x ∷ xs) count = absurd (omega arith)
rem_sorted-find cb e (suc k) [] count = absurd (omega arith)
rem_sorted-find cb e (suc k) (x ∷ xs) count =
    let rest : keep_on x (rem_sorted cb e k xs)
        ≡ some (with_rest (find cb e xs) (x ∷ delete cb e xs)) =
      ap (keep_on x) (rem_sorted-find cb e k xs (omega arith))
      ∙ keep_on-with_rest x (find cb e xs) (delete cb e xs) in
    elim (Sign-cases (cb.cmp e x)) [
      | inl t ↦ rw (t, rem_sorted, find, delete) rest
      | inr (inl t) ↦ rw (t, rem_sorted, find, delete) refl
      | inr (inr t) ↦ rw (t, rem_sorted, find, delete) rest
    ]

-- The walk to a position takes out the element there.
pub take_out-get_elem? :
    (i : ℕ) (xs : List Elem) → take_out i xs ≡ with_rest (get_elem? xs i) (remove_at i xs)
unfolding take_out
take_out-get_elem? i [] = refl
take_out-get_elem? zero (x ∷ xs) = refl
take_out-get_elem? (suc i) (x ∷ xs) =
    ap (keep x) (take_out-get_elem? i xs) ∙ keep-with_rest x (get_elem? xs i) (remove_at i xs)

module _ (cb : Callbacks) (e : Elem) (pos : ℕ) (sl : Small) where
  -- What a removal does, by the element that it is to take.
  abbrev pub Removes : Option Elem → List Elem → Option SmallRem → Type 0
  Removes none rest res = res ≡ some (record { ret = enfound; rdl = some 0; list = sl })
  Removes (some x) rest res =
      res
      ≡ some (record {
        ret = success;
        rdl = some x;
        list = record { nodes = rest; sl_elems = sub64 sl.sl_elems 1 };
      })

  taken_or_none :
      (o : Option Elem) (rest : List Elem)
      → Removes o rest (elim (with_rest o rest) [
        | none ↦ some (record { ret = enfound; rdl = some 0; list = sl })
        | some t ↦ some (taken sl t)
      ])
  taken_or_none none rest = refl
  taken_or_none (some x) rest = refl

-- What the list becomes, whichever the element.
by_key :
    (cb : Callbacks) (circular : Bool) (e : Elem) (pos n : ℕ) (xs : List Elem)
    → 0 < length xs
    → n ≡ length xs
    → Removes cb e pos
        (record { nodes = xs; sl_elems = n })
        (find cb e xs)
        (delete cb e xs)
        (small_list_rem cb true circular e pos (record { nodes = xs; sl_elems = n }))
unfolding small_list_rem
by_key cb circular e pos n [] some_node count = absurd (omega arith)
by_key cb circular e pos n (x ∷ xs) some_node count =
    let used : (n == 0) ≡ false = ground arith in
    let sl : Small = record { nodes = x ∷ xs; sl_elems = n } in
    rw used (
      subst
        (λ t. Removes cb e pos sl (find cb e (x ∷ xs)) (delete cb e (x ∷ xs)) (elim t [
          | none ↦ none
          | some none ↦ some (record { ret = enfound; rdl = some 0; list = sl })
          | some (some t') ↦ some (taken sl t')
        ]))
        (sym (rem_sorted-find cb e n (x ∷ xs) count))
        (taken_or_none cb e pos sl (find cb e (x ∷ xs)) (delete cb e (x ∷ xs))))

-- small_list_rem on a sorted list that has a node and is counted takes out the element that a
-- lookup finds, stores it and counts down, or returns SL_ENFOUND, stores 0 and changes nothing.
pub small_list_rem-Removes :
    (cb : Callbacks) (circular : Bool) (e : Elem) (pos : ℕ) (sl : Small)
    → 0 < length sl.nodes
    → sl.sl_elems ≡ length sl.nodes
    → Removes cb e pos sl
        (find cb e sl.nodes)
        (delete cb e sl.nodes)
        (small_list_rem cb true circular e pos sl)
small_list_rem-Removes cb circular e pos sl = by_key cb circular e pos sl.sl_elems sl.nodes

-- The answer to a walk that took `t` out, or ran off the end.
abbrev pub answer : Small → Option (Elem × List Elem) → Option SmallRem
answer sl t = elim t [ none ↦ none | some t' ↦ some (taken sl t') ]

-- By position: what the list of `n` nodes becomes. Only past the count is the position refused or
-- taken round, so the position that is the count runs off the end.
abbrev pub TakesAt : Bool → ℕ → Small → Option SmallRem → Type 0
TakesAt circular pos sl res =
    (pos < length sl.nodes
      → res ≡ answer sl (with_rest (get_elem? sl.nodes pos) (remove_at pos sl.nodes)))
    × (pos ≡ length sl.nodes → res ≡ none)
    × (length sl.nodes < pos
        → res ≡ (
            if circular
            then answer sl (
                with_rest (get_elem? sl.nodes (pos % length sl.nodes))
                  (remove_at (pos % length sl.nodes) sl.nodes))
            else some (record { ret = encirc; rdl = none; list = sl })))

get_elem?_past : (xs : List Elem) (i : ℕ) → length xs ≤ i → get_elem? xs i ≡ none
get_elem?_past [] i h = refl
get_elem?_past (x ∷ xs) zero h = absurd (omega arith)
get_elem?_past (x ∷ xs) (suc i) h = get_elem?_past xs i (omega arith)

takes_at :
    (cb : Callbacks) (circular : Bool) (e : Elem) (pos n : ℕ) (xs : List Elem)
    → 0 < length xs
    → n ≡ length xs
    → TakesAt circular pos
        (record { nodes = xs; sl_elems = n })
        (small_list_rem cb false circular e pos (record { nodes = xs; sl_elems = n }))
unfolding small_list_rem
takes_at cb circular e pos n [] some_node count = absurd (omega arith)
takes_at cb circular e pos n (x ∷ xs) some_node count = (
  λ h. ground (arith, walk pos),
  λ h. ground (arith, walk pos, get_elem?_past (x ∷ xs) pos),
  λ h. ground (arith, walk (pos % n)),
)
  where
    sl : Small
    sl = record { nodes = x ∷ xs; sl_elems = n }

    walk :
        (i : ℕ)
        → answer sl (take_out i (x ∷ xs))
          ≡ answer sl (with_rest (get_elem? (x ∷ xs) i) (remove_at i (x ∷ xs)))
    walk i = ap (answer sl) (take_out-get_elem? i (x ∷ xs))

-- small_list_rem on an ordered list that has a node and is counted takes out the element at a
-- position below the count. At the count it runs off the list, since only a position past the
-- count is tested. Past the count it returns SL_ENCIRC, or takes the position round in a circular
-- list.
pub small_list_rem-TakesAt :
    (cb : Callbacks) (circular : Bool) (e : Elem) (pos : ℕ) (sl : Small)
    → 0 < length sl.nodes
    → sl.sl_elems ≡ length sl.nodes
    → TakesAt circular pos sl (small_list_rem cb false circular e pos sl)
small_list_rem-TakesAt cb circular e pos sl = takes_at cb circular e pos sl.sl_elems sl.nodes

-- In range the element is there.
get_in_range : (i : ℕ) (xs : List Elem) → i < length xs → (x : Elem) × (get_elem? xs i ≡ some x)
get_in_range i [] h = absurd (omega arith)
get_in_range zero (x ∷ xs) h = (x, refl)
get_in_range (suc i) (x ∷ xs) h = get_in_range i xs (omega arith)

pub small_list_rem_at :
    (cb : Callbacks) (circular : Bool) (e : Elem) (pos : ℕ) (sl : Small)
    → sl.sl_elems ≡ length sl.nodes
    → pos < length sl.nodes
    → (x : Elem) × (small_list_rem cb false circular e pos sl
        ≡ some (taken sl (x, remove_at pos sl.nodes)))
small_list_rem_at cb circular e pos sl counted h =
    let x = get_in_range pos sl.nodes h in
    (
      x.0,
      (small_list_rem-TakesAt cb circular e pos sl (omega arith) counted).0 h
          ∙ ap (λ o. answer sl (with_rest o (remove_at pos sl.nodes))) x.1,
    )
