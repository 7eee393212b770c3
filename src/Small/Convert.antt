-- ===== src/Small/Convert.antt =====
-- The conversions between a small list and its one slab: no element is lost and the order stays.
use libslablist.Prelude.{
  ℕ, zero, suc, ◌+◌, ◌≤◌, ◌<◌, ◌^◌, ◌≡◌, refl, sym, ap, subst, ◌∙◌, List, [], ◌∷◌, ◌++◌, true,
  false, add8, add64, Option, none, some, arith, All, All-map, length, length-append, slice,
  slice_ext, slice-cut, write, append-nil, append_assoc,
}
use libslablist.Callbacks.{Elem, Callbacks, Ranked}
use libslablist.Slab.{Slab, live, mk_slab, selem_max}
use libslablist.Slab.Edit.{IsValid}
use libslablist.Sorted.{
  insert, find, Ascends, Ascends-left, Ascends-between, Below, insert-append, find-Below,
  find-Above,
}
use libslablist.Small.{
  success, Small, SmallAdd, small_list_add, fill, small_list_to_slab, add_cells, slab_to_small_list,
}
use libslablist.Small.Nodes.{SmallOutcome, small_list_add-Outcome}

pub slice-write :
    (f : ℕ → Elem) (i : ℕ) (x : Elem) → slice (write f i x) 0 (i + 1) ≡ slice f 0 i ++ (x ∷ [])
slice-write f i x =
    slice-cut (write f i x) i 1 (i + 1) (omega arith)
    ∙ ap (λ t. t ++ (write f i x i ∷ [])) (slice_ext (write f i x) f 0 0 i (λ k p. ground arith))
    ∙ ap (λ t. slice f 0 i ++ (t ∷ [])) (ground arith)

-- A slab that takes the nodes from its `i`-th cell on.
fill-slice :
    (i : ℕ) (xs : List Elem) (s : Slab)
    → s.s_elems ≡ i
    → i + length xs ≤ selem_max
    → ((fill i xs s).s_elems ≡ i + length xs)
      × (slice (fill i xs s).s_arr 0 (i + length xs) ≡ slice s.s_arr 0 i ++ xs)
unfolding fill
fill-slice i [] s count room =
    (ground arith, ap (slice s.s_arr 0) (ground arith) ∙ sym (append-nil (slice s.s_arr 0 i)))
fill-slice i (x ∷ xs) s count room =
    let s' : Slab = record s { s_elems = add8 s.s_elems 1; s_arr = write s.s_arr i x } in
    let next : suc i + length xs ≡ i + length (x ∷ xs) = omega arith in
    let one_more : suc i ≡ i + 1 = omega arith in
    let rest = fill-slice (suc i) xs s' (ground arith) (ground arith) in
    (
      rest.0 ∙ next,
      ap (slice (fill (suc i) xs s').s_arr 0) (sym next)
          ∙ rest.1
          ∙ ap (λ t. slice (write s.s_arr i x) 0 t ++ xs) one_more
          ∙ ap (λ t. t ++ xs) (slice-write s.s_arr i x)
          ∙ append_assoc (slice s.s_arr 0 i) (x ∷ []) xs,
    )

-- The slab that small_list_to_slab makes of no more nodes than a slab has cells holds the elements
-- of the nodes, in their order.
pub live-small_list_to_slab :
    (xs : List Elem) → length xs ≤ selem_max → live (small_list_to_slab xs) ≡ xs
unfolding small_list_to_slab
live-small_list_to_slab xs room =
    let filled = fill-slice 0 xs mk_slab refl (omega arith) in
    let all : 0 + length xs ≡ length xs = omega arith in
    ap (slice (fill 0 xs mk_slab).s_arr 0) filled.0 ∙ filled.1

pub small_list_to_slab-IsValid :
    (xs : List Elem) → 0 < length xs → length xs ≤ selem_max → IsValid (small_list_to_slab xs)
unfolding small_list_to_slab
small_list_to_slab-IsValid xs used room =
    let filled = fill-slice 0 xs mk_slab refl (omega arith) in
    record {
      used = ground (arith, filled.0);
      fits = ground (arith, filled.0);
      min_first = refl;
      max_last = refl;
    }

-- A conversion to a small list that holds the elements and counts them.
pub record Converts (xs : List Elem) (res : Option Small) : Type 0 where
  pub out : Small
  pub is : res ≡ some out
  pub holds : out.nodes ≡ xs
  pub counted : out.sl_elems ≡ length out.nodes

all_done : (sl : Small) → sl.sl_elems ≡ length sl.nodes → Converts (sl.nodes ++ []) (some sl)
all_done sl count = record {
  out = sl;
  is = refl;
  holds = sym (append-nil sl.nodes);
  counted = count;
}

-- Elements that come in order are each put at the end.
module _ {cb : Callbacks} (r : Ranked cb) where
  open r use {rank}

  at_end : (e : Elem) (xs : List Elem) → Below rank e xs → insert cb e xs ≡ xs ++ (e ∷ [])
  at_end e xs low = ap (insert cb e) (sym (append-nil xs)) ∙ insert-append r e xs [] low tt

  absent : (e : Elem) (xs : List Elem) → Below rank e xs → find cb e xs ≡ none
  absent e xs low =
      ap (find cb e) (sym (append-nil xs)) ∙ find-Below r e xs [] low ∙ find-Above r e [] tt

  step :
      (e : Elem) (sl : Small)
      → Ascends rank sl.nodes
      → Below rank e sl.nodes
      → sl.sl_elems ≡ length sl.nodes
      → (a : SmallAdd) × (small_list_add cb true false e sl ≡ some a)
        × (a.list.nodes ≡ sl.nodes ++ (e ∷ []))
        × (a.list.sl_elems ≡ add64 sl.sl_elems 1)
  step e sl asc low count =
      let out = small_list_add-Outcome r e sl asc count in
      let new = subst (λ o. SmallOutcome r e o sl out.0) (absent e sl.nodes low) out.2 in
      (out.0, out.1, new.1 ∙ at_end e sl.nodes low, new.2)

  add_cells-slice :
      (n i : ℕ) (arr : ℕ → Elem) (sl : Small)
      → Ascends rank (sl.nodes ++ slice arr i n)
      → sl.sl_elems ≡ length sl.nodes
      → length sl.nodes + n < 2 ^ 64
      → Converts (sl.nodes ++ slice arr i n) (add_cells cb true n i arr sl)
  unfolding add_cells
  add_cells-slice zero i arr sl asc count fits = all_done sl count
  add_cells-slice (suc n) i arr sl asc count fits =
      let e = arr i in
      let later = slice arr (suc i) n in
      let low : Below rank e sl.nodes =
        All-map (λ x. All (λ y. rank x < rank y) (e ∷ later)) (λ x h. h.0) sl.nodes
          (Ascends-between rank sl.nodes (e ∷ later) asc) in
      let done = step e sl (Ascends-left rank sl.nodes (e ∷ later) asc) low count in
      let placed : done.0.list.nodes ++ later ≡ sl.nodes ++ (e ∷ later) =
        ap (λ t. t ++ later) done.2 ∙ append_assoc sl.nodes (e ∷ []) later in
      let longer : length done.0.list.nodes ≡ length sl.nodes + 1 =
        ap length done.2 ∙ length-append sl.nodes (e ∷ []) in
      rw (done.1, add_cells)
        (subst (λ xs. Converts xs (add_cells cb true n (suc i) arr done.0.list)) placed
          (add_cells-slice n (suc i) arr done.0.list (subst (Ascends rank) (sym placed) asc)
            (omega (arith, count, done.3, longer, fits)) (omega (arith, longer, fits))))

  -- slab_to_small_list on a slab of a sorted list whose elements rise gives a list with those
  -- elements, in their order, and with their count.
  pub slab_to_small_list-live :
      (h : Slab)
      → h.s_elems ≤ selem_max
      → Ascends rank (live h)
      → Converts (live h) (slab_to_small_list cb true h)
  unfolding slab_to_small_list
  slab_to_small_list-live h fits asc =
      add_cells-slice h.s_elems 0 h.s_arr (record { nodes = []; sl_elems = 0 }) asc refl
        (omega arith)

-- In an ordered list each element goes to the end.
module _ (cb : Callbacks) where
  pub small_list_add_end :
      (e : Elem) (sl : Small)
      → small_list_add cb false false e sl
        ≡ some (record {
          ret = success;
          repd = none;
          list = record { nodes = sl.nodes ++ (e ∷ []); sl_elems = add64 sl.sl_elems 1 };
        })
  unfolding small_list_add
  small_list_add_end e sl = end_of sl.nodes sl.sl_elems
    where
      end_of :
          (xs : List Elem) (n : ℕ)
          → small_list_add cb false false e (record { nodes = xs; sl_elems = n })
            ≡ some (record {
              ret = success;
              repd = none;
              list = record { nodes = xs ++ (e ∷ []); sl_elems = add64 n 1 };
            })
      end_of [] n = refl
      end_of (x ∷ xs) n = refl

  add_cells_end :
      (n i : ℕ) (arr : ℕ → Elem) (sl : Small)
      → sl.sl_elems ≡ length sl.nodes
      → length sl.nodes + n < 2 ^ 64
      → Converts (sl.nodes ++ slice arr i n) (add_cells cb false n i arr sl)
  unfolding add_cells
  add_cells_end zero i arr sl count fits = all_done sl count
  add_cells_end (suc n) i arr sl count fits =
      let sl' : Small = record {
        nodes = sl.nodes ++ (arr i ∷ []);
        sl_elems = add64 sl.sl_elems 1;
      } in
      let longer = length-append sl.nodes (arr i ∷ []) in
      rw (small_list_add_end (arr i) sl, add_cells)
        (subst (λ xs. Converts xs (add_cells cb false n (suc i) arr sl'))
          (append_assoc sl.nodes (arr i ∷ []) (slice arr (suc i) n))
          (add_cells_end n (suc i) arr sl' (omega (arith, count, longer, fits))
            (omega (arith, longer, fits))))

  pub slab_to_small_list_ordered :
      (h : Slab) → h.s_elems ≤ selem_max → Converts (live h) (slab_to_small_list cb false h)
  unfolding slab_to_small_list
  slab_to_small_list_ordered h fits =
      add_cells_end h.s_elems 0 h.s_arr (record { nodes = []; sl_elems = 0 }) refl (omega arith)
