-- ===== src/Slablist/Add/Slabs.antt =====
-- The branch of slablist_add for a sorted list of slabs, with the reap at its end.
use libslablist.Prelude.{
  ℕ, suc, ◌+◌, ◌≤◌, ◌<◌, ◌^◌, ◌≡◌, ◌≢◌, refl, sym, subst, ap, ◌∙◌, List, [], ◌∷◌, All, Bool, true,
  false, Option, none, some, arith, length, ◌==◌, leb, add64, not, ◌&&◌,
}
use libslablist.Callbacks.{Elem, Callbacks, Ranked, Sign}
use libslablist.Slab.{Slab}
use libslablist.Slab.Edit.{IsValid}
use libslablist.Sorted.{insert, find, Ascends, insert-Ascends, find-Lacks}
use libslablist.Chain.{Place, at, flat, contents, slabs, IsWhole}
use libslablist.Chain.Contents.{flat-slabs, All-rewind, length-rewind}
use libslablist.Scan.{status, find_linear_scan}
use libslablist.Scan.Found.{IsFound}
use libslablist.Insert
use libslablist.Insert.{slab_gen_add}
use libslablist.Insert.Total.{Stops}
use libslablist.Insert.Outcome.{Outcome, slab_gen_add-Outcome}
use libslablist.Small.{smelem_max, Status, success, edup}
use libslablist.Slablist.{
  Head, chain, Slablist, elems, slist_sorted, slist_is_sorting_temp, Added, told, add_found, reaped,
  slab_list_add,
}
use libslablist.Slablist.Reaped.{Reaped, reaped-Reaped}
use libslablist.Slablist.Shape.{Shape, IsSorted, length-flat, found_at, stops_at}

told-new :
    (how : Insert.How) (attaches : Bool) (sl : Slablist) (head : Head)
    → how ≢ Insert.edup
    → told how attaches sl head ≡ record {
      ret = success;
      attaches = attaches;
      list = record sl { sl_head = head; sl_elems = add64 sl.sl_elems 1 };
    }
told-new Insert.into a sl head h = refl
told-new Insert.sp_nx a sl head h = refl
told-new Insert.sp_pv a sl head h = refl
told-new Insert.before_it a sl head h = refl
told-new Insert.after_it a sl head h = refl
told-new Insert.edup a sl head h = absurd (h refl)

told-old :
    (how : Insert.How) (attaches : Bool) (sl : Slablist) (head : Head)
    → how ≡ Insert.edup
    → told how attaches sl head
      ≡ record { ret = edup; attaches = attaches; list = record sl { sl_head = head } }
told-old how a sl head h = ap (λ k. told k a sl head) h

pub length-insert :
    (cb : Callbacks) (e : Elem) (xs : List Elem) → length (insert cb e xs) ≡ suc (length xs)
unfolding insert
length-insert cb e [] = refl
length-insert cb e (x ∷ xs) = ground (arith, length-insert cb e xs)

-- The slabs of a list that was searched, after reaping.
module _ (enough : ℕ → ℕ → ℕ → Bool) (sl : Slablist) (q : Place) (w : IsWhole q) (xs : List Elem)
    (same : contents q ≡ xs) (room : length xs < 2 ^ 64) where
  All-IsValid : All IsValid (slabs q)
  All-IsValid = All-rewind q.before (q.cur ∷ q.after) w.left (w.here, w.right)

  count : q.sl_slabs ≡ length (slabs q)
  count = omega (
    arith,
    w.counted,
    length-rewind q.before (q.cur ∷ q.after),
    length-flat (slabs q) All-IsValid,
    ap length (flat-slabs q),
    ap length same,
  )

  reap : Reaped xs (reaped enough sl q.sl_slabs (slabs q))
  reap =
      reaped-Reaped enough sl q.sl_slabs (slabs q) xs count All-IsValid (flat-slabs q ∙ same) room

-- What an addition does, by the element that the list holds under the key.
pub record Does {cb : Callbacks} (r : Ranked cb) (ret : Status) (xs : List Elem)
    (res : Option Added) : Type 0 where
  pub out : Added
  pub is : res ≡ some out
  pub says : out.ret ≡ ret
  pub holds : elems out.list.sl_head ≡ xs
  pub sorted : IsSorted r out.list

module _ {cb : Callbacks} (r : Ranked cb) (enough : ℕ → ℕ → ℕ → Bool) (e : Elem) where
  open r use {rank}

  abbrev pub AddOutcome : Option Elem → List Elem → Option Added → Type 0
  AddOutcome none xs res = Does r success (insert cb e xs) res
  AddOutcome (some _) xs res = Does r edup xs res

  module _ (sl : Slablist) (n : ℕ) (s : Slab) (ss : List Slab)
      (sorted : slist_sorted sl.sl_flags ≡ true)
      (no_temp : slist_is_sorting_temp sl.sl_flags ≡ false) (shape : Shape (chain n (s ∷ ss)))
      (asc : Ascends rank (flat (s ∷ ss))) (counted : sl.sl_elems ≡ length (flat (s ∷ ss)))
      (room : sl.sl_elems + 1 < 2 ^ 64) where
    abbrev start : Place
    start = at n [] s ss

    abbrev p : Place
    p = (find_linear_scan cb e false start).1

    found : IsFound r e start (find_linear_scan cb e false start)
    found = found_at r e n sl.sl_elems s ss shape asc counted (omega (arith, room))

    stops : Stops r e p
    stops = stops_at r e n s ss asc found

    abbrev out : Insert.AddCtx × Place
    out = slab_gen_add cb false e false (status cb e p.cur) p

    abbrev attaches : Bool
    attaches = not (sl.sl_req_sublayer == 0) && leb sl.sl_req_sublayer out.1.sl_slabs

    abbrev kept : Option Head
    kept = reaped enough sl out.1.sl_slabs (slabs out.1)

    abbrev finish : Option Head → Option Added
    finish o = elim o [ none ↦ none | some head ↦ some (told out.0.ac_how attaches sl head) ]

    abbrev ends_with : Bool → Sign → Option Added
    ends_with sorting fs =
        let (c, q) = slab_gen_add cb sorting e false fs p in
        elim (reaped enough sl q.sl_slabs (slabs q)) [
          | none ↦ none
          | some head ↦ some (
              told c.ac_how (not (sl.sl_req_sublayer == 0) && leb sl.sl_req_sublayer q.sl_slabs) sl
                head)
        ]

    at_place :
        (fs : Sign) → fs ≡ status cb e p.cur → add_found cb enough e false sl (fs, p) ≡ finish kept
    unfolding add_found
    at_place fs h = ap (λ t. ends_with t fs) no_temp ∙ ap (ends_with false) h

    searched :
        slab_list_add cb enough e false sl n (s ∷ ss)
        ≡ add_found cb enough e false sl (find_linear_scan cb e false start)
    unfolding slab_list_add
    searched = rw (sorted, no_temp) refl

    is_added : slab_list_add cb enough e false sl n (s ∷ ss) ≡ finish kept
    is_added = searched ∙ at_place (find_linear_scan cb e false start).0 found.stat

    abbrev xs : List Elem
    xs = flat (s ∷ ss)

    -- The list with the chain that was left, whose elements are `ys`.
    grown :
        (m : ℕ) (ys : List Elem) (k : Reaped ys kept)
        → m ≡ length ys
        → m < 2 ^ 64
        → smelem_max ≤ m
        → Ascends rank ys
        → IsSorted r (record sl { sl_elems = m; sl_head = k.head })
    grown m ys k many fits used rises = record {
      list = record {
        counted = many ∙ sym (ap length k.holds);
        bounded = fits;
        shape = k.shape (omega (arith, many, used));
      };
      sorted = sorted;
      no_temp = no_temp;
      rises = subst (Ascends rank) (sym k.holds) rises;
    }

    outcome :
        (o : Option Elem)
        → find cb e xs ≡ o
        → Outcome r e p stops o out
        → AddOutcome o xs (slab_list_add cb enough e false sl n (s ∷ ss))
    outcome none new (adds, counts) =
        let ys = insert cb e xs in
        let more = length-insert cb e xs in
        let k =
          reap enough sl out.1 adds.whole ys (adds.sorted ∙ ap (insert cb e) found.kept)
            (omega (arith, more, counted, room)) in
        record {
          out = record {
            ret = success;
            attaches = attaches;
            list = record sl { sl_head = k.head; sl_elems = add64 sl.sl_elems 1 };
          };
          is =
              is_added ∙ ap finish k.is ∙ ap some (told-new out.0.ac_how attaches sl k.head counts);
          says = refl;
          holds = k.holds;
          sorted =
              grown (add64 sl.sl_elems 1) ys k (omega (arith, more, counted, room)) (omega arith)
                (omega (arith, shape, counted, room))
                (insert-Ascends r e xs asc (find-Lacks r e xs new));
        }
    outcome (some x) old (refused, same_place) =
        let k =
          reap enough sl out.1 (subst IsWhole (sym same_place) found.whole) xs
            (ap contents same_place ∙ found.kept) (omega (arith, counted, room)) in
        record {
          out = record { ret = edup; attaches = attaches; list = record sl { sl_head = k.head } };
          is =
              is_added
              ∙ ap finish k.is
              ∙ ap some (told-old out.0.ac_how attaches sl k.head (ap (λ c. c.ac_how) refused));
          says = refl;
          holds = k.holds;
          sorted =
              grown sl.sl_elems xs k counted (omega (arith, room))
                (omega (arith, counted, shape, length-flat (s ∷ ss) shape.2)) asc;
        }

    pub slab_list_add-Outcome :
        AddOutcome (find cb e xs) xs (slab_list_add cb enough e false sl n (s ∷ ss))
    slab_list_add-Outcome = outcome (find cb e xs) refl (
        subst (λ ys. Outcome r e p stops (find cb e ys) out) found.kept
          (slab_gen_add-Outcome r e p stops))
