-- ===== src/Examples/Lists.antt =====
-- The entry points on a list of two slabs and on a small list.
use libslablist.Prelude.{ℕ, ◌≡◌, refl, List, [], ◌∷◌, false, some, arith, get_elem?, remove_at}
use libslablist.Callbacks.{Elem}
use libslablist.Sorted.{find, delete}
use libslablist.Small.{success, small_list_add, add_sorted}
use libslablist.Slablist.{Slablist, small, Added, elems, slablist_add_impl}
use libslablist.Slablist.Shape.{IsList, IsSorted}
use libslablist.Slablist.Add.{slablist_add_impl-Outcome}
use libslablist.Slablist.Add.Slabs.{AddOutcome}
use libslablist.Slablist.Find.{Reports, slablist_find, slablist_find-Reports}
use libslablist.Slablist.Append.{Appends, slablist_add_impl-Appends}
use libslablist.Slablist.Get.{slablist_get, slablist_get-get_elem?}
use libslablist.Slablist.Trips.{
  held, slablist_find-slablist_add_impl, slablist_rem_impl-slablist_add_impl,
}
use libslablist.Slablist.Rem.{slablist_rem_impl}
use libslablist.Slablist.Rem.Effect.{Leaves, slablist_rem_impl-Leaves}
use libslablist.Slablist.Rem.Position.{slablist_rem_impl-remove_at}
use libslablist.Examples.{
  numbers, numbers_ranked, share, slab_list, slab_list-IsList, slab_list-IsSorted,
}

slablist_add_impl-Outcome_example :
    AddOutcome numbers_ranked share 7
      (find numbers 7 (elems (slab_list 128).sl_head))
      (elems (slab_list 128).sl_head)
      (slablist_add_impl numbers share 7 false (slab_list 128))
slablist_add_impl-Outcome_example =
    slablist_add_impl-Outcome numbers_ranked share 7 (slab_list 128) slab_list-IsSorted
      (omega arith)

slablist_find-Reports_example :
    Reports
      (find numbers 204 (elems (slab_list 128).sl_head))
      (slablist_find numbers 204 (slab_list 128))
slablist_find-Reports_example =
    slablist_find-Reports numbers_ranked 204 (slab_list 128) slab_list-IsSorted

slablist_rem_impl-Leaves_example :
    Leaves
      (IsSorted numbers_ranked)
      (delete numbers 4 (elems (slab_list 128).sl_head))
      (slablist_rem_impl numbers share 4 0 (slab_list 128))
unfolding find
slablist_rem_impl-Leaves_example =
    slablist_rem_impl-Leaves numbers_ranked share 4 4 (slab_list 128) 0 slab_list-IsSorted
      (λ full. absurd (omega arith)) refl

slablist_add_impl-Appends_example :
    Appends 5 (elems (slab_list 0).sl_head) (slablist_add_impl numbers share 5 false (slab_list 0))
slablist_add_impl-Appends_example =
    slablist_add_impl-Appends numbers share 5 false (slab_list 0) (slab_list-IsList 0) refl
      (omega arith)

slablist_rem_impl-remove_at_example :
    Leaves IsList
      (remove_at 70 (elems (slab_list 0).sl_head))
      (slablist_rem_impl numbers share 0 70 (slab_list 0))
slablist_rem_impl-remove_at_example =
    slablist_rem_impl-remove_at numbers share 0 (slab_list 0) 70 (slab_list-IsList 0)
      (λ full. absurd (omega arith)) refl (omega arith)

slablist_get-get_elem?_example :
    slablist_get 70 (slab_list 0) ≡ get_elem? (elems (slab_list 0).sl_head) 70
slablist_get-get_elem?_example =
    slablist_get-get_elem? (slab_list 0) 70 (slab_list-IsList 0) (omega arith)

-- 2, 5, 9 in a small list, and with 7.
abbrev with_nodes : List Elem → ℕ → Slablist
with_nodes nodes n = record (slab_list 128) { sl_elems = n; sl_head = small nodes }

abbrev three : Slablist
three = with_nodes (2 ∷ (5 ∷ (9 ∷ []))) 3

abbrev four : Added
four = record { ret = success; attaches = false; list = with_nodes (2 ∷ (5 ∷ (7 ∷ (9 ∷ [])))) 4 }

three-IsSorted : IsSorted numbers_ranked three
three-IsSorted = record {
  list = record { counted = refl; bounded = omega arith; shape = omega arith };
  sorted = refl;
  no_temp = refl;
  rises = ((omega arith, (omega arith, tt)), ((omega arith, tt), (tt, tt)));
}

seven_added : slablist_add_impl numbers share 7 false three ≡ some four
unfolding slablist_add_impl small_list_add add_sorted
seven_added = refl

slablist_find-slablist_add_impl_example :
    slablist_find numbers 7 four.list
    ≡ some (record { ret = success; found = some (held 7 (find numbers 7 (elems three.sl_head))) })
slablist_find-slablist_add_impl_example =
    slablist_find-slablist_add_impl numbers_ranked 7 share three three-IsSorted (omega arith) four
      seven_added refl

slablist_rem_impl-slablist_add_impl_example :
    Leaves
      (IsSorted numbers_ranked)
      (elems three.sl_head)
      (slablist_rem_impl numbers share 7 0 four.list)
unfolding find
slablist_rem_impl-slablist_add_impl_example =
    slablist_rem_impl-slablist_add_impl numbers_ranked 7 share three three-IsSorted (omega arith)
      four seven_added 0 refl refl (λ full. absurd (omega arith))
