-- ===== src/Examples/Layers.antt =====
-- Three slabs with two sublayers below them.
use libslablist.Prelude.{◌+◌, ◌*◌, ◌≡◌, refl, [], ◌∷◌, false, some, none, arith, insert_at}
use libslablist.Chain.{at}
use libslablist.Scan.{find_linear_scan}
use libslablist.Layer.{Cell, kind, refs, subslab_bin_srch, find_bubble_up}
use libslablist.Layer.Order.{IsIndex}
use libslablist.Layer.Attach.{Layers, baselayer, toplayer, attach_sublayer}
use libslablist.Layer.Layered.{IsLayered, attach_sublayer-IsLayered, find_bubble_up_layered}
use libslablist.Layer.Position.{layered_elem_pos, layered_elem_pos_faults}
use libslablist.Layer.Edit.{add_slab, sub_move_to_next}
use libslablist.Layer.Edit.Moved.{Moves, sub_move_to_next-Moves}
use libslablist.Layer.Edit.Keeps.{add_slab-IsIndex}
use libslablist.Examples.{numbers, numbers_ranked, ramp}

-- 0 and 2, 10 and 12, 20 and 22.
abbrev tops_layer : Layers 0
tops_layer = record {
  sl_slabs = 3;
  sl_elems = 6;
  sl_head = ramp 0 2 ∷ (ramp 10 2 ∷ (ramp 20 2 ∷ []));
}

tops_layer-IsLayered : IsLayered (λ x. x) 0 tops_layer
tops_layer-IsLayered = record {
  counted = refl;
  used = omega arith;
  index = omega arith;
  follows = omega arith;
}

abbrev first : Cell 1
first = record {
  ss_min = 0;
  ss_max = 22;
  ss_elems = 3;
  ss_usr_elems = 6;
  ss_arr = λ k. ramp (10 * k) 2;
}

first-IsIndex : IsIndex (λ x. x) 1 first
first-IsIndex = record {
  used = omega arith;
  fits = omega arith;
  min_first = refl;
  max_last = refl;
  each = λ i p. omega arith;
  rises = λ i j p q. omega arith;
}

abbrev second : Cell 2
second = record { ss_min = 0; ss_max = 22; ss_elems = 1; ss_usr_elems = 6; ss_arr = λ k. first }

second-IsIndex : IsIndex (λ x. x) 2 second
second-IsIndex = record {
  used = omega arith;
  fits = omega arith;
  min_first = refl;
  max_last = refl;
  each = λ i p. first-IsIndex;
  rises = λ i j p q. absurd (omega arith);
}

abbrev two_sublayers : Layers 2
two_sublayers = (
  record { sl_slabs = 1; sl_elems = 1; sl_head = second ∷ [] },
  (record { sl_slabs = 1; sl_elems = 3; sl_head = first ∷ [] }, tops_layer),
)

two_sublayers-IsLayered : IsLayered (λ x. x) 2 two_sublayers
two_sublayers-IsLayered = (
  record { counted = refl; used = omega arith; index = (second-IsIndex, tt); follows = (tt, tt) },
  refl,
  (refl, tt),
  (
    record { counted = refl; used = omega arith; index = (first-IsIndex, tt); follows = (tt, tt) },
    refl,
    (refl, tt),
    tops_layer-IsLayered,
  ),
)

find_bubble_up_layered_example : find_bubble_up numbers 12 false 1 1 second [] ≡ (
  (find_linear_scan numbers 12 false (at 3 [] (ramp 0 2) (ramp 10 2 ∷ (ramp 20 2 ∷ [])))).0,
  (find_linear_scan numbers 12 false (at 3 [] (ramp 0 2) (ramp 10 2 ∷ (ramp 20 2 ∷ [])))).1.cur,
)
find_bubble_up_layered_example =
    find_bubble_up_layered numbers_ranked 12 1 two_sublayers second [] (ramp 0 2)
      (ramp 10 2 ∷ (ramp 20 2 ∷ [])) two_sublayers-IsLayered refl refl

attach_sublayer-IsLayered_example :
    (l' : Layers 1) × (attach_sublayer 0 (λ k. ramp 0 1) tops_layer ≡ some l')
    × IsLayered (λ x. x) 1 l'
    × ((baselayer 1 l').sl_slabs ≡ 1)
    × (toplayer 1 l' ≡ tops_layer)
attach_sublayer-IsLayered_example =
    attach_sublayer-IsLayered (λ x. x) 0 (λ k. ramp 0 1) tops_layer tops_layer-IsLayered
      (omega arith)

layered_elem_pos_faults_example : layered_elem_pos 1 3 (second ∷ []) ≡ none
layered_elem_pos_faults_example =
    layered_elem_pos_faults 1 3 [] second (omega arith) (omega arith) (omega arith)

add_slab-IsIndex_example :
    IsIndex
      (λ x. x)
      1
      (add_slab numbers
        (kind 0)
        false
        first
        (ramp 4 2)
        (subslab_bin_srch numbers 6 (kind 0) false first))
    × (refs (
          add_slab numbers
            (kind 0)
            false
            first
            (ramp 4 2)
            (subslab_bin_srch numbers 6 (kind 0) false first))
        ≡ insert_at (subslab_bin_srch numbers 6 (kind 0) false first) (ramp 4 2) (refs first))
add_slab-IsIndex_example =
    add_slab-IsIndex numbers_ranked 0 first (ramp 4 2) first-IsIndex (omega arith) (omega arith)
      (λ j p. ground arith)

-- 30 and 32, 40 and 42.
abbrev next : Cell 1
next = record {
  ss_min = 30;
  ss_max = 42;
  ss_elems = 2;
  ss_usr_elems = 4;
  ss_arr = λ k. ramp (30 + 10 * k) 2;
}

sub_move_to_next-Moves_example : Moves (kind 0) first next (sub_move_to_next (kind 0) first next)
sub_move_to_next-Moves_example =
    sub_move_to_next-Moves (kind 0) first next (omega arith) (omega arith) (omega arith) refl refl
