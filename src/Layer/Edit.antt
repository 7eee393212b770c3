-- ===== src/Layer/Edit.antt =====
-- The operations on one subslab and on two neighbours: add_slab, sub_addsn and sub_addsp of
-- src/slablist_add.c, remove_slab, sub_move_to_next and sub_move_to_prev of src/slablist_rem.c. What is
-- put in is a cell of any layer. The counts `ss_usr_elems` are those of the two subslabs; the walk of the
-- source goes on to those below them, until it meets a common one.
pub mod Refs
pub mod Moved
pub mod Keeps
use libslablist.Prelude.{
  ℕ, ◌+◌, ◌-◌, ◌%◌, ◌^◌, Bool, true, false, ◌&&◌, ◌||◌, if◌then◌else◌, ltb, leb, ◌==◌, write, bcopy,
  slice, add64, sub64,
}
use libslablist.Callbacks.{Elem, Callbacks, Sign, under, same, over}
use libslablist.Insert.{is_same}
use libslablist.Layer.{Subslab, Kind, subelem_max, subslab_bin_srch}
use libslablist.Layer.Layered.{total}

-- `uint16_t` sums and differences wrap.
abbrev pub add16 : ℕ → ℕ → ℕ
add16 a b = (a + b) % 2 ^ 16

abbrev pub sub16 : ℕ → ℕ → ℕ
sub16 a b = (a + 2 ^ 16 - b) % 2 ^ 16

-- SUBSLAB_FREE_SPACE
abbrev pub subslab_free_space : {A : Type 0} → Subslab A → ℕ
subslab_free_space s = subelem_max - s.ss_elems

module _ (cb : Callbacks) {A : Type 0} (k : Kind A) (sorting : Bool) where
  -- In a list that is used for sorting, whether the index is one too small: by how the ranges of the cell
  -- and of the one at the index overlap.
  unfoldable pub steps_over : A → A → Bool
  steps_over x si =
      let eq_max_ck_min_ck = is_same (cb.cmp (k.max_of x) (k.min_of x)) in
      let eq_min_ck_max_cmp = is_same (cb.cmp (k.min_of x) (k.max_of si)) in
      let eq_max_cmp_min_cmp = is_same (cb.cmp (k.max_of si) (k.min_of si)) in
      let beyond : Bool = elim (cb.bnd (k.max_of x) (k.min_of si) (k.max_of si)) [
        | over ↦ true
        | _ ↦ false
      ] in
      (eq_max_ck_min_ck && eq_min_ck_max_cmp && eq_max_cmp_min_cmp)
      || (eq_max_ck_min_ck && eq_min_ck_max_cmp)
      || (eq_min_ck_max_cmp && eq_max_cmp_min_cmp)
      || eq_min_ck_max_cmp
      || beyond

  unfoldable pub add_slab : Subslab A → A → ℕ → Subslab A
  unfolding steps_over
  add_slab s x i =
      let i' = if sorting && ltb i s.ss_elems && steps_over x (s.ss_arr i) then i + 1 else i in
      let arr = write (bcopy s.ss_arr i' s.ss_arr (i' + 1) (s.ss_elems - i')) i' x in
      let min = if i' == 0 then k.min_of x else s.ss_min in
      let max = if i' == s.ss_elems then k.max_of x else s.ss_max in
      if ltb s.ss_elems subelem_max
      then record s { ss_min = min; ss_max = max; ss_elems = add16 s.ss_elems 1; ss_arr = arr }
      else record s { ss_min = min; ss_max = k.max_of (arr (subelem_max - 1)); ss_arr = arr }

  -- Into a full subslab; its last cell goes to the next one. Both are returned, `s` first.
  unfoldable pub sub_addsn : Subslab A → Subslab A → A → Subslab A × Subslab A
  unfolding add_slab
  sub_addsn s snx x =
      let lst = s.ss_arr (s.ss_elems - 1) in
      let b4_lst = s.ss_arr (s.ss_elems - 2) in
      let diff = k.elems_of lst in
      let s' = record s { ss_max = k.max_of b4_lst; ss_elems = sub16 s.ss_elems 1 } in
      let at = subslab_bin_srch cb (k.max_of x) k sorting s' in
      let n = add_slab snx lst 0 in
      let m = add_slab s' x at in
      (
        record m { ss_usr_elems = sub64 m.ss_usr_elems diff },
        record n { ss_usr_elems = add64 n.ss_usr_elems diff },
      )

  -- The same towards the previous subslab, which is returned first.
  unfoldable pub sub_addsp : Subslab A → Subslab A → A → Subslab A × Subslab A
  unfolding add_slab
  sub_addsp spv s x =
      let fst = s.ss_arr 0 in
      let arr = bcopy s.ss_arr 1 s.ss_arr 0 (s.ss_elems - 1) in
      let diff = k.elems_of fst in
      let s' = record s {
        ss_min = k.min_of (arr 0);
        ss_elems = sub16 s.ss_elems 1;
        ss_arr = arr;
      } in
      let j = if spv.ss_elems == 0 then 0 else subslab_bin_srch cb (k.max_of fst) k sorting spv in
      let at = subslab_bin_srch cb (k.max_of x) k sorting s' in
      let n = add_slab spv fst j in
      let m = add_slab s' x at in
      (
        record n { ss_usr_elems = add64 n.ss_usr_elems diff },
        record m { ss_usr_elems = sub64 m.ss_usr_elems diff },
      )

module _ {A : Type 0} (k : Kind A) where
  unfoldable pub remove_slab : ℕ → Subslab A → Subslab A
  remove_slab i s =
      let arr =
        if i == s.ss_elems - 1
        then s.ss_arr
        else bcopy s.ss_arr (i + 1) s.ss_arr i (s.ss_elems - (i + 1)) in
      let n = sub16 s.ss_elems 1 in
      let min = if n == 0 then s.ss_min else if i == 0 then k.min_of (arr 0) else s.ss_min in
      let max = if n == 0 then s.ss_max else if i == n then k.max_of (arr (n - 1)) else s.ss_max in
      record s { ss_min = min; ss_max = max; ss_elems = n; ss_arr = arr }

  -- The last cells of `s` go to the front of `sn`, as many as fit. `s` comes first.
  unfoldable pub sub_move_to_next : Subslab A → Subslab A → Subslab A × Subslab A
  sub_move_to_next s sn =
      let free = subslab_free_space sn in
      let cpelems = if leb free s.ss_elems then free else s.ss_elems in
      let from = if leb free s.ss_elems then s.ss_elems - cpelems else 0 in
      let shifted = bcopy sn.ss_arr 0 sn.ss_arr cpelems sn.ss_elems in
      let sum = total k (slice s.ss_arr from cpelems) % 2 ^ 64 in
      let snarr = bcopy s.ss_arr from shifted 0 cpelems in
      let left = sub16 s.ss_elems cpelems in
      if s.ss_elems == 0 then (s, sn) else (
        record s {
          ss_elems = left;
          ss_usr_elems = sub64 s.ss_usr_elems sum;
          ss_max = if left == 0 then s.ss_max else k.max_of (s.ss_arr (left - 1));
        },
        record sn {
          ss_elems = add16 sn.ss_elems cpelems;
          ss_usr_elems = add64 sn.ss_usr_elems sum;
          ss_arr = snarr;
          ss_min = k.min_of (snarr 0);
        },
      )

  -- The first cells of `s` go to the end of `sp`, as many as fit. `sp` comes first; its maximum is set
  -- only where `s` keeps a cell.
  unfoldable pub sub_move_to_prev : Subslab A → Subslab A → Subslab A × Subslab A
  sub_move_to_prev sp s =
      let free = subslab_free_space sp in
      let cpelems = if leb free s.ss_elems then free else s.ss_elems in
      let sum = total k (slice s.ss_arr 0 cpelems) % 2 ^ 64 in
      let sparr = bcopy s.ss_arr 0 sp.ss_arr sp.ss_elems cpelems in
      let pn = add16 sp.ss_elems cpelems in
      let left = sub16 s.ss_elems cpelems in
      let sarr = bcopy s.ss_arr cpelems s.ss_arr 0 (s.ss_elems - cpelems) in
      if s.ss_elems == 0 then (sp, s) else (
        record sp {
          ss_elems = pn;
          ss_usr_elems = add64 sp.ss_usr_elems sum;
          ss_arr = sparr;
          ss_max = if left == 0 then sp.ss_max else k.max_of (sparr (pn - 1));
        },
        record s {
          ss_elems = left;
          ss_usr_elems = sub64 s.ss_usr_elems sum;
          ss_arr = sarr;
          ss_min = k.min_of (sarr 0);
        },
      )

  -- subslab_update_extrema.
  unfoldable pub subslab_update_extrema : Subslab A → Subslab A
  subslab_update_extrema p = if p.ss_elems == 0 then p else record p {
    ss_min = k.min_of (p.ss_arr 0);
    ss_max = k.max_of (p.ss_arr (p.ss_elems - 1));
  }
