-- ===== src/Layer/Edit/Moved.antt =====
-- `sub_move_to_next` and `sub_move_to_prev`: cells go over to a neighbour, none is lost, and the counts of
-- the user's elements go along.
use libslablist.Prelude.{
  ℕ, ◌+◌, ◌-◌, ◌%◌, ◌^◌, ◌≤◌, ◌<◌, ◌≡◌, refl, sym, ap, ap₂, ◌∙◌, List, [], ◌∷◌, ◌++◌, append_assoc,
  false, arith, leb, ◌==◌, if◌then◌else◌, bcopy, slice, slice_ext, slice-add, slice-cut, add64,
  sub64,
}
use libslablist.Layer.{Subslab, Kind, refs, subelem_max}
use libslablist.Layer.Layered.{total}
use libslablist.Layer.Edit.{add16, sub16, subslab_free_space, sub_move_to_next, sub_move_to_prev}
use libslablist.Layer.Edit.Refs.{both_refs}

module _ {A : Type 0} (k : Kind A) where
  total-append : (xs ys : List A) → total k (xs ++ ys) ≡ total k xs + total k ys
  total-append [] ys = omega arith
  total-append (x ∷ xs) ys = omega (arith, total-append xs ys)

  -- The count of the user's elements, as far as 64 bits tell.
  abbrev pub IsCounted : Subslab A → Type 0
  IsCounted s = s.ss_usr_elems ≡ total k (refs s) % 2 ^ 64

  pub record Moves (s t : Subslab A) (res : Subslab A × Subslab A) : Type 0 where
    pub kept : both_refs res ≡ refs s ++ refs t
    pub first : IsCounted res.0
    pub second : IsCounted res.1

-- The number of cells that move from a subslab with `n` to one that is `free`.
abbrev moved : ℕ → ℕ → ℕ
moved free n = if leb free n then free else n

module _ {A : Type 0} (k : Kind A) (s sn : Subslab A) (used : 0 < s.ss_elems)
    (fits : s.ss_elems ≤ subelem_max) (fits' : sn.ss_elems ≤ subelem_max) where
  abbrev cp : ℕ
  cp = moved (subslab_free_space sn) s.ss_elems

  abbrev stay : List A
  stay = slice s.ss_arr 0 (s.ss_elems - cp)

  abbrev go : List A
  go = slice s.ss_arr (s.ss_elems - cp) cp

  split_next : refs s ≡ stay ++ go
  split_next = slice-cut s.ss_arr (s.ss_elems - cp) cp s.ss_elems (ground arith)

  some_used : (s.ss_elems == 0) ≡ false
  some_used = ground arith

  from_next :
      (if leb (subslab_free_space sn) s.ss_elems then s.ss_elems - cp else 0) ≡ s.ss_elems - cp
  from_next = ground arith

  refs-stay : refs (sub_move_to_next k s sn).0 ≡ stay
  unfolding sub_move_to_next
  refs-stay =
      let count : sub16 s.ss_elems cp ≡ s.ss_elems - cp = ground arith in
      rw some_used (ap (slice s.ss_arr 0) count)

  next_arr : ℕ → A
  next_arr = bcopy s.ss_arr (s.ss_elems - cp) (bcopy sn.ss_arr 0 sn.ss_arr cp sn.ss_elems) 0 cp

  received : slice next_arr 0 (cp + sn.ss_elems) ≡ go ++ refs sn
  unfolding next_arr
  received =
      slice-add next_arr 0 cp sn.ss_elems
      ∙ ap₂ ◌++◌ (slice_ext next_arr s.ss_arr 0 (s.ss_elems - cp) cp (λ j p. ground arith))
          (slice_ext next_arr sn.ss_arr (0 + cp) 0 sn.ss_elems (λ j p. ground arith))

  refs_next : refs (sub_move_to_next k s sn).1 ≡ go ++ refs sn
  unfolding sub_move_to_next next_arr
  refs_next =
      let count : add16 sn.ss_elems cp ≡ cp + sn.ss_elems = ground arith in
      rw (some_used, from_next) (ap (slice next_arr 0) count ∙ received)

  usr_next :
      ((sub_move_to_next k s sn).0.ss_usr_elems ≡ sub64 s.ss_usr_elems (total k go % 2 ^ 64))
      × ((sub_move_to_next k s sn).1.ss_usr_elems ≡ add64 sn.ss_usr_elems (total k go % 2 ^ 64))
  unfolding sub_move_to_next
  usr_next = rw (some_used, from_next) (refl, refl)

  -- sub_move_to_next, from a subslab that holds a cell to the one after it, both within their
  -- arrays and with the right ss_usr_elems, keeps the cells of both together, in order, and each
  -- subslab counts the elements of the user that it then leads up to.
  pub sub_move_to_next-Moves :
      IsCounted k s → IsCounted k sn → Moves k s sn (sub_move_to_next k s sn)
  sub_move_to_next-Moves v w =
      let sum = ap (total k) split_next ∙ total-append k stay go in
      let sum' = ap (total k) refs_next ∙ total-append k go (refs sn) in
      record {
        kept =
            ap₂ ◌++◌ refs-stay refs_next
            ∙ sym (append_assoc stay go (refs sn))
            ∙ ap (λ t. t ++ refs sn) (sym split_next);
        first = omega (arith, usr_next.0, v, sum, ap (total k) refs-stay);
        second = omega (arith, usr_next.1, w, sum');
      }

module _ {A : Type 0} (k : Kind A) (sp s : Subslab A) (used : 0 < s.ss_elems)
    (fits : s.ss_elems ≤ subelem_max) (fits' : sp.ss_elems ≤ subelem_max) where
  abbrev taken : ℕ
  taken = moved (subslab_free_space sp) s.ss_elems

  abbrev front : List A
  front = slice s.ss_arr 0 taken

  abbrev rest : List A
  rest = slice s.ss_arr taken (s.ss_elems - taken)

  split_prev : refs s ≡ front ++ rest
  split_prev = slice-cut s.ss_arr taken (s.ss_elems - taken) s.ss_elems (ground arith)

  some_left : (s.ss_elems == 0) ≡ false
  some_left = ground arith

  prev_arr : ℕ → A
  prev_arr = bcopy s.ss_arr 0 sp.ss_arr sp.ss_elems taken

  refs_prev : refs (sub_move_to_prev k sp s).0 ≡ refs sp ++ front
  unfolding sub_move_to_prev prev_arr
  refs_prev =
      let count : add16 sp.ss_elems taken ≡ sp.ss_elems + taken = ground arith in
      rw some_left (
        ap (slice prev_arr 0) count
        ∙ slice-add prev_arr 0 sp.ss_elems taken
        ∙ ap₂ ◌++◌ (slice_ext prev_arr sp.ss_arr 0 0 sp.ss_elems (λ j p. ground arith))
            (slice_ext prev_arr s.ss_arr (0 + sp.ss_elems) 0 taken (λ j p. ground arith)))

  back_arr : ℕ → A
  back_arr = bcopy s.ss_arr taken s.ss_arr 0 (s.ss_elems - taken)

  refs-rest : refs (sub_move_to_prev k sp s).1 ≡ rest
  unfolding sub_move_to_prev back_arr
  refs-rest =
      let count : sub16 s.ss_elems taken ≡ s.ss_elems - taken = ground arith in
      rw some_left (
        ap (slice back_arr 0) count
        ∙ slice_ext back_arr s.ss_arr 0 taken (s.ss_elems - taken) (λ j p. ground arith))

  usr_prev :
      ((sub_move_to_prev k sp s).0.ss_usr_elems ≡ add64 sp.ss_usr_elems (total k front % 2 ^ 64))
      × ((sub_move_to_prev k sp s).1.ss_usr_elems ≡ sub64 s.ss_usr_elems (total k front % 2 ^ 64))
  unfolding sub_move_to_prev
  usr_prev = rw some_left (refl, refl)

  -- sub_move_to_prev, from a subslab that holds a cell to the one before it, keeps the cells of both
  -- together, in order, and each subslab counts the elements of the user that it then leads up to.
  pub sub_move_to_prev-Moves :
      IsCounted k sp → IsCounted k s → Moves k sp s (sub_move_to_prev k sp s)
  sub_move_to_prev-Moves v w =
      let sum = ap (total k) split_prev ∙ total-append k front rest in
      let sum' = ap (total k) refs_prev ∙ total-append k (refs sp) front in
      record {
        kept =
            ap₂ ◌++◌ refs_prev refs-rest
            ∙ append_assoc (refs sp) front rest
            ∙ ap (λ t. refs sp ++ t) (sym split_prev);
        first = omega (arith, usr_prev.0, v, sum');
        second = omega (arith, usr_prev.1, w, sum, ap (total k) refs-rest);
      }
