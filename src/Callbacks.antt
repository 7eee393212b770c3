-- ===== src/Callbacks.antt =====
-- The user's callbacks of src/slablist.h: `slablist_cmp_t` and `slablist_bnd_t`. They are no code of
-- the library, so they are a parameter, and `Ranked` states what the library relies on.
use libslablist.Prelude.{ℕ, ◌≤◌, ◌≡◌, refl, ◌⊎◌, inl, inr, ltb, if◌then◌else◌}

-- `slablist_elem_t`: a union of 64 bits, read as `sle_u`. Only the callbacks look inside.
abbrev pub Elem : Type 0
Elem = ℕ

-- The `int` of a callback, by its sign: below, at and above zero. For the bounds callback these are
-- FS_UNDER_RANGE, FS_IN_RANGE and FS_OVER_RANGE.
pub data Sign : Type 0 where
  under same over : Sign

-- To split on a status and keep the equation.
pub Sign-cases : (x : Sign) → (x ≡ over) ⊎ (x ≡ same) ⊎ (x ≡ under)
Sign-cases over = inl refl
Sign-cases same = inr (inl refl)
Sign-cases under = inr (inr refl)

pub record Callbacks : Type 0 where
  pub cmp : Elem → Elem → Sign
  pub bnd : Elem → Elem → Elem → Sign

abbrev pub sign : ℕ → ℕ → Sign
sign a b = if ltb a b then under else if ltb b a then over else same

abbrev pub bounds : ℕ → ℕ → ℕ → Sign
bounds a lo hi = if ltb a lo then under else if ltb hi a then over else same

-- `cmp` is a total preorder, and `bnd` compares with both ends by it. A total preorder on the
-- finitely many words of 64 bits is given by the rank of each word.
pub record Ranked (cb : Callbacks) : Type 0 where
  pub rank : Elem → ℕ
  pub cmp_rank : (a b : Elem) → cb.cmp a b ≡ sign (rank a) (rank b)
  pub bnd_rank :
      (e lo hi : Elem) → rank lo ≤ rank hi → cb.bnd e lo hi ≡ bounds (rank e) (rank lo) (rank hi)
