-- ===== src/Prelude/Arrays.antt =====
-- C arrays as functions of the index, `bcopy`, and the list of a run of cells.
use Prim.Native.Nat.{ℕ, zero, suc, ◌+◌, ◌-◌, ◌<◌}
use mathlib.Core.Path.{◌≡◌, refl, sym, ap, ap₂, ◌∙◌}
use mathlib.Core.List.{List, [], ◌∷◌, ◌++◌}
use mathlib.Core.Bool.{◌&&◌}
use native.Mathlib.Omega.{arith}
use libslablist.Prelude.Tests.{ltb, leb, ◌==◌, if◌then◌else◌}
use libslablist.Prelude.Lists.{length}

module _ {ℓ} {A : Type ℓ} where
  -- a[i] = v
  abbrev pub write : (ℕ → A) → ℕ → A → ℕ → A
  write f i v k = if k == i then v else f k

  -- bcopy(src + s, dst + d, n * sizeof (A)); what `dst` holds afterwards. The ranges may overlap.
  abbrev pub bcopy : (ℕ → A) → ℕ → (ℕ → A) → ℕ → ℕ → ℕ → A
  bcopy src s dst d n k = if leb d k && ltb k (d + n) then src (k - d + s) else dst k

  -- The `n` cells from `i` on.
  abbrev pub slice : (ℕ → A) → ℕ → ℕ → List A
  slice f i zero = []
  slice f i (suc n) = f i ∷ slice f (suc i) n

  pub length-slice : (f : ℕ → A) (i n : ℕ) → length (slice f i n) ≡ n
  length-slice f i zero = refl
  length-slice f i (suc n) = ap suc (length-slice f (suc i) n)

  -- Runs with the same cells are the same list.
  pub slice_ext :
      (f g : ℕ → A) (i j n : ℕ)
      → ((k : ℕ) → k < n → f (i + k) ≡ g (j + k))
      → slice f i n ≡ slice g j n
  slice_ext f g i j zero h = refl
  slice_ext f g i j (suc n) h =
      ap₂ ◌∷◌ (ground (arith, h 0))
        (slice_ext f g (suc i) (suc j) n (λ k p. ground (arith, h (suc k))))

  pub slice-add : (f : ℕ → A) (i m n : ℕ) → slice f i (m + n) ≡ slice f i m ++ slice f (i + m) n
  slice-add f i zero n = ground arith
  slice-add f i (suc m) n =
      let e : suc m + n ≡ suc (m + n) = omega arith in
      let e' : i + suc m ≡ suc i + m = omega arith in
      ap (slice f i) e
      ∙ ap (λ t. f i ∷ t) (slice-add f (suc i) m n)
      ∙ ap (λ k. slice f i (suc m) ++ slice f k n) (sym e')

  -- A run from the start of the array splits anywhere.
  pub slice-cut : (f : ℕ → A) (i r n : ℕ) → n ≡ i + r → slice f 0 n ≡ slice f 0 i ++ slice f i r
  slice-cut f i r n e = ground (arith, slice-add f 0 i r)
