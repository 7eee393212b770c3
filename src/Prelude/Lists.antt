-- ===== src/Prelude/Lists.antt =====
-- Lists measured by native numbers, under the library's names.
use Prim.Native.Nat.{ℕ, zero, suc, ◌+◌, ◌≤◌, ◌<◌}
use mathlib.Core.Path.{◌≡◌, refl, sym, ap, ◌∙◌}
use mathlib.Core.List.{List, [], ◌∷◌, ◌++◌, append-nil, append_assoc}
use mathlib.Core.Option.{Option, none, some}
use native.Mathlib.Omega.{arith}

abbrev pub All {ℓ κ} : {A : Type ℓ} → (A → Type κ) → List A → Type κ
All P [] = Unit
All P (x ∷ xs) = P x × All P xs

module _ {ℓ κ} {A : Type ℓ} (P : A → Type κ) where
  pub All-append : (xs ys : List A) → All P xs → All P ys → All P (xs ++ ys)
  All-append [] ys h k = k
  All-append (x ∷ xs) ys h k = (h.0, All-append xs ys h.1 k)

  pub All-append_left : (xs ys : List A) → All P (xs ++ ys) → All P xs
  All-append_left [] ys h = tt
  All-append_left (x ∷ xs) ys h = (h.0, All-append_left xs ys h.1)

  pub All-append_right : (xs ys : List A) → All P (xs ++ ys) → All P ys
  All-append_right [] ys h = h
  All-append_right (x ∷ xs) ys h = All-append_right xs ys h.1

  pub All-map {μ} : {Q : A → Type μ} (f : (x : A) → P x → Q x) (xs : List A) → All P xs → All Q xs
  All-map f [] h = tt
  All-map f (x ∷ xs) h = (f x h.0, All-map f xs h.1)

pub All-both {ℓ κ μ} :
    {A : Type ℓ} (P : A → Type κ) (Q : A → Type μ) (xs : List A)
    → All P xs
    → All Q xs
    → All (λ x. P x × Q x) xs
All-both P Q [] h k = tt
All-both P Q (x ∷ xs) h k = ((h.0, k.0), All-both P Q xs h.1 k.1)

module _ {ℓ} {A : Type ℓ} where
  abbrev pub length : List A → ℕ
  length [] = 0
  length (x ∷ xs) = suc (length xs)

  abbrev pub get_elem? : List A → ℕ → Option A
  get_elem? [] i = none
  get_elem? (x ∷ xs) zero = some x
  get_elem? (x ∷ xs) (suc i) = get_elem? xs i

  -- Put `a` before the `i`-th item, at the end when there are fewer.
  abbrev pub insert_at : ℕ → A → List A → List A
  insert_at zero a xs = a ∷ xs
  insert_at (suc i) a [] = a ∷ []
  insert_at (suc i) a (x ∷ xs) = x ∷ insert_at i a xs

  -- Take the `i`-th item out.
  abbrev pub remove_at : ℕ → List A → List A
  remove_at i [] = []
  remove_at zero (x ∷ xs) = xs
  remove_at (suc i) (x ∷ xs) = x ∷ remove_at i xs

  pub length-append : (xs ys : List A) → length (xs ++ ys) ≡ length xs + length ys
  length-append [] ys = omega arith
  length-append (x ∷ xs) ys = omega (arith, length-append xs ys)

  pub insert_at-append :
      (xs ys : List A) (a : A) → insert_at (length xs) a (xs ++ ys) ≡ xs ++ (a ∷ ys)
  insert_at-append [] ys a = refl
  insert_at-append (x ∷ xs) ys a = ap (λ t. x ∷ t) (insert_at-append xs ys a)

  pub insert_at-append_left :
      (i : ℕ) (xs ys : List A) (a : A)
      → i ≤ length xs
      → insert_at i a (xs ++ ys) ≡ insert_at i a xs ++ ys
  insert_at-append_left zero xs ys a h = refl
  insert_at-append_left (suc i) [] ys a h = absurd (omega arith)
  insert_at-append_left (suc i) (x ∷ xs) ys a h =
      ap (λ t. x ∷ t) (insert_at-append_left i xs ys a (omega arith))

  pub insert_at-append_right :
      (i : ℕ) (xs ys : List A) (a : A)
      → insert_at (length xs + i) a (xs ++ ys) ≡ xs ++ insert_at i a ys
  insert_at-append_right i [] ys a = ground arith
  insert_at-append_right i (x ∷ xs) ys a =
      let e : suc (length xs) + i ≡ suc (length xs + i) = omega arith in
      ap (λ k. insert_at k a (x ∷ (xs ++ ys))) e
      ∙ ap (λ t. x ∷ t) (insert_at-append_right i xs ys a)

  pub remove_at-append_left :
      (i : ℕ) (xs ys : List A) → i < length xs → remove_at i (xs ++ ys) ≡ remove_at i xs ++ ys
  remove_at-append_left i [] ys h = absurd (omega arith)
  remove_at-append_left zero (x ∷ xs) ys h = refl
  remove_at-append_left (suc i) (x ∷ xs) ys h =
      ap (λ t. x ∷ t) (remove_at-append_left i xs ys (omega arith))

  pub remove_at-append_right :
      (i : ℕ) (xs ys : List A) → remove_at (length xs + i) (xs ++ ys) ≡ xs ++ remove_at i ys
  remove_at-append_right i [] ys = ground arith
  remove_at-append_right i (x ∷ xs) ys =
      let e : suc (length xs) + i ≡ suc (length xs + i) = omega arith in
      ap (λ k. remove_at k (x ∷ (xs ++ ys))) e ∙ ap (λ t. x ∷ t) (remove_at-append_right i xs ys)

  pub get_elem?-append_left :
      (i : ℕ) (xs ys : List A) → i < length xs → get_elem? (xs ++ ys) i ≡ get_elem? xs i
  get_elem?-append_left i [] ys h = absurd (omega arith)
  get_elem?-append_left zero (x ∷ xs) ys h = refl
  get_elem?-append_left (suc i) (x ∷ xs) ys h = get_elem?-append_left i xs ys (omega arith)

  pub get_elem?-append_right :
      (i : ℕ) (xs ys : List A) → get_elem? (xs ++ ys) (length xs + i) ≡ get_elem? ys i
  get_elem?-append_right i [] ys = ground arith
  get_elem?-append_right i (x ∷ xs) ys =
      let e : suc (length xs) + i ≡ suc (length xs + i) = omega arith in
      ap (get_elem? (x ∷ (xs ++ ys))) e ∙ get_elem?-append_right i xs ys

  pub remove_at-append :
      (xs ys : List A) (a : A) → remove_at (length xs) (xs ++ (a ∷ ys)) ≡ xs ++ ys
  remove_at-append [] ys a = refl
  remove_at-append (x ∷ xs) ys a = ap (λ t. x ∷ t) (remove_at-append xs ys a)

  pub get_elem?-append : (xs ys : List A) (a : A) → get_elem? (xs ++ (a ∷ ys)) (length xs) ≡ some a
  get_elem?-append [] ys a = refl
  get_elem?-append (x ∷ xs) ys a = get_elem?-append xs ys a

  pub length-remove_at :
      (i : ℕ) (xs : List A) → i < length xs → suc (length (remove_at i xs)) ≡ length xs
  length-remove_at i [] h = absurd (omega arith)
  length-remove_at zero (x ∷ xs) h = refl
  length-remove_at (suc i) (x ∷ xs) h = ap suc (length-remove_at i xs (omega arith))

  abbrev pub reverse : List A → List A
  reverse [] = []
  reverse (x ∷ xs) = reverse xs ++ (x ∷ [])

  pub reverse-append : (xs ys : List A) → reverse (xs ++ ys) ≡ reverse ys ++ reverse xs
  reverse-append [] ys = sym (append-nil (reverse ys))
  reverse-append (x ∷ xs) ys =
      ap (λ t. t ++ (x ∷ [])) (reverse-append xs ys)
      ∙ append_assoc (reverse ys) (reverse xs) (x ∷ [])
