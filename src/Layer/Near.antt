-- ===== src/Layer/Near.antt =====
-- The first item of a list that an element does not exceed, or the last item: what each search of the
-- layers looks for. `reaches` tells that the element is not over the item.
use libslablist.Prelude.{
  ℕ, zero, suc, ◌+◌, ◌≤◌, ◌<◌, ◌≡◌, refl, sym, ap, ◌∙◌, inl, inr, List, [], ◌∷◌, ◌++◌, map, Bool,
  true, false, ◌||◌, Option, none, some, if◌then◌else◌, arith, slice, length, Bool-cases, All,
  All-append, append-nil, ap₂, dec_lt, length-append,
}
use libslablist.Layer.{concat}

module _ {ℓ} {A : Type ℓ} (reaches : A → Bool) where
  abbrev pub nearest : List A → Option A
  nearest [] = none
  nearest (x ∷ []) = some x
  nearest (x ∷ (y ∷ ys)) = if reaches x then some x else nearest (y ∷ ys)

  abbrev pub any : List A → Bool
  any [] = false
  any (x ∷ xs) = reaches x || any xs

  pub any-append : (xs ys : List A) → any (xs ++ ys) ≡ any xs || any ys
  any-append [] ys = refl
  any-append (x ∷ xs) ys = ground (arith, any-append xs ys)

  -- Where an item is not exceeded, what follows does not matter.
  pub nearest-append_left : (xs ys : List A) → any xs ≡ true → nearest (xs ++ ys) ≡ nearest xs
  nearest-append_left [] ys h = cc
  nearest-append_left (x ∷ []) [] h = refl
  nearest-append_left (x ∷ []) (y ∷ ys) h = ground arith
  nearest-append_left (x ∷ (x' ∷ xs)) ys h = ground (arith, nearest-append_left (x' ∷ xs) ys)

  -- What is exceeded throughout is passed over.
  pub nearest-append_right :
      (xs ys : List A) → any xs ≡ false → 0 < length ys → nearest (xs ++ ys) ≡ nearest ys
  nearest-append_right [] ys h used = refl
  nearest-append_right (x ∷ xs) [] h used = absurd (omega arith)
  nearest-append_right (x ∷ []) (y ∷ ys) h used = ground arith
  nearest-append_right (x ∷ (x' ∷ xs)) (y ∷ ys) h used =
      ground (arith, nearest-append_right (x' ∷ xs) (y ∷ ys))

  -- By its index in a run of cells.
  pub nearest-slice :
      (f : ℕ → A) (i n x : ℕ)
      → i ≤ x
      → x < i + n
      → ((k : ℕ) → i ≤ k → k < x → reaches (f k) ≡ false)
      → (suc x < i + n → reaches (f x) ≡ true)
      → nearest (slice f i n) ≡ some (f x)
  nearest-slice f i zero x le lt before here = absurd (omega arith)
  nearest-slice f i (suc zero) x le lt before here = let e : x ≡ i = omega arith in rw e
  nearest-slice f i (suc (suc n)) x le lt before here = elim (dec_lt i x) [
    | yes l ↦
        let h : reaches (f i) ≡ false = before i (omega arith) l in
        rw h (
          nearest-slice f (suc i) (suc n) x (omega arith) (omega arith)
            (λ k p q. before k (omega arith) q) (λ p. here (omega arith)))
    | no l ↦
        let e : x ≡ i = omega arith in
        let h : reaches (f x) ≡ true = here (omega arith) in rw (sym e) (rw h)
  ]

module _ {ℓ κ} {A : Type ℓ} {B : Type κ} (reaches : A → Bool) (in_view : B → Bool) where
  -- An item of the lower layer is exceeded where all that it leads up to is.
  abbrev pub Fits : (B → List A) → B → Type 0
  Fits up x = (any reaches (up x) ≡ in_view x) × (0 < length (up x))

  module _ (up : B → List A) where
    pub any-concat :
        (xs : List B) → All (Fits up) xs → any reaches (concat (map up xs)) ≡ any in_view xs
    any-concat [] h = refl
    any-concat (x ∷ xs) h =
        any-append reaches (up x) (concat (map up xs)) ∙ ap₂ ◌||◌ h.0.0 (any-concat xs h.1)

    pub some_up : (xs : List B) → All (Fits up) xs → 0 < length xs → 0 < length (concat (map up xs))
    some_up [] h used = absurd (omega arith)
    some_up (x ∷ xs) h used = omega (arith, h.0.1, length-append (up x) (concat (map up xs)))

    -- The search of the layer above may be made from the item that the search below finds.
    pub nearest-concat :
        (xs : List B) (x : B)
        → All (Fits up) xs
        → nearest in_view xs ≡ some x
        → nearest reaches (concat (map up xs)) ≡ nearest reaches (up x)
    nearest-concat [] x h e = cc
    nearest-concat (y ∷ []) x h e =
        let same_item : y ≡ x = cc in
        ap (nearest reaches) (append-nil (up y)) ∙ ap (λ t. nearest reaches (up t)) same_item
    nearest-concat (y ∷ (z ∷ zs)) x h e = elim (Bool-cases (in_view y)) [
      | inl here ↦
          let same_item : y ≡ x = ground arith in
          nearest-append_left reaches (up y) (concat (map up (z ∷ zs))) (h.0.0 ∙ here)
          ∙ ap (λ t. nearest reaches (up t)) same_item
      | inr past ↦
          nearest-append_right reaches (up y) (concat (map up (z ∷ zs))) (h.0.0 ∙ past)
            (some_up (z ∷ zs) h.1 (omega arith))
          ∙ nearest-concat (z ∷ zs) x h.1 (ground arith)
    ]

-- What holds of all that each item leads up to.
pub All-concat {ℓ κ μ} :
    {A : Type ℓ} {B : Type κ} (P : A → Type μ) (up : B → List A) (xs : List B)
    → All (λ x. All P (up x)) xs
    → All P (concat (map up xs))
All-concat P up [] h = tt
All-concat P up (x ∷ xs) h = All-append P (up x) (concat (map up xs)) h.0 (All-concat P up xs h.1)
