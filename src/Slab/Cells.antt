-- ===== src/Slab/Cells.antt =====
-- What the shifts of an array do to the list of its cells.
use libslablist.Prelude.{
  ℕ, suc, ◌+◌, ◌-◌, ◌≤◌, ◌<◌, ◌≡◌, sym, ap₂, ◌∙◌, ◌∷◌, ◌++◌, arith, insert_at, remove_at, slice,
  slice_ext, slice-cut, length-slice, insert_at-append, remove_at-append, write, bcopy,
}

-- A shift by one cell and a write put one element in.
pub slice-write-bcopy :
    {A : Type 0} (f : ℕ → A) (i n : ℕ) (e : A)
    → i ≤ n
    → slice (write (bcopy f i f (i + 1) (n - i)) i e) 0 (n + 1) ≡ insert_at i e (slice f 0 n)
slice-write-bcopy {A} f i n e h =
    slice-cut g i (suc (n - i)) (n + 1) (omega arith)
    ∙ ap₂ ◌++◌ (slice_ext g f 0 0 i (λ k p. ground arith))
        (ap₂ ◌∷◌ (ground arith) (slice_ext g f (suc i) i (n - i) (λ k p. ground arith)))
    ∙ sym (insert_at-append (slice f 0 i) (slice f i (n - i)) e)
    ∙ ap₂ (λ k t. insert_at k e t) (length-slice f 0 i)
        (sym (slice-cut f i (n - i) n (omega arith)))
  where
    g : ℕ → A
    g = write (bcopy f i f (i + 1) (n - i)) i e

-- A shift by one cell the other way takes one element out.
pub slice-bcopy_back :
    {A : Type 0} (f : ℕ → A) (i n : ℕ)
    → i < n
    → slice (bcopy f (i + 1) f i (n - (i + 1))) 0 (n - 1) ≡ remove_at i (slice f 0 n)
slice-bcopy_back {A} f i n h =
    slice-cut g i (n - (i + 1)) (n - 1) (omega arith)
    ∙ ap₂ ◌++◌ (slice_ext g f 0 0 i (λ k p. ground arith))
        (slice_ext g f i (suc i) (n - (i + 1)) (λ k p. ground arith))
    ∙ sym (remove_at-append (slice f 0 i) (slice f (suc i) (n - (i + 1))) (f i))
    ∙ ap₂ remove_at (length-slice f 0 i) (sym (slice-cut f i (suc (n - (i + 1))) n (omega arith)))
  where
    g : ℕ → A
    g = bcopy f (i + 1) f i (n - (i + 1))
