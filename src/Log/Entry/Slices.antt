-- ===== src/Log/Entry/Slices.antt =====
-- Parts of a file that grows and is overwritten.
use pylogstream.Text.{Bytes}
use pylogstream.Log.Entry.{truncate, overwrite}
use pylogstream.Prelude.{
  replicate, text_eq, take-append, drop-append, length-replicate, ◌∙◌, sym, length-drop,
  length-take, length-append, ap, ℕ, zero, suc, ◌+◌, ◌-◌, ◌≤◌, ◌≡◌, refl, List, [], ◌∷◌, ◌++◌, take,
  drop, length, arith,
}

module _ {ℓ} {A : Type ℓ} where
  pub slice-append :
      (xs ys : List A) (o l : ℕ)
      → o + l ≤ length xs
      → take l (drop o (xs ++ ys)) ≡ take l (drop o xs)
  slice-append xs ys o zero h = refl
  slice-append [] ys o (suc l) h = absurd (omega arith)
  slice-append (x ∷ xs) ys zero (suc l) h = ap (λ t. x ∷ t) (slice-append xs ys 0 l (omega arith))
  slice-append (x ∷ xs) ys (suc o) (suc l) h = slice-append xs ys o (suc l) (omega arith)

  pub slice-take :
      (xs : List A) (k o l : ℕ) → o + l ≤ k → take l (drop o (take k xs)) ≡ take l (drop o xs)
  slice-take xs k o zero h = refl
  slice-take xs zero o (suc l) h = absurd (omega arith)
  slice-take [] (suc k) zero (suc l) h = refl
  slice-take [] (suc k) (suc o) (suc l) h = refl
  slice-take (x ∷ xs) (suc k) zero (suc l) h = ap (λ t. x ∷ t) (slice-take xs k 0 l (omega arith))
  slice-take (x ∷ xs) (suc k) (suc o) (suc l) h = slice-take xs k o (suc l) (omega arith)

pub length-truncate : (n : ℕ) (f : Bytes) → length (truncate n f) ≡ n
unfolding truncate
length-truncate n f = omega (
  arith,
  length-append (take n f) (replicate (n - length f) 0),
  length-take n f,
  length-replicate {A = ℕ} (n - length f) 0,
)

-- What was in the file is at the same place after it grew.
pub slice-truncate :
    (n o l : ℕ) (f : Bytes)
    → o + l ≤ length f
    → length f ≤ n
    → take l (drop o (truncate n f)) ≡ take l (drop o f)
unfolding truncate
slice-truncate n o l f h k =
    slice-append (take n f) (replicate (n - length f) 0) o l (omega (arith, length-take n f))
    ∙ slice-take f n o l (omega arith)

pub slice-overwrite_before :
    (offset o l : ℕ) (msg b : Bytes)
    → o + l ≤ offset
    → offset ≤ length b
    → take l (drop o (overwrite offset msg b)) ≡ take l (drop o b)
unfolding overwrite
slice-overwrite_before offset o l msg b h k =
    slice-append (take offset b) (msg ++ drop (offset + length msg) b) o l
      (omega (arith, length-take offset b))
    ∙ slice-take b offset o l h

pub slice-overwrite :
    (offset : ℕ) (msg b : Bytes)
    → offset ≤ length b
    → take (length msg) (drop offset (overwrite offset msg b)) ≡ msg
unfolding overwrite
slice-overwrite offset msg b k =
    let e : length (take offset b) ≡ offset = omega (arith, length-take offset b) in
    ap (λ i. take (length msg) (drop i (take offset b ++ (msg ++ drop (offset + length msg) b))))
      (sym e)
    ∙ ap (take (length msg)) (drop-append (take offset b) (msg ++ drop (offset + length msg) b))
    ∙ take-append msg (drop (offset + length msg) b)

pub length-overwrite :
    (offset : ℕ) (msg b : Bytes)
    → offset + length msg ≤ length b
    → length (overwrite offset msg b) ≡ length b
unfolding overwrite
length-overwrite offset msg b k = omega (
  arith,
  length-append (take offset b) (msg ++ drop (offset + length msg) b),
  length-append msg (drop (offset + length msg) b),
  length-take offset b,
  length-drop (offset + length msg) b,
)
