-- ===== src/Text/Split.antt =====
-- `str.split(sep, n)` and `str.split(sep)` for a separator of one character, and `sep.join`.
use pylogstream.Prelude.{
  ℕ, zero, suc, ◌≡◌, ◌≢◌, refl, Option, none, some, List, [], ◌∷◌, ◌++◌, arith, ◌==◌, if◌then◌else◌,
  All,
}
use pylogstream.Text.{Text}

abbrev pub Lacks : ℕ → Text → Type 0
Lacks c = All (λ d. d ≢ c)

cons_first : ℕ → Option (Text × Text) → Option (Text × Text)
cons_first c none = none
cons_first c (some (a, b)) = some (c ∷ a, b)

-- The text before the first separator, and the text behind it.
unfoldable pub partition : ℕ → Text → Option (Text × Text)
unfolding cons_first
partition sep [] = none
partition sep (c ∷ s) =
    let rest = cons_first c (partition sep s) in if c == sep then some ([], s) else rest

unfoldable pub split_max : ℕ → ℕ → Text → List Text
unfolding partition
split_max sep zero s = s ∷ []
split_max sep (suc n) s = elim (partition sep s) [
  | none ↦ s ∷ []
  | some (a, b) ↦ a ∷ split_max sep n b
]

cons_head : ℕ → List Text → List Text
cons_head c [] = (c ∷ []) ∷ []
cons_head c (p ∷ ps) = (c ∷ p) ∷ ps

unfoldable pub split : ℕ → Text → List Text
unfolding cons_head
split sep [] = [] ∷ []
split sep (c ∷ s) = let rest = split sep s in if c == sep then [] ∷ rest else cons_head c rest

unfoldable pub join : ℕ → List Text → Text
join sep [] = []
join sep (p ∷ []) = p
join sep (p ∷ q ∷ ps) = p ++ sep ∷ join sep (q ∷ ps)

pub partition-append :
    (sep : ℕ) (a b : Text) → Lacks sep a → partition sep (a ++ sep ∷ b) ≡ some (a, b)
unfolding partition
partition-append sep [] b h = ground arith
partition-append sep (c ∷ a) b (hc, h) = ground (arith, partition-append sep a b h)

partition-Lacks : (sep : ℕ) (a : Text) → Lacks sep a → partition sep a ≡ none
unfolding partition
partition-Lacks sep [] h = refl
partition-Lacks sep (c ∷ a) (hc, h) = ground (arith, partition-Lacks sep a h)

-- The first part of a limited split.
pub split_max-append :
    (sep n : ℕ) (a b : Text)
    → Lacks sep a
    → split_max sep (suc n) (a ++ sep ∷ b) ≡ a ∷ split_max sep n b
unfolding split_max
split_max-append sep n a b h = rw (partition-append sep a b h, split_max) refl

pub split_max-Lacks : (sep n : ℕ) (a : Text) → Lacks sep a → split_max sep n a ≡ a ∷ []
unfolding split_max
split_max-Lacks sep zero a h = refl
split_max-Lacks sep (suc n) a h = rw (partition-Lacks sep a h, split_max) refl

pub split_max-zero : (sep : ℕ) (a : Text) → split_max sep 0 a ≡ a ∷ []
unfolding split_max
split_max-zero sep a = refl

split-append : (sep : ℕ) (a b : Text) → Lacks sep a → split sep (a ++ sep ∷ b) ≡ a ∷ split sep b
unfolding split
split-append sep [] b h = ground arith
split-append sep (c ∷ a) b (hc, h) = ground (arith, split-append sep a b h)

split-Lacks : (sep : ℕ) (a : Text) → Lacks sep a → split sep a ≡ a ∷ []
unfolding split
split-Lacks sep [] h = refl
split-Lacks sep (c ∷ a) (hc, h) = ground (arith, split-Lacks sep a h)

pub split-join :
    (sep : ℕ) (p : Text) (ps : List Text)
    → All (Lacks sep) (p ∷ ps)
    → split sep (join sep (p ∷ ps)) ≡ p ∷ ps
unfolding join
split-join sep p [] (h, _) = split-Lacks sep p h
split-join sep p (q ∷ ps) (h, hs) =
    rw (split-append sep p (join sep (q ∷ ps)) h, split-join sep q ps hs) refl
