-- ===== src/Replication/InSync/Members.antt =====
-- leader.py: `_update_isr` only moves the replicas of its list.
use pylogstream.Prelude.{
  ◌≤◌, ℕ, zero, suc, ◌+◌, ◌≡◌, refl, ap, ◌∙◌, Bool, true, false, ◌||◌, List, [], ◌∷◌, ◌++◌,
  Bool-cases, inl, inr, arith, ℤ, length, take, drop, same, same_iff, ok, err-ne-ok, ok-injective,
  ◌>>=◌, >>=-eq-ok,
}
use pylogstream.Text.{Text}
use pylogstream.Metastore.Ring.{contains}
use pylogstream.Replication.InSync.{insert_by, sort_by, reverse_onto, remove_name}
use pylogstream.Replication.InSync.Closest.{closest, keep}

pub contains-append :
    (r : Text) (xs ys : List Text) → contains r (xs ++ ys) ≡ (contains r xs || contains r ys)
unfolding contains
contains-append r [] ys = refl
contains-append r (x ∷ xs) ys = ground (arith, contains-append r xs ys)

module _ (key : Text → ℤ) where
  contains-insert_by :
      (r x : Text) (xs : List Text) → contains r (insert_by key x xs) ≡ (same r x || contains r xs)
  unfolding contains insert_by
  contains-insert_by r x [] = refl
  contains-insert_by r x (y ∷ ys) = ground (arith, contains-insert_by r x ys)

  contains-sort_by : (r : Text) (xs : List Text) → contains r (sort_by key xs) ≡ contains r xs
  unfolding contains sort_by
  contains-sort_by r [] = refl
  contains-sort_by r (x ∷ xs) =
      contains-insert_by r x (sort_by key xs) ∙ ap (λ b. same r x || b) (contains-sort_by r xs)

  length-insert_by : (x : Text) (xs : List Text) → length (insert_by key x xs) ≡ suc (length xs)
  unfolding insert_by
  length-insert_by x [] = refl
  length-insert_by x (y ∷ ys) = ground (arith, length-insert_by x ys)

  length-sort_by : (xs : List Text) → length (sort_by key xs) ≡ length xs
  unfolding sort_by
  length-sort_by [] = refl
  length-sort_by (x ∷ xs) = length-insert_by x (sort_by key xs) ∙ ap suc (length-sort_by xs)

contains-reverse_onto :
    (r : Text) (xs ys : List Text)
    → contains r (reverse_onto xs ys) ≡ (contains r xs || contains r ys)
unfolding contains reverse_onto
contains-reverse_onto r [] ys = refl
contains-reverse_onto r (x ∷ xs) ys = ground (arith, contains-reverse_onto r xs (x ∷ ys))

length-reverse_onto : (xs ys : List Text) → length (reverse_onto xs ys) ≡ length xs + length ys
unfolding reverse_onto
length-reverse_onto [] ys = omega arith
length-reverse_onto (x ∷ xs) ys = omega (arith, length-reverse_onto xs (x ∷ ys))

pub contains-closest :
    (key : Text → ℤ) (r : Text) (xs : List Text) → contains r (closest key xs) ≡ contains r xs
unfolding closest contains
contains-closest key r xs =
    ground (arith, contains-reverse_onto r (sort_by key xs) [], contains-sort_by key r xs)

pub length-closest : (key : Text → ℤ) (xs : List Text) → length (closest key xs) ≡ length xs
unfolding closest
length-closest key xs =
    omega (arith, length-reverse_onto (sort_by key xs) [], length-sort_by key xs)

pub contains-keep :
    (near : Text → Bool) (r : Text) (xs : List Text)
    → near r ≡ true
    → contains r (keep near xs) ≡ contains r xs
unfolding contains keep
contains-keep near r [] e = refl
contains-keep near r (x ∷ xs) e =
    ground (arith, same_iff r x, ap near {x = r} {y = x}, contains-keep near r xs)

pub keep-contains :
    (near : Text → Bool) (r : Text) (xs : List Text)
    → contains r (keep near xs) ≡ true
    → contains r xs ≡ true
unfolding contains keep
keep-contains near r [] h = h
keep-contains near r (x ∷ xs) h = ground (arith, keep-contains near r xs)

pub contains-take-drop :
    (r : Text) (n : ℕ) (xs : List Text)
    → contains r xs ≡ (contains r (take n xs) || contains r (drop n xs))
unfolding contains
contains-take-drop r zero xs = refl
contains-take-drop r (suc n) [] = refl
contains-take-drop r (suc n) (x ∷ xs) = ground (arith, contains-take-drop r n xs)

-- The first item goes, or it stays and the name is removed from the others.
data Removed (x y : Text) (ys others : List Text) : Type 0 where
  first : same y x ≡ true → ys ≡ others → Removed x y ys others
  later :
      (rest : List Text)
      → same y x ≡ false
      → remove_name x ys ≡ ok rest
      → y ∷ rest ≡ others
      → Removed x y ys others

remove_name-Removed :
    (x y : Text) (ys others : List Text)
    → remove_name x (y ∷ ys) ≡ ok others
    → Removed x y ys others
unfolding remove_name
remove_name-Removed x y ys others h = elim (Bool-cases (same y x)) [
  | inl e ↦ Removed.first e (ok-injective (rw e at h))
  | inr e ↦
      let k : (remove_name x ys >>= λ removed. ok (y ∷ removed)) ≡ ok others = rw e at h in
      let (rest, p, q) = >>=-eq-ok (remove_name x ys) (λ removed. ok (y ∷ removed)) k in
      Removed.later rest e p (ok-injective q)
]

remove_name_nil : (x : Text) (others : List Text) → remove_name x [] ≡ ok others → ⊥
unfolding remove_name
remove_name_nil x others h = err-ne-ok h

pub length-remove_name :
    (x : Text) (xs others : List Text)
    → remove_name x xs ≡ ok others
    → length xs ≡ suc (length others)
length-remove_name x [] others h = absurd (remove_name_nil x others h)
length-remove_name x (y ∷ ys) others h = elim (remove_name-Removed x y ys others h) [
  | Removed.first e q ↦ ap (λ t. suc (length t)) q
  | Removed.later rest e p q ↦ omega (arith, length-remove_name x ys rest p, ap length q)
]

pub contains-remove_name :
    (r x : Text) (xs others : List Text)
    → remove_name x xs ≡ ok others
    → contains r xs ≡ (same r x || contains r others)
unfolding contains
contains-remove_name r x [] others h = absurd (remove_name_nil x others h)
contains-remove_name r x (y ∷ ys) others h = elim (remove_name-Removed x y ys others h) [
  | Removed.first e q ↦ ground (arith, same_iff y x)
  | Removed.later rest e p q ↦ ground (arith, contains-remove_name r x ys rest p)
]

pub remove_name-total :
    (x : Text) (xs : List Text)
    → contains x xs ≡ true
    → (others : List Text) × (remove_name x xs ≡ ok others)
unfolding contains remove_name
remove_name-total x [] h = cc
remove_name-total x (y ∷ ys) h = elim (Bool-cases (same y x)) [
  | inl e ↦ (ys, rw e refl)
  | inr e ↦
      let (rest, p) = remove_name-total x ys (ground (arith, same_iff x y, same_iff y x)) in
      (y ∷ rest, rw (e, p) refl)
]

pub length-keep : (near : Text → Bool) (xs : List Text) → length (keep near xs) ≤ length xs
unfolding keep
length-keep near [] = omega arith
length-keep near (x ∷ xs) = ground (arith, length-keep near xs)
