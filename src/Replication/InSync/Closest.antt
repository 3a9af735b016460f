-- ===== src/Replication/InSync/Closest.antt =====
-- leader.py: the order in which `_update_isr` takes the replicas, and what its loops take.
use pylogstream.Prelude.{
  ℕ, zero, suc, ◌≡◌, refl, ap, sym, Bool, false, List, [], ◌∷◌, if◌then◌else◌, Bool-cases, inl, inr,
  arith, ℤ, ◌≤ℤ◌, leb_ℤ, take, drop, All, All-map,
}
use pylogstream.Text.{Text}
use pylogstream.Replication.InSync.{insert_by, sort_by, reverse_onto, fill, eligible}

-- The items that pass a test.
unfoldable pub keep : (Text → Bool) → List Text → List Text
keep near [] = []
keep near (r ∷ rs) = let rest = keep near rs in if near r then r ∷ rest else rest

module _ (key : Text → ℤ) where
  abbrev pub IsAscending : List Text → Type 0
  IsAscending [] = Unit
  IsAscending (x ∷ xs) = All (λ y. key x ≤ℤ key y) xs × IsAscending xs

  abbrev pub IsDescending : List Text → Type 0
  IsDescending [] = Unit
  IsDescending (x ∷ xs) = All (λ y. key y ≤ℤ key x) xs × IsDescending xs

  insert_by-below :
      (z x : Text) (xs : List Text)
      → key x ≤ℤ key z
      → All (λ y. key y ≤ℤ key z) xs
      → All (λ y. key y ≤ℤ key z) (insert_by key x xs)
  unfolding insert_by
  insert_by-below z x [] p h = (p, tt)
  insert_by-below z x (y ∷ ys) p h = elim (Bool-cases (leb_ℤ (key y) (key x))) [
    | inl e ↦ rw e (p, h)
    | inr e ↦ rw e (h.0, insert_by-below z x ys p h.1)
  ]

  insert_by-IsDescending :
      (x : Text) (xs : List Text) → IsDescending xs → IsDescending (insert_by key x xs)
  unfolding insert_by
  insert_by-IsDescending x [] h = (tt, tt)
  insert_by-IsDescending x (y ∷ ys) h = elim (Bool-cases (leb_ℤ (key y) (key x))) [
    | inl e ↦ rw e ((ground arith, All-map _ _ ys (λ z p. ground arith) h.0), h)
    | inr e ↦ rw e (insert_by-below y x ys (ground arith) h.0, insert_by-IsDescending x ys h.1)
  ]

  sort_by-IsDescending : (xs : List Text) → IsDescending (sort_by key xs)
  unfolding sort_by
  sort_by-IsDescending [] = tt
  sort_by-IsDescending (x ∷ xs) =
      insert_by-IsDescending x (sort_by key xs) (sort_by-IsDescending xs)

  reverse_onto-IsAscending :
      (xs ys : List Text)
      → IsDescending xs
      → IsAscending ys
      → All (λ x. All (λ y. key x ≤ℤ key y) ys) xs
      → IsAscending (reverse_onto xs ys)
  unfolding reverse_onto
  reverse_onto-IsAscending [] ys d a c = a
  reverse_onto-IsAscending (x ∷ xs) ys d a c =
      reverse_onto-IsAscending xs (x ∷ ys) d.1 (c.0, a) (All_both xs d.0 c.1)
    where
      All_both :
          (zs : List Text)
          → All (λ y. key y ≤ℤ key x) zs
          → All (λ z. All (λ y. key z ≤ℤ key y) ys) zs
          → All (λ z. All (λ y. key z ≤ℤ key y) (x ∷ ys)) zs
      All_both [] p q = tt
      All_both (z ∷ zs) p q = ((p.0, q.0), All_both zs p.1 q.1)

  nothing_above : (xs : List Text) → All (λ x. All (λ y. key x ≤ℤ key y) []) xs
  nothing_above [] = tt
  nothing_above (x ∷ xs) = (tt, nothing_above xs)

  -- The replicas with the least key first.
  unfoldable pub closest : List Text → List Text
  unfolding sort_by reverse_onto
  closest xs = reverse_onto (sort_by key xs) []

  pub closest-IsAscending : (xs : List Text) → IsAscending (closest xs)
  unfolding closest
  closest-IsAscending xs =
      reverse_onto-IsAscending (sort_by key xs) [] (sort_by-IsDescending xs) tt
        (nothing_above (sort_by key xs))

  IsAscending-drop : (n : ℕ) (xs : List Text) → IsAscending xs → IsAscending (drop n xs)
  IsAscending-drop zero xs h = h
  IsAscending-drop (suc n) [] h = h
  IsAscending-drop (suc n) (x ∷ xs) h = IsAscending-drop n xs h.1

  module _ (bound : ℤ) where
    abbrev near : Text → Bool
    near r = leb_ℤ (key r) bound

    keep_far :
        (x : Text) (xs : List Text)
        → near x ≡ false
        → All (λ y. key x ≤ℤ key y) xs
        → keep near xs ≡ []
    unfolding keep
    keep_far x [] e h = refl
    keep_far x (y ∷ ys) e h =
        let far : near y ≡ false = ground arith in rw far (keep_far x ys e h.1)

    eligible-keep : (xs : List Text) → IsAscending xs → eligible near xs ≡ keep near xs
    unfolding eligible keep
    eligible-keep [] h = refl
    eligible-keep (x ∷ xs) h = elim (Bool-cases (near x)) [
      | inl e ↦ rw e (ap (λ (t : List Text). x ∷ t) (eligible-keep xs h.1))
      | inr e ↦ rw e (sym (keep_far x xs e h.0))
    ]

    pub eligible-closest :
        (n : ℕ) (xs : List Text)
        → eligible near (drop n (closest xs)) ≡ keep near (drop n (closest xs))
    eligible-closest n xs =
        eligible-keep (drop n (closest xs))
          (IsAscending-drop n (closest xs) (closest-IsAscending xs))

pub fill_lem : (xs : List Text) (n : ℕ) → fill xs n ≡ (take n xs, drop n xs)
unfolding fill
fill_lem [] zero = refl
fill_lem [] (suc n) = refl
fill_lem (x ∷ xs) zero = refl
fill_lem (x ∷ xs) (suc n) =
    let moved : List Text × List Text → List Text × List Text = λ p. (x ∷ p.0, p.1) in
    ap moved (fill_lem xs n)
