-- ===== src/Prelude/Exec.antt =====
-- A method of an object, as a function of the object: what it returns or raises, and the object
-- afterwards, which keeps what was written before the exception.
use mathlib.Core.Path.{◌≡◌, refl, ap}
use pylogstream.Prelude.Errors.{Result, Error, ok, err, err-ne-ok}

-- What a method returns that returns None.
abbrev pub Done : Type 0
Done = Unit

abbrev pub Exec {ℓ} : Type ℓ → Type ℓ → Type ℓ
Exec S A = S → Result A × S

-- Neither returning nor raising changes the object.
abbrev pub pure {ℓ} : {S A : Type ℓ} → A → Exec S A
pure value object = (ok value, object)

abbrev pub raise {ℓ} : {S A : Type ℓ} → Error → Exec S A
raise error object = (err error, object)

-- A call that does not touch the object.
abbrev pub outside {ℓ} : {S A : Type ℓ} → Result A → Exec S A
outside result object = (result, object)

module _ {ℓ} {S A B : Type ℓ} where
  -- The next method runs on what the first one left, unless that one raised.
  abbrev pub resume : Result A → (A → Exec S B) → Exec S B
  resume (err error) next object = (err error, object)
  resume (ok value) next object = next value object

  infixl 5 ◌>>=◌
  abbrev pub ◌>>=◌ : Exec S A → (A → Exec S B) → Exec S B
  ◌>>=◌ method next object = resume (method object).0 next (method object).1

  -- A chain that succeeds has a first part that succeeds.
  resume-eq-ok :
      (r : Result A) (f : A → Exec S B) (s t : S) {b : B}
      → resume r f s ≡ (ok b, t)
      → (a : A) × (r ≡ ok a) × (f a s ≡ (ok b, t))
  resume-eq-ok (ok a) f s t h = (a, refl, h)
  resume-eq-ok (err e) f s t h = absurd (err-ne-ok (ap (λ (p : Result B × S). p.0) h))

  pub >>=-eq-ok :
      (m : Exec S A) (f : A → Exec S B) (s t : S) {b : B}
      → (m >>= f) s ≡ (ok b, t)
      → (a : A) × (u : S) × (m s ≡ (ok a, u)) × (f a u ≡ (ok b, t))
  >>=-eq-ok m f s t h =
      let (a, p, q) = resume-eq-ok (m s).0 f (m s).1 t h in
      (a, (m s).1, ap (λ r. (r, (m s).1)) p, q)
