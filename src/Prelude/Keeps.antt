-- ===== src/Prelude/Keeps.antt =====
-- Methods that keep a part of their object, also where they raise.
use mathlib.Core.Path.{◌≡◌, refl, ◌∙◌}
use mathlib.Core.Bool.{Bool, true, false}
use pylogstream.Prelude.Tests.{if◌then◌else◌}
use pylogstream.Prelude.Errors.{Result, ok, err}
use pylogstream.Prelude.Exec.{Exec, pure, outside, resume, ◌>>=◌}

module _ {S : Type 0} {P : Type 0} (part : S → P) where
  pub record Keeps {A : Type 0} (f : Exec S A) : Type 0 where
    pub kept : (s : S) → part (f s).1 ≡ part s

  pub resume-kept :
      {A B : Type 0} (r : Result A) (next : A → Exec S B) (s : S)
      → ((a : A) → Keeps (next a))
      → part (resume r next s).1 ≡ part s
  resume-kept (err e) next s k = refl
  resume-kept (ok a) next s k = (k a).kept s

  pub >>=-Keeps :
      {A B : Type 0} {f : Exec S A} {next : A → Exec S B}
      → Keeps f
      → ((a : A) → Keeps (next a))
      → Keeps (f >>= next)
  >>=-Keeps {f} {next} k n = record { kept = λ s. resume-kept (f s).0 next (f s).1 n ∙ k.kept s }

  pub if-Keeps :
      {A : Type 0} (b : Bool) {f g : Exec S A} → Keeps f → Keeps g → Keeps (if b then f else g)
  if-Keeps true kf kg = kf
  if-Keeps false kf kg = kg

  pub outside-Keeps : {A : Type 0} (r : Result A) → Keeps (outside {S = S} r)
  outside-Keeps r = record { kept = λ s. refl }

  pub pure-Keeps : {A : Type 0} (a : A) → Keeps (pure {S = S} a)
  pure-Keeps a = record { kept = λ s. refl }

-- Methods that keep an invariant of their object, also where they raise.
module _ {S : Type 0} (I : S → Type 0) where
  pub record Preserves {A : Type 0} (f : Exec S A) : Type 0 where
    pub preserved : (s : S) → I s → I (f s).1

  pub resume-preserved :
      {A B : Type 0} (r : Result A) (next : A → Exec S B) (s : S)
      → ((a : A) → Preserves (next a))
      → I s
      → I (resume r next s).1
  resume-preserved (err e) next s k h = h
  resume-preserved (ok a) next s k h = (k a).preserved s h

  pub >>=-Preserves :
      {A B : Type 0} {f : Exec S A} {next : A → Exec S B}
      → Preserves f
      → ((a : A) → Preserves (next a))
      → Preserves (f >>= next)
  >>=-Preserves {f} {next} k n = record {
    preserved = λ s h. resume-preserved (f s).0 next (f s).1 n (k.preserved s h);
  }

  pub if-Preserves :
      {A : Type 0} (b : Bool) {f g : Exec S A}
      → Preserves f
      → Preserves g
      → Preserves (if b then f else g)
  if-Preserves true kf kg = kf
  if-Preserves false kf kg = kg

  pub outside-Preserves : {A : Type 0} (r : Result A) → Preserves (outside {S = S} r)
  outside-Preserves r = record { preserved = λ s h. h }

  pub pure-Preserves : {A : Type 0} (a : A) → Preserves (pure {S = S} a)
  pure-Preserves a = record { preserved = λ s h. h }
