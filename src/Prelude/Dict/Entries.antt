-- ===== src/Prelude/Dict/Entries.antt =====
-- Predicates on all the entries of a dictionary.
use mathlib.Core.Path.{◌≡◌, sym, subst}
use mathlib.Core.Logic.{inl, inr}
use mathlib.Core.List.{[], ◌∷◌}
use mathlib.Core.Option.{some}
use pylogstream.Prelude.Tests.{Key, Bool-cases}
use pylogstream.Prelude.Lists.{All}
use pylogstream.Prelude.Dict.{Dict, get, put, remove}

module _ {ℓ κ μ} {K : Type ℓ} {V : Type κ} ⦃e : Key K⦄ (P : K × V → Type μ) where
  pub All-put : (d : Dict K V) (k : K) (v : V) → P (k, v) → All P d → All P (put d k v)
  unfolding put
  All-put [] k v p h = (p, tt)
  All-put ((j, w) ∷ d) k v p h = elim (Bool-cases (e.equal j k)) [
    | inl same_key ↦ rw same_key (subst (λ i. P (i, v)) (sym ((e.equal_iff j k).0 same_key)) p, h.1)
    | inr other ↦ rw other (h.0, All-put d k v p h.1)
  ]

  pub All-remove : (d : Dict K V) (k : K) → All P d → All P (remove d k)
  unfolding remove
  All-remove [] k h = tt
  All-remove ((j, w) ∷ d) k h = elim (Bool-cases (e.equal j k)) [
    | inl same_key ↦ rw same_key (All-remove d k h.1)
    | inr other ↦ rw other (h.0, All-remove d k h.1)
  ]

  pub All-get : (d : Dict K V) (k : K) (v : V) → All P d → get d k ≡ some v → P (k, v)
  unfolding get
  All-get [] k v h g = cc
  All-get ((j, w) ∷ d) k v h g = elim (Bool-cases (e.equal j k)) [
    | inl same_key ↦
        let found : some w ≡ some v = rw same_key at g in
        let value : w ≡ v = cc in
        subst (λ (p : K × V). P p) (λ i. ((e.equal_iff j k).0 same_key i, value i)) h.0
    | inr other ↦ All-get d k v h.1 (rw other at g)
  ]
