-- ===== src/Log/Memory/Usable.antt =====
-- What handles need of their entries, and the lists of entries.
use pylogstream.Prelude.{
  ap, ◌≤◌, pos, ◌≤ℤ◌, ℕ, zero, suc, ◌≡◌, refl, sym, subst, arith, List, [], ◌∷◌, ◌++◌, Option, none,
  some, length, text_eq, get_elem?, set,
}
use pylogstream.Log.Entry.{Entry}
use pylogstream.Log.Memory.{update_at}

pub same_some : {A : Type 0} {a b : A} → some a ≡ some b → a ≡ b
same_some h = cc

pub none_ne_some : {A : Type 0} {a : A} → none ≡ some a → ⊥
none_ne_some h = cc

abbrev pub IsMapped : Option ℕ → Type 0
IsMapped none = ⊥
IsMapped (some n) = Unit

-- What `n` handles of an entry need of it: as many references at least and, if there are any, its file
-- loaded. Where there is no entry, there are no handles.
abbrev pub IsUsable : ℕ → Option Entry → Type 0
IsUsable n none = n ≡ 0
IsUsable n (some e) = (pos n ≤ℤ e.refcount) × (1 ≤ n → IsMapped e.mv)

-- All entries, where `n` handles of each index are held.
abbrev pub AreUsable : (ℕ → ℕ) → List Entry → Type 0
AreUsable n es = (i : ℕ) → IsUsable (n i) (get_elem? es i)

-- An entry and the number of its handles change; the others stay.
pub set-AreUsable :
    (es : List Entry) (i : ℕ) (x y : Entry) (n k : ℕ → ℕ)
    → get_elem? es i ≡ some x
    → AreUsable n es
    → ((j : ℕ) → (j ≡ i → ⊥) → k j ≡ n j)
    → IsUsable (k i) (some y)
    → AreUsable k (set es i y)
set-AreUsable [] i x y n k g h o p j = absurd (none_ne_some g)
set-AreUsable (z ∷ es) zero x y n k g h o p zero = p
set-AreUsable (z ∷ es) zero x y n k g h o p (suc j) =
    subst (λ a. IsUsable a (get_elem? es j)) (sym (o (suc j) (λ e. absurd (omega (arith, e)))))
      (h (suc j))
set-AreUsable (z ∷ es) (suc i) x y n k g h o p zero =
    subst (λ a. IsUsable a (some z)) (sym (o zero (λ e. absurd (omega (arith, e))))) (h zero)
set-AreUsable (z ∷ es) (suc i) x y n k g h o p (suc j) =
    set-AreUsable es i x y (λ a. n (suc a)) (λ a. k (suc a)) g (λ a. h (suc a))
      (λ a ne. o (suc a) (λ e. ne (omega (arith, e)))) p j

pub append-AreUsable :
    (es : List Entry) (x : Entry) (n : ℕ → ℕ)
    → AreUsable n es
    → IsUsable 0 (some x)
    → AreUsable n (es ++ x ∷ [])
append-AreUsable [] x n h p zero = subst (λ a. IsUsable a (some x)) (sym (h 0)) p
append-AreUsable [] x n h p (suc j) = h (suc j)
append-AreUsable (z ∷ es) x n h p zero = h zero
append-AreUsable (z ∷ es) x n h p (suc j) =
    append-AreUsable es x (λ a. n (suc a)) (λ a. h (suc a)) p j

pub get_elem?-append : (es : List Entry) (x : Entry) → get_elem? (es ++ x ∷ []) (length es) ≡ some x
get_elem?-append [] x = refl
get_elem?-append (z ∷ es) x = get_elem?-append es x

pub update_at-set :
    (f : Entry → Entry) (es : List Entry) (i : ℕ) (x : Entry)
    → get_elem? es i ≡ some x
    → update_at f es i ≡ set es i (f x)
unfolding update_at
update_at-set f [] i x g = absurd (none_ne_some g)
update_at-set f (z ∷ es) zero x g = ap (λ a. f a ∷ es) (same_some g)
update_at-set f (z ∷ es) (suc i) x g = ap (λ a. z ∷ a) (update_at-set f es i x g)

pub update_at_missing :
    (f : Entry → Entry) (es : List Entry) (i : ℕ) → get_elem? es i ≡ none → update_at f es i ≡ es
unfolding update_at
update_at_missing f [] i g = refl
update_at_missing f (z ∷ es) zero g = absurd (none_ne_some (sym g))
update_at_missing f (z ∷ es) (suc i) g = ap (λ a. z ∷ a) (update_at_missing f es i g)

pub get_elem?-set :
    (es : List Entry) (i : ℕ) (x y : Entry)
    → get_elem? es i ≡ some x
    → get_elem? (set es i y) i ≡ some y
get_elem?-set [] i x y g = absurd (none_ne_some g)
get_elem?-set (z ∷ es) zero x y g = refl
get_elem?-set (z ∷ es) (suc i) x y g = get_elem?-set es i x y g
