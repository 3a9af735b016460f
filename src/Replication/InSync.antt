-- ===== src/Replication/InSync.antt =====
-- leader.py, the lists of `_update_isr`.
pub mod Closest
pub mod Members
use pylogstream.Prelude.{
  ℕ, zero, suc, Bool, List, [], ◌∷◌, if◌then◌else◌, Result, ok, err, ◌>>=◌, value_error, ℤ, leb_ℤ,
  same,
}
use pylogstream.Text.{Text}

-- `xs.remove(x)` raises a ValueError where there is no `x`.
unfoldable pub remove_name : Text → List Text → Result (List Text)
remove_name x [] = err value_error
remove_name x (y ∷ ys) =
    let rest = (do removed ← remove_name x ys; ok (y ∷ removed)) in if same y x then ok ys else rest

-- A stable sort with `reverse=True`: the greatest key first, equal ones in their order.
unfoldable pub insert_by : (Text → ℤ) → Text → List Text → List Text
insert_by key x [] = x ∷ []
insert_by key x (y ∷ ys) =
    let rest = insert_by key x ys in if leb_ℤ (key y) (key x) then x ∷ y ∷ ys else y ∷ rest

unfoldable pub sort_by : (Text → ℤ) → List Text → List Text
unfolding insert_by
sort_by key [] = []
sort_by key (x ∷ xs) = insert_by key x (sort_by key xs)

-- The loops take the list from its end, so it stands here last item first.
unfoldable pub reverse_onto : List Text → List Text → List Text
reverse_onto [] done = done
reverse_onto (x ∷ xs) done = reverse_onto xs (x ∷ done)

-- The first loop: the items that it moves, and those that are left.
unfoldable pub fill : List Text → ℕ → List Text × List Text
fill [] needed = ([], [])
fill (r ∷ rs) zero = ([], r ∷ rs)
fill (r ∷ rs) (suc needed) = let p = fill rs needed in (r ∷ p.0, p.1)

-- The second loop, which ends at the first replica that lags too much.
unfoldable pub eligible : (Text → Bool) → List Text → List Text
eligible near [] = []
eligible near (r ∷ rs) = let rest = eligible near rs in if near r then r ∷ rest else []
