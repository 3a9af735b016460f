-- ===== src/Replication/Waiters.antt =====
-- The queue of leader.py: pairs of an offset and a future, kept in an array by `heappush` and `heappop`
-- of the standard library. A future is the number that it is told by.
pub mod Size
pub mod Count
use pylogstream.Prelude.{
  ℕ, zero, suc, ◌+◌, ◌-◌, ◌*◌, ◌/◌, Bool, List, [], ◌∷◌, ◌++◌, if◌then◌else◌, ltb, ◌==◌, Result, ok,
  err, index_error, type_error, or_raise, ℤ, ltb_ℤ, leb_ℤ, eqb_ℤ, length, get_elem?, set, take,
  false,
}
use pylogstream.Prelude.Exec.{Done, Exec, pure, outside, ◌>>=◌}

pub record Waiter : Type 0 where
  pub offset : ℤ
  pub future : ℕ

-- Where the offsets are equal, two different futures are compared, which have no order.
unfoldable pub less : Waiter → Waiter → Result Bool
less a b =
    if eqb_ℤ a.offset b.offset
    then if a.future == b.future then ok false else err type_error
    else ok (ltb_ℤ a.offset b.offset)

abbrev pub Heap : Type 0
Heap = List Waiter

-- A method changes the list, also where a comparison raises later.
unfoldable pub at_index : ℕ → Exec Heap Waiter
at_index i heap = (or_raise index_error (get_elem? heap i), heap)

unfoldable pub put_at : ℕ → Waiter → Exec Heap Done
put_at i w heap = (ok tt, set heap i w)

-- `_siftdown(heap, 0, pos)`: up to the root. The position falls, so `pos` is enough fuel.
unfoldable pub sift_down : ℕ → ℕ → Exec Heap Done
unfolding less at_index put_at
sift_down zero pos = pure tt
sift_down (suc fuel) pos =
    let parent_pos = (pos - 1) / 2 in
    let up = sift_down fuel parent_pos in
    if pos == 0 then pure tt else do
      item ← at_index pos
      parent ← at_index parent_pos
      smaller ← outside (less item parent)
      if smaller then (do _ ← put_at parent_pos item; _ ← put_at pos parent; up) else pure tt

unfoldable pub heappush : Waiter → Exec Heap Done
unfolding sift_down
heappush item heap = sift_down (length heap) (length heap) (heap ++ item ∷ [])

-- The smaller of the two children, where there are two.
unfoldable pub smaller_child : ℕ → ℕ → Exec Heap ℕ
unfolding less at_index
smaller_child child_pos size =
    if ltb (child_pos + 1) size
    then (do
      left ← at_index child_pos
      right ← at_index (child_pos + 1)
      smaller ← outside (less left right)
      pure (if smaller then child_pos else child_pos + 1))
    else pure child_pos

-- The loop of `_siftup`: an item goes down to a leaf. The position grows, so `size` is enough fuel.
unfoldable pub sift_to_leaf : ℕ → ℕ → ℕ → Exec Heap ℕ
unfolding smaller_child at_index put_at
sift_to_leaf zero size pos = pure pos
sift_to_leaf (suc fuel) size pos =
    let below : ℕ → Exec Heap ℕ = sift_to_leaf fuel size in
    if ltb (2 * pos + 1) size
    then (do
      child ← smaller_child (2 * pos + 1) size
      item ← at_index pos
      other ← at_index child
      _ ← put_at pos other
      _ ← put_at child item
      below child)
    else pure pos

unfoldable pub replace_root : Waiter → Waiter → ℕ → Exec Heap Waiter
unfolding put_at sift_to_leaf sift_down
replace_root root last size = do
  _ ← put_at 0 last
  leaf ← sift_to_leaf size size 0
  _ ← sift_down leaf leaf
  pure root

unfoldable pub pop_last : Exec Heap Waiter
unfolding at_index
pop_last heap = let p = at_index (length heap - 1) heap in (p.0, take (length heap - 1) heap)

unfoldable pub pop_root : Waiter → Exec Heap Waiter
unfolding at_index replace_root
pop_root last [] = (ok last, [])
pop_root last (root ∷ rest) = replace_root root last (suc (length rest)) (root ∷ rest)

unfoldable pub heappop : Exec Heap Waiter
unfolding pop_last pop_root
heappop = do last ← pop_last; pop_root last
