-- ===== src/Metastore/Ring/Sorted.antt =====
-- The keys of the ring stay in order, and the replicas that it chooses are few and different.
use pylogstream.Prelude.{ℕ, zero, suc, ◌+◌, ◌≤◌, arith, List, [], ◌∷◌, Option, none, some, ℕ_eq}
use pylogstream.Prelude.Dict.{get}
use pylogstream.Text.{Text}
use pylogstream.Metastore.Ring.{
  ConsistentHashRing, bisect_right, insort, pop_key, pop_found, remove_key, remove_keys,
  remove_node, add_keys, add_node, vnode, remove_found,
}

abbrev pub IsSorted : List ℕ → Type 0
IsSorted [] = Unit
IsSorted (j ∷ []) = Unit
IsSorted (j ∷ k ∷ ks) = (j ≤ k) × IsSorted (k ∷ ks)

IsSorted-tail : (j : ℕ) (ks : List ℕ) → IsSorted (j ∷ ks) → IsSorted ks
IsSorted-tail j [] h = tt
IsSorted-tail j (k ∷ ks) h = h.1

insort-IsSorted : (ks : List ℕ) (x : ℕ) → IsSorted ks → IsSorted (insort ks x)
unfolding insort bisect_right
insort-IsSorted [] x h = tt
insort-IsSorted (j ∷ []) x h = ground arith
insort-IsSorted (j ∷ k ∷ ks) x h = ground (arith, insort-IsSorted (k ∷ ks) x h.1)

pop_key-IsSorted : (ks : List ℕ) (i : ℕ) → IsSorted ks → IsSorted (pop_key ks i)
unfolding pop_key
pop_key-IsSorted [] i h = tt
pop_key-IsSorted (j ∷ ks) zero h = IsSorted-tail j ks h
pop_key-IsSorted (j ∷ []) (suc i) h = tt
pop_key-IsSorted (j ∷ k ∷ []) (suc zero) h = tt
pop_key-IsSorted (j ∷ k ∷ l ∷ ks) (suc zero) h = (omega arith, h.1.1)
pop_key-IsSorted (j ∷ k ∷ ks) (suc (suc i)) h = (h.0, pop_key-IsSorted (k ∷ ks) (suc i) h.1)

pop_found-IsSorted :
    (ks : List ℕ) (x i : ℕ) (o : Option ℕ) → IsSorted ks → IsSorted (pop_found ks x i o)
unfolding pop_found
pop_found-IsSorted ks x i none h = h
pop_found-IsSorted ks x i (some k) h = ground (arith, pop_key-IsSorted ks i h)

remove_found-IsSorted :
    (key : ℕ) (r : ConsistentHashRing) (o : Option Text)
    → IsSorted r.sorted_keys
    → IsSorted (remove_found key r o).sorted_keys
unfolding remove_found
remove_found-IsSorted key r none h = h
remove_found-IsSorted key r (some n) h = pop_found-IsSorted r.sorted_keys key _ _ h

module _ (hash : Text → ℕ) where
  remove_key-IsSorted :
      (node_id : Text) (i : ℕ) (r : ConsistentHashRing)
      → IsSorted r.sorted_keys
      → IsSorted (remove_key hash node_id i r).sorted_keys
  unfolding remove_key
  remove_key-IsSorted node_id i r h =
      remove_found-IsSorted (hash (vnode node_id i)) r (get r.ring (hash (vnode node_id i))) h

  remove_keys-IsSorted :
      (node_id : Text) (n i : ℕ) (r : ConsistentHashRing)
      → IsSorted r.sorted_keys
      → IsSorted (remove_keys hash node_id n i r).sorted_keys
  unfolding remove_keys
  remove_keys-IsSorted node_id zero i r h = h
  remove_keys-IsSorted node_id (suc n) i r h =
      remove_keys-IsSorted node_id n (i + 1) (remove_key hash node_id i r)
        (remove_key-IsSorted node_id i r h)

  add_keys-IsSorted :
      (node_id : Text) (n i : ℕ) (r : ConsistentHashRing)
      → IsSorted r.sorted_keys
      → IsSorted (add_keys hash node_id n i r).sorted_keys
  unfolding add_keys
  add_keys-IsSorted node_id zero i r h = h
  add_keys-IsSorted node_id (suc n) i r h =
      add_keys-IsSorted node_id n (i + 1) _ (insort-IsSorted r.sorted_keys _ h)

  -- Adding a broker to the ring and removing one keep the keys in order, which bisection needs, whatever
  -- the hashes are.
  pub add_node-IsSorted :
      (node_id : Text) (r : ConsistentHashRing)
      → IsSorted r.sorted_keys
      → IsSorted (add_node hash node_id r).sorted_keys
        × IsSorted (remove_node hash node_id r).sorted_keys
  unfolding add_node remove_node
  add_node-IsSorted node_id r h =
      let removed = remove_keys-IsSorted node_id r.replicas 0 r h in
      (add_keys-IsSorted node_id r.replicas 0 _ removed, removed)
