-- ===== src/Metastore/Ring.antt =====
-- manager.py of the metastore, class ConsistentHashRing. `hash` is the method `_hash`, the last 32 bits
-- of an MD5 digest.
pub mod Sorted
use pylogstream.Prelude.{
  ℕ, zero, suc, ◌+◌, Bool, true, false, ◌||◌, List, [], ◌∷◌, ◌++◌, Option, none, some,
  if◌then◌else◌, ltb, leb, ◌==◌, Result, ok, err, ◌>>=◌, key_error, index_error, or_raise, length,
  get_elem?, take, drop, same, ℕ_eq,
}
use pylogstream.Prelude.Dict.{Dict, get, put, remove}
use pylogstream.Text.{Text, codes}
use pylogstream.Text.Decimal.{show_ℕ}

pub record ConsistentHashRing : Type 0 where
  pub replicas : ℕ
  pub ring : Dict ℕ Text
  pub sorted_keys : List ℕ

-- `x in xs` on names
unfoldable pub contains : Text → List Text → Bool
contains x [] = false
contains x (y ∷ ys) = same x y || contains x ys

-- Where `bisect` finds a key: how many keys at the front are smaller. The keys are always in order.
unfoldable pub bisect_left : List ℕ → ℕ → ℕ
bisect_left [] x = 0
bisect_left (k ∷ ks) x = let rest = bisect_left ks x in if ltb k x then suc rest else 0

unfoldable pub bisect_right : List ℕ → ℕ → ℕ
bisect_right [] x = 0
bisect_right (k ∷ ks) x = let rest = bisect_right ks x in if leb k x then suc rest else 0

-- `bisect.insort`: behind the keys that are equal.
unfoldable pub insort : List ℕ → ℕ → List ℕ
unfolding bisect_right
insort ks x = take (bisect_right ks x) ks ++ x ∷ drop (bisect_right ks x) ks

unfoldable pub pop_key : List ℕ → ℕ → List ℕ
pop_key [] i = []
pop_key (k ∷ ks) zero = ks
pop_key (k ∷ ks) (suc i) = k ∷ pop_key ks i

unfoldable pub pop_found : List ℕ → ℕ → ℕ → Option ℕ → List ℕ
unfolding pop_key
pop_found ks x i none = ks
pop_found ks x i (some k) = if k == x then pop_key ks i else ks

-- f"{node_id}-vnode-{i}"
unfoldable pub vnode : Text → ℕ → Text
vnode node_id i = node_id ++ (codes "-vnode-" ++ show_ℕ i)

-- A key that is in the ring is deleted, there and from the keys in order.
unfoldable pub remove_found : ℕ → ConsistentHashRing → Option Text → ConsistentHashRing
unfolding bisect_left pop_found
remove_found key r none = r
remove_found key r (some _) =
    let at = bisect_left r.sorted_keys key in
    record r {
      ring = remove r.ring key;
      sorted_keys = pop_found r.sorted_keys key at (get_elem? r.sorted_keys at);
    }

-- The loop over the keys, from the topic's own on and round the ring.
unfoldable pub pick : Dict ℕ Text → ℕ → List ℕ → List Text → Result (List Text)
unfolding contains
pick ring count [] found = ok found
pick ring count (k ∷ ks) found =
    let more : Text → Result (List Text) = λ node. pick ring count ks (found ++ node ∷ []) in
    let skip = pick ring count ks found in
    or_raise key_error (get ring k) >>= λ node.
    if contains node found
    then skip
    else if length (found ++ node ∷ []) == count
    then ok (found ++ node ∷ [])
    else more node

module _ (hash : Text → ℕ) where
  unfoldable pub remove_key : Text → ℕ → ConsistentHashRing → ConsistentHashRing
  unfolding remove_found vnode
  remove_key node_id i r =
      remove_found (hash (vnode node_id i)) r (get r.ring (hash (vnode node_id i)))

  -- The loop from `i` on, for `n` rounds.
  unfoldable pub remove_keys : Text → ℕ → ℕ → ConsistentHashRing → ConsistentHashRing
  unfolding remove_key
  remove_keys node_id zero i r = r
  remove_keys node_id (suc n) i r = remove_keys node_id n (i + 1) (remove_key node_id i r)

  unfoldable pub remove_node : Text → ConsistentHashRing → ConsistentHashRing
  unfolding remove_keys
  remove_node node_id r = remove_keys node_id r.replicas 0 r

  unfoldable pub add_keys : Text → ℕ → ℕ → ConsistentHashRing → ConsistentHashRing
  unfolding insort vnode
  add_keys node_id zero i r = r
  add_keys node_id (suc n) i r =
      let key = hash (vnode node_id i) in
      add_keys node_id n (i + 1)
        (record r { ring = put r.ring key node_id; sorted_keys = insort r.sorted_keys key })

  unfoldable pub add_node : Text → ConsistentHashRing → ConsistentHashRing
  unfolding remove_node add_keys
  add_node node_id r = add_keys node_id r.replicas 0 (remove_node node_id r)

  -- `idx`, which goes round behind the last key
  unfoldable pub wrapped : ConsistentHashRing → Text → ℕ
  unfolding bisect_right
  wrapped r topic =
      let idx = bisect_right r.sorted_keys (hash topic) in
      if idx == length r.sorted_keys then 0 else idx

  unfoldable pub get_node : Text → ConsistentHashRing → Result (Option Text)
  unfolding wrapped
  get_node topic r = elim r.ring [
    | [] ↦ ok none
    | _ ∷ _ ↦ do
      key ← or_raise index_error (get_elem? r.sorted_keys (wrapped r topic))
      node ← or_raise key_error (get r.ring key)
      ok (some node)
  ]

  unfoldable pub get_replicas : Text → ℕ → ConsistentHashRing → Result (List Text)
  unfolding bisect_right pick
  get_replicas topic count r =
      let idx = bisect_right r.sorted_keys (hash topic) in
      elim r.ring [
        | [] ↦ ok []
        | _ ∷ _ ↦ pick r.ring count (drop idx r.sorted_keys ++ take idx r.sorted_keys) []
      ]
