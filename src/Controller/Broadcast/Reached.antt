-- ===== src/Controller/Broadcast/Reached.antt =====
-- server.py: after a broadcast, every broker that is left can be written to.
use pylogstream.Prelude.{
  ℕ, suc, zero, ◌≤◌, ◌<◌, ◌≡◌, refl, ap, ◌∙◌, sym, subst, ◌⊎◌, List, [], ◌∷◌, ◌++◌, Bool, true,
  false, Bool-cases, inl, inr, Option, none, some, Option-cases, if◌then◌else◌, Result, ok, length,
  All, same, same_iff, arith, text_eq,
}
use pylogstream.Prelude.Dict.{Dict, get, remove}
use pylogstream.Prelude.Exec.{Exec, Done, outside, resume, ◌>>=◌, >>=-eq-ok}
use pylogstream.Text.{Text}
use pylogstream.Protocol.Packets.{Packet, Response}
use pylogstream.Protocol.Encoder.Responses.{encode_response}
use pylogstream.Metastore.Manager.{MetastoreManager, deregister_broker}
use pylogstream.Controller.Broadcast.{
  ActiveBroker, ControllerServer, put_manager, on_manager, list_response, record_sent,
  close_connection, take_off, tell_all, disconnect_found, disconnect_with, disconnect_each,
  broadcast, broadcast_metadata,
}

length-remove : {V : Type 0} (d : Dict Text V) (k : Text) → length (remove d k) ≤ length d
unfolding remove
length-remove [] k = omega arith
length-remove ((j, v) ∷ d) k = ground (arith, length-remove d k)

length-remove_found :
    {V : Type 0} (d : Dict Text V) (k : Text) (v : V)
    → get d k ≡ some v
    → length (remove d k) < length d
unfolding remove get
length-remove_found [] k v h = cc
length-remove_found ((j, w) ∷ d) k v h = elim (Bool-cases (same j k)) [
  | inl e ↦ rw e (omega (arith, length-remove d k))
  | inr e ↦ rw e (omega (arith, length-remove_found d k v (rw e at h)))
]

module _ (hash : Text → ℕ) (alive : ℕ → Bool) where
  abbrev pub IsAlive : Text × ActiveBroker → Type 0
  IsAlive p = alive p.1.connection ≡ true

  abbrev pub IsReached : ControllerServer → Type 0
  IsReached s = All IsAlive s.active_brokers

  -- The brokers that a broadcast does not reach.
  abbrev dead_of : Dict Text ActiveBroker → List Text
  dead_of [] = []
  dead_of ((id, b) ∷ d) = if alive b.connection then dead_of d else id ∷ dead_of d

  dead_of_nobody : (d : Dict Text ActiveBroker) → dead_of d ≡ [] → All IsAlive d
  dead_of_nobody [] h = tt
  dead_of_nobody ((id, b) ∷ d) h = elim (Bool-cases (alive b.connection)) [
    | inl e ↦ (e, dead_of_nobody d (rw e at h))
    | inr e ↦ let k : id ∷ dead_of d ≡ [] = rw e at h in absurd (omega (arith, ap length k))
  ]

  dead_of_first :
      (d : Dict Text ActiveBroker) (x : Text) (xs : List Text)
      → dead_of d ≡ x ∷ xs
      → (b : ActiveBroker) × (get d x ≡ some b)
  unfolding get
  dead_of_first [] x xs h = cc
  dead_of_first ((id, b) ∷ d) x xs h = elim (Bool-cases (same id x)) [
    | inl s ↦ (b, rw s refl)
    | inr s ↦ elim (Bool-cases (alive b.connection)) [
      | inl e ↦ let (c, found) = dead_of_first d x xs (rw e at h) in (c, rw s found)
      | inr e ↦
          let k : id ∷ dead_of d ≡ x ∷ xs = rw e at h in
          let q : id ≡ x = cc in absurd (differs (sym s ∙ (same_iff id x).1 q))
    ]
  ]
    where
      differs : false ≡ true → ⊥
      differs e = cc

  tell_all_lem :
      (p : Packet Response) (d : Dict Text ActiveBroker) (s : ControllerServer)
      → (t : ControllerServer) × (tell_all hash alive p d s ≡ (ok (dead_of d), t))
        × (t.active_brokers ≡ s.active_brokers)
  unfolding tell_all record_sent
  tell_all_lem p [] s = (s, refl, refl)
  tell_all_lem p ((id, b) ∷ d) s = elim (Bool-cases (alive b.connection)) [
    | inl e ↦
        let (t, q, r) = tell_all_lem p d (record s { sent = s.sent ++ (b.connection, p) ∷ [] }) in
        (t, rw e q, r)
    | inr e ↦ let (t, q, r) = tell_all_lem p d s in (t, rw (e, q) refl, r)
  ]

  on_manager-active :
      {A : Type 0} (f : Exec MetastoreManager A) (s : ControllerServer)
      → (on_manager f s).1.active_brokers ≡ s.active_brokers
  unfolding on_manager put_manager
  on_manager-active f s = refl

  -- What a broadcast leaves, of a server with fewer brokers than the fuel.
  abbrev Leaves : ControllerServer → ControllerServer → Type 0
  Leaves s t = IsReached t × (length t.active_brokers ≤ length s.active_brokers)

  module _ (again : Exec ControllerServer Done) (fuel : ℕ)
      (ends : (s t : ControllerServer)
        → length s.active_brokers < fuel
        → again s ≡ (ok tt, t)
        → Leaves s t) where
    disconnect_found-Leaves :
        (id : Text) (b : ActiveBroker) (s t : ControllerServer)
        → length s.active_brokers ≤ fuel
        → get s.active_brokers id ≡ some b
        → disconnect_found hash alive again id (some b) s ≡ (ok tt, t)
        → Leaves s t
    unfolding disconnect_found take_off close_connection
    disconnect_found-Leaves id b s t few found h =
        let off = take_off id b s in
        let (_, u, p, q) =
          >>=-eq-ok (on_manager (deregister_broker hash id)) (λ _. again) off t h in
        let e : u.active_brokers ≡ remove s.active_brokers id =
          sym (ap (λ (x : Result _ × ControllerServer). x.1.active_brokers) p)
          ∙ on_manager-active (deregister_broker hash id) off in
        let fewer = length-remove_found s.active_brokers id b found in
        let (r, l) = ends u t (omega (arith, ap length e)) q in (r, omega (arith, ap length e))

    disconnect_with-Leaves :
        (id : Text) (s t : ControllerServer)
        → length s.active_brokers ≤ fuel
        → IsReached s ⊎ ((b : ActiveBroker) × (get s.active_brokers id ≡ some b))
        → disconnect_with hash alive again id s ≡ (ok tt, t)
        → Leaves s t
    unfolding disconnect_with disconnect_found
    disconnect_with-Leaves id s t few c h = elim (Option-cases (get s.active_brokers id)) [
      | inl missing ↦
          let e : s ≡ t =
            ap (λ (x : Result Done × ControllerServer). x.1)
              (ap (λ o. disconnect_found hash alive again id o s) (sym missing) ∙ h) in
          subst (Leaves s) e (reached missing c, omega arith)
      | inr (b, found) ↦
          disconnect_found-Leaves id b s t few found
            (ap (λ o. disconnect_found hash alive again id o s) (sym found) ∙ h)
    ]
      where
        reached :
            get s.active_brokers id ≡ none
            → IsReached s ⊎ ((b : ActiveBroker) × (get s.active_brokers id ≡ some b))
            → IsReached s
        reached missing (inl r) = r
        reached missing (inr (b, found)) = absurd (none-ne-some b (sym missing ∙ found))
          where
            none-ne-some : (b : ActiveBroker) → Option.none ≡ some b → ⊥
            none-ne-some b e = cc

    disconnect_each-Leaves :
        (ids : List Text) (s t : ControllerServer)
        → length s.active_brokers ≤ fuel
        → IsReached s
        → disconnect_each hash alive again ids s ≡ (ok tt, t)
        → Leaves s t
    unfolding disconnect_each
    disconnect_each-Leaves [] s t few r h =
        let e : s ≡ t = ap (λ (x : Result Done × ControllerServer). x.1) h in
        subst (Leaves s) e (r, omega arith)
    disconnect_each-Leaves (id ∷ ids) s t few r h =
        let (_, u, p, q) =
          >>=-eq-ok (disconnect_with hash alive again id)
            (λ _. disconnect_each hash alive again ids) s t h in
        let (r1, l1) = disconnect_with-Leaves id s u few (inl r) p in
        let (r2, l2) = disconnect_each-Leaves ids u t (omega arith) r1 q in (r2, omega arith)

  -- The first broker that is not reached is gone before the next broadcast.
  after_telling-Leaves :
      (again : Exec ControllerServer Done) (fuel : ℕ)
      → ((s t : ControllerServer)
          → length s.active_brokers < fuel
          → again s ≡ (ok tt, t)
          → Leaves s t)
      → (dead : List Text) (s t : ControllerServer) → length s.active_brokers ≤ fuel
      → dead_of s.active_brokers ≡ dead
      → disconnect_each hash alive again dead s ≡ (ok tt, t)
      → Leaves s t
  unfolding disconnect_each
  after_telling-Leaves again fuel ends [] s t few e h =
      disconnect_each-Leaves again fuel ends [] s t few (dead_of_nobody s.active_brokers e) h
  after_telling-Leaves again fuel ends (id ∷ ids) s t few e h =
      let (_, u, p, q) =
        >>=-eq-ok (disconnect_with hash alive again id) (λ _. disconnect_each hash alive again ids)
          s t h in
      let (r1, l1) =
        disconnect_with-Leaves again fuel ends id s u few
          (inr (dead_of_first s.active_brokers id ids e)) p in
      let (r2, l2) = disconnect_each-Leaves again fuel ends ids u t (omega arith) r1 q in
      (r2, omega arith)

  broadcast-Leaves :
      (fuel : ℕ) (s t : ControllerServer)
      → length s.active_brokers < fuel
      → broadcast hash alive fuel s ≡ (ok tt, t)
      → Leaves s t
  unfolding broadcast
  broadcast-Leaves zero s t few h = absurd (omega (arith, few))
  broadcast-Leaves (suc fuel) s t few h =
      let again = broadcast hash alive fuel in
      let p : Packet Response = record { header = none; body = list_response s.manager } in
      let rest : Exec ControllerServer Done = (do
        dead ← tell_all hash alive p s.active_brokers
        disconnect_each hash alive again dead) in
      let (_, u, same_state, q) = >>=-eq-ok (outside (encode_response p)) (λ _. rest) s t h in
      let q1 : rest s ≡ (ok tt, t) =
        subst (λ (x : ControllerServer). rest x ≡ (ok tt, t))
          (sym (ap (λ (x : Result _ × ControllerServer). x.1) same_state)) q in
      let (v, told, e) = tell_all_lem p s.active_brokers s in
      let q2 : disconnect_each hash alive again (dead_of s.active_brokers) v ≡ (ok tt, t) =
        ap
          (λ (x : Result (List Text) × ControllerServer).
            resume x.0 (disconnect_each hash alive again) x.1)
          (sym told)
        ∙ q1 in
      let (r, l) =
        after_telling-Leaves again fuel (broadcast-Leaves fuel) (dead_of s.active_brokers) v t
          (omega (arith, few, ap length e)) (ap dead_of e) q2 in
      (r, omega (arith, l, ap length e))

-- Where a broadcast ends without an error, every broker that is left has a connection that can be written
-- to: the fuel, one more than the brokers, is enough to disconnect all the others.
pub broadcast_metadata-IsReached :
    (hash : Text → ℕ) (alive : ℕ → Bool) (s t : ControllerServer)
    → broadcast_metadata hash alive s ≡ (ok tt, t)
    → IsReached hash alive t
unfolding broadcast_metadata
broadcast_metadata-IsReached hash alive s t h =
    (broadcast-Leaves hash alive (suc (length s.active_brokers)) s t (omega arith) h).0
