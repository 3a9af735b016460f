-- ===== src/Replication/Leader/Waits.antt =====
-- leader.py: a caller of `wait_for_hw` that has to wait is put into the queue.
use pylogstream.Prelude.{
  ℕ, ◌+◌, ◌≡◌, refl, ap, ◌∙◌, sym, List, [], ◌∷◌, Bool, Bool-cases, inl, inr, Result, ok, err,
  ok-injective, ℤ, leb_ℤ,
}
use pylogstream.Prelude.Exec.{Done, pure, >>=-eq-ok}
use pylogstream.Prelude.Keeps.{Keeps, >>=-Keeps}
use pylogstream.Text.{Text}
use pylogstream.Log.Reader.{LogState}
use pylogstream.Replication.Waiters.{Waiter, Heap, heappush}
use pylogstream.Replication.Waiters.Count.{one, count, count-heappush}
use pylogstream.Replication.Leader.{
  ReplicaLeader, Wait, set_offset, least_in_sync, get_log_end_offset, compute_high_watermark,
  raise_watermark, get_high_watermark, put_queue, on_queue, wait_until, wait_for_hw,
}

abbrev queue_of : ReplicaLeader → Heap
queue_of l = l.hw_waiter_queue

-- From one leader to the other, the queue has this waiter more, and all others as before.
abbrev pub IsQueued : Waiter → ReplicaLeader → ReplicaLeader → Type 0
IsQueued w l m = (P : Waiter → Bool) → count P (queue_of m) ≡ count P (queue_of l) + one (P w)

queue_of-least_in_sync :
    (rs : List Text) (l : ReplicaLeader) (leo : Result ℕ)
    → queue_of (least_in_sync rs l leo).1 ≡ queue_of l
unfolding least_in_sync set_offset
queue_of-least_in_sync [] l leo = refl
queue_of-least_in_sync (r ∷ rs) l (err e) = refl
queue_of-least_in_sync (r ∷ rs) l (ok leo) = refl

get_high_watermark-Keeps : (log : LogState) → Keeps queue_of (get_high_watermark log)
unfolding get_high_watermark compute_high_watermark raise_watermark
get_high_watermark-Keeps log =
    >>=-Keeps queue_of {f = compute_high_watermark log}
      (record { kept = λ l. queue_of-least_in_sync l.in_sync_replica l (get_log_end_offset l log) })
      (λ computed. record { kept = λ l. refl })

on_queue-IsQueued : (w : Waiter) (l : ReplicaLeader) → IsQueued w l (on_queue (heappush w) l).1
unfolding on_queue put_queue
on_queue-IsQueued w l = λ P. count-heappush P w l.hw_waiter_queue

not_reached : {f : ℕ} → Wait.reached ≡ Wait.waits_for f → ⊥
not_reached e = cc

same_future : {f g : ℕ} → Wait.waits_for f ≡ Wait.waits_for g → f ≡ g
same_future e = cc

wait_until-IsQueued :
    (offset hw : ℤ) (future f : ℕ) (l m : ReplicaLeader)
    → wait_until offset future hw l ≡ (ok (Wait.waits_for f), m)
    → IsQueued (record { offset = offset; future = f }) l m
unfolding wait_until
wait_until-IsQueued offset hw future f l m h = elim (Bool-cases (leb_ℤ offset hw)) [
  | inl e ↦
      absurd
        (not_reached (ok-injective (ap (λ (x : Result Wait × ReplicaLeader). x.0) (rw e at h))))
  | inr e ↦
      let w : Waiter = record { offset = offset; future = future } in
      let (_, u, p, q) =
        >>=-eq-ok (on_queue (heappush w)) (λ _. pure (Wait.waits_for future)) l m (rw e at h) in
      let same = same_future (ok-injective (ap (λ (x : Result Wait × ReplicaLeader). x.0) q)) in
      let there : (on_queue (heappush w) l).1 ≡ m =
        ap (λ (x : Result Done × ReplicaLeader). x.1) p
        ∙ ap (λ (x : Result Wait × ReplicaLeader). x.1) q in
      λ P.
        ap (λ (x : ReplicaLeader). count P (queue_of x)) (sym there)
        ∙ on_queue-IsQueued w l P
        ∙ ap (λ (g : ℕ). count P (queue_of l) + one (P (record { offset = offset; future = g })))
            same
]

pub wait_for_hw-IsQueued :
    (offset : ℤ) (future f : ℕ) (log : LogState) (l m : ReplicaLeader)
    → wait_for_hw offset future log l ≡ (ok (Wait.waits_for f), m)
    → IsQueued (record { offset = offset; future = f }) l m
unfolding wait_for_hw
wait_for_hw-IsQueued offset future f log l m h =
    let (hw, u, p, q) = >>=-eq-ok (get_high_watermark log) (wait_until offset future) l m h in
    let kept : queue_of u ≡ queue_of l =
      ap (λ (x : Result ℤ × ReplicaLeader). queue_of x.1) (sym p)
      ∙ (get_high_watermark-Keeps log).kept l in
    λ P.
      wait_until-IsQueued offset hw future f u m q P
      ∙ ap (λ (x : Heap). count P x + one (P (record { offset = offset; future = f }))) kept
