-- ===== src/Replication/Leader/Notify.antt =====
-- leader.py: who waits for the high watermark, and who is told.
use pylogstream.Prelude.{
  some, Bool, All, get_elem?, ℕ, zero, suc, ◌+◌, ◌-◌, ◌≤◌, ◌≡◌, refl, ap, ◌∙◌, sym, List, [], ◌∷◌,
  true, false, Bool-cases, inl, inr, arith, Result, ok, err, err-ne-ok, length, subst, ℤ, ◌≤ℤ◌,
  leb_ℤ, ltb_ℤ, ◌⊎◌,
}
use pylogstream.Prelude.Exec.{Done, pure, resume, ◌>>=◌, >>=-eq-ok}
use pylogstream.Log.Reader.{LogState}
use pylogstream.Replication.Waiters.{Waiter, Heap, heappop, heappush}
use pylogstream.Replication.Waiters.Count.{count, heappop-IsPopped}
use pylogstream.Replication.Waiters.Size.{length-heappop, length-heappush}
use pylogstream.Replication.Leader.{
  ReplicaLeader, get_high_watermark, Wait, wait_for_hw, wait_until, put_queue, on_queue, is_due,
  Notifying, set_result, notify_next, notify_loop, told_of, notify_hw_waiters,
}

-- The futures of waiters.
abbrev pub futures_of : List Waiter → List ℕ
futures_of [] = []
futures_of (w ∷ ws) = w.future ∷ futures_of ws

-- The first of the queue, if there is one, waits for an offset above the watermark.
abbrev pub IsQuiet : ℤ → Heap → Type 0
IsQuiet high_watermark [] = Unit
IsQuiet high_watermark (w ∷ ws) = ltb_ℤ high_watermark w.offset ≡ true

-- Who waited for an offset up to the watermark.
abbrev pub IsReached : ℤ → Waiter → Type 0
IsReached high_watermark w = w.offset ≤ℤ high_watermark

-- From a queue on: the futures set are those of waiters who were taken out, the last of them first, each
-- of them for an offset up to the watermark, and each waiter is as often among them and in the queue that
-- is left as it was in the queue before.
abbrev pub IsNotified : ℤ → Heap → Heap → List ℕ → Type 0
IsNotified high_watermark before queue told =
    (popped : List Waiter) × (told ≡ futures_of popped)
    × All (IsReached high_watermark) popped
    × ((P : Waiter → Bool) → count P queue + count P popped ≡ count P before)
    × IsQuiet high_watermark queue

-- Before the loop's next round, which `popped` is taken out for.
abbrev IsNotifying : ℤ → Heap → Notifying → Type 0
IsNotifying high_watermark before s =
    (popped : List Waiter) × (s.1 ≡ futures_of popped)
    × All (IsReached high_watermark) popped
    × ((P : Waiter → Bool) → count P s.0 + count P popped ≡ count P before)

set_result_lem :
    (p : Result Waiter × Heap) (told : List ℕ) (t : Notifying)
    → set_result p told ≡ (ok tt, t)
    → (w : Waiter) × (p ≡ (ok w, t.0)) × (t.1 ≡ w.future ∷ told)
unfolding set_result
set_result_lem (err e, queue) told t h =
    absurd (err-ne-ok (ap (λ (q : Result Done × Notifying). q.0) h))
set_result_lem (ok w, queue) told t h = (
  w,
  ap (λ (q : Result Done × Notifying). (ok w, q.1.0)) h,
  ap (λ (q : Result Done × Notifying). q.1.1) (sym h),
)

due_first :
    (hw : ℤ) (queue : Heap) (w : Waiter)
    → is_due hw queue ≡ true
    → get_elem? queue 0 ≡ some w
    → w.offset ≤ℤ hw
unfolding is_due
due_first hw [] w h e = cc
due_first hw (x ∷ xs) w h e =
    let q : x ≡ w = cc in subst (λ (k : Waiter). k.offset ≤ℤ hw) q (ground arith)

notify_next_lem :
    (high_watermark : ℤ) (before : Heap) (s t : Notifying)
    → is_due high_watermark s.0 ≡ true
    → IsNotifying high_watermark before s
    → notify_next s ≡ (ok tt, t)
    → IsNotifying high_watermark before t × (length t.0 ≡ length s.0 - 1)
unfolding notify_next
notify_next_lem high_watermark before (queue, told) t due (popped, e, all, counts) h =
    let (w, p, q) = set_result_lem (heappop queue) told t h in
    let first : get_elem? queue 0 ≡ some w = (heappop-IsPopped (λ _. true) queue t.0 w p).0 in
    (
      (
        w ∷ popped,
        q ∙ ap (λ (fs : List ℕ). w.future ∷ fs) e,
        (due_first high_watermark queue w due first, all),
        λ P. omega (arith, (heappop-IsPopped P queue t.0 w p).1, counts P),
      ),
      ap (λ (r : Result Waiter × Heap). length r.1) (sym p) ∙ length-heappop queue,
    )

is_due_nonempty : (hw : ℤ) (queue : Heap) → is_due hw queue ≡ true → 1 ≤ length queue
unfolding is_due
is_due_nonempty hw [] h = cc
is_due_nonempty hw (w ∷ ws) h = omega arith

IsQuiet-first : (hw : ℤ) (queue : Heap) → is_due hw queue ≡ false → IsQuiet hw queue
unfolding is_due
IsQuiet-first hw [] h = tt
IsQuiet-first hw (w ∷ ws) h = ground arith

no_one : (hw : ℤ) (queue : Heap) → length queue ≤ 0 → IsQuiet hw queue
no_one hw [] h = tt
no_one hw (w ∷ ws) h = absurd (omega arith)

notify_loop-IsNotified :
    (fuel : ℕ) (high_watermark : ℤ) (before : Heap) (s t : Notifying)
    → length s.0 ≤ fuel
    → IsNotifying high_watermark before s
    → notify_loop fuel high_watermark s ≡ (ok tt, t)
    → IsNotified high_watermark before t.0 t.1
unfolding notify_loop
notify_loop-IsNotified zero high_watermark before s t f (popped, e, all, counts) h =
    let same : s ≡ t = ap (λ (q : Result Done × Notifying). q.1) h in
    subst (λ (k : Notifying). IsNotified high_watermark before k.0 k.1) same
      (popped, e, all, counts, no_one high_watermark s.0 f)
notify_loop-IsNotified (suc fuel) high_watermark before s t f (popped, e, all, counts) h =
    elim (Bool-cases (is_due high_watermark s.0)) [
      | inl due ↦
          let (_, u, p, q) =
            >>=-eq-ok notify_next (λ _. notify_loop fuel high_watermark) s t (rw due at h) in
          let (next, shorter) =
            notify_next_lem high_watermark before s u due (popped, e, all, counts) p in
          let some_left = is_due_nonempty high_watermark s.0 due in
          notify_loop-IsNotified fuel high_watermark before u t (omega arith) next q
      | inr quiet ↦
          let same : s ≡ t = ap (λ (q : Result Done × Notifying). q.1) (rw quiet at h) in
          subst (λ (k : Notifying). IsNotified high_watermark before k.0 k.1) same
            (popped, e, all, counts, IsQuiet-first high_watermark s.0 quiet)
    ]

told_of-eq :
    (l : ReplicaLeader) (p : Result Done × Notifying) (m : ReplicaLeader) (told : List ℕ)
    → told_of l p ≡ (ok tt, (m, told))
    → p ≡ (ok tt, (m.hw_waiter_queue, told))
unfolding told_of
told_of-eq l (r, (queue, ts)) m told h =
    let a : r ≡ ok tt = ap (λ (q : Result Done × (ReplicaLeader × List ℕ)). q.0) h in
    let b : queue ≡ m.hw_waiter_queue =
      ap (λ (q : Result Done × (ReplicaLeader × List ℕ)). q.1.0.hw_waiter_queue) h in
    let c : ts ≡ told = ap (λ (q : Result Done × (ReplicaLeader × List ℕ)). q.1.1) h in
    λ i. (a i, (b i, c i))

-- Where no comparison of waiters raises, the futures that notifying sets are exactly those of waiters who
-- were in the queue for an offset up to the high watermark and are taken out of it; every waiter that the
-- queue had is as often taken out or still there as before; and nobody is left at the front of the queue
-- whose offset the watermark has reached.
pub notify_hw_waiters_lem :
    (high_watermark : ℤ) (l m : ReplicaLeader) (told : List ℕ)
    → notify_hw_waiters high_watermark l ≡ (ok tt, (m, told))
    → IsNotified high_watermark l.hw_waiter_queue m.hw_waiter_queue told
unfolding notify_hw_waiters
notify_hw_waiters_lem high_watermark l m told h =
    let queue = l.hw_waiter_queue in
    notify_loop-IsNotified (length queue) high_watermark queue (queue, []) (m.hw_waiter_queue, told)
      (omega arith) ([], refl, tt, λ P. omega arith)
      (told_of-eq l (notify_loop (length queue) high_watermark (queue, [])) m told h)

put_queue-length :
    (future : ℕ) (m : ReplicaLeader) (p : Result Done × Heap)
    → length
        (resume
          (put_queue m p).0
          (λ _. pure (Wait.waits_for future))
          (put_queue m p).1).1.hw_waiter_queue
      ≡ length p.1
unfolding put_queue
put_queue-length future m (err e, queue) = refl
put_queue-length future m (ok x, queue) = refl

queued-length :
    (w : Waiter) (future : ℕ) (m : ReplicaLeader)
    → length ((on_queue (heappush w) >>= λ _. pure (Wait.waits_for future)) m).1.hw_waiter_queue
      ≡ suc (length m.hw_waiter_queue)
unfolding on_queue
queued-length w future m =
    put_queue-length future m (heappush w m.hw_waiter_queue) ∙ length-heappush w m.hw_waiter_queue

-- A caller that waits for an offset goes on where the new high watermark has reached it, with the queue
-- as it was; otherwise, also where two waiters cannot be compared, there is one waiter more.
pub wait_for_hw_lem :
    (offset high_watermark : ℤ) (future : ℕ) (log : LogState) (l m : ReplicaLeader)
    → get_high_watermark log l ≡ (ok high_watermark, m)
    → ((offset ≤ℤ high_watermark) × (wait_for_hw offset future log l ≡ (ok Wait.reached, m)))
      ⊎ ((ltb_ℤ high_watermark offset ≡ true)
          × (length (wait_for_hw offset future log l).1.hw_waiter_queue
              ≡ suc (length m.hw_waiter_queue)))
unfolding wait_for_hw wait_until
wait_for_hw_lem offset high_watermark future log l m h =
    elim (Bool-cases (leb_ℤ offset high_watermark)) [
      | inl e ↦ inl (ground arith, rw (h, e) refl)
      | inr e ↦ inr (
        ground arith,
        rw (h, e) (queued-length (record { offset = offset; future = future }) future m),
      )
    ]
