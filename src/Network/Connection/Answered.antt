-- ===== src/Network/Connection/Answered.antt =====
-- network/controller.py: what the futures of a connection are set to.
use pylogstream.Prelude.{
  ℕ, ◌≡◌, refl, ap, ◌∙◌, sym, subst, List, [], ◌∷◌, ◌++◌, Bool, true, false, ◌&&◌, Option, none,
  some, Result, ok, err, Error, All, All-append, text_eq,
}
use pylogstream.Prelude.Dict.{Dict, get}
use pylogstream.Prelude.Dict.Entries.{All-remove, All-get}
use pylogstream.Prelude.Exec.{Done}
use pylogstream.Prelude.Keeps.{Preserves, pure-Preserves}
use pylogstream.Text.{Text}
use pylogstream.Protocol.Packets.{Packet, Command, Response}
use pylogstream.Replication.Manager.{apply_metadata_list}
use pylogstream.Network.Connection.{
  Outcome, ControllerConnection, settle, with_header, send_command, waiting_for, pending_for,
  handle_response, handle_reading, reader_round, settle_all, fail_pending, join, joined,
  retry_round, close,
}
use pylogstream.Network.Connection.Tracked.{
  Request, IsIn, IsSettled, IsTracked, requests, IsTracked-longer, Tracked, if_state-Tracked,
  on_manager-Preserves, handle_disconnect-Preserves, handle_unsolicited-Preserves,
  send_command-Preserves,
}

module _ (rs : List Request) where
  waiting_for_lem :
      (key : Text) (o : Option ℕ) (d : Dict Text ℕ) (id : Text) (future : ℕ)
      → get d key ≡ o
      → waiting_for key o ≡ some (id, future)
      → (some key ≡ some id) × (get d id ≡ some future)
  unfolding waiting_for
  waiting_for_lem key none d id future g k = cc
  waiting_for_lem key (some f) d id future g k =
      let same_key : key ≡ id = cc in
      let value : f ≡ future = cc in
      (ap some same_key, ap (get d) (sym same_key) ∙ g ∙ ap some value)

  pending_for_lem :
      (header : Option Text) (d : Dict Text ℕ) (id : Text) (future : ℕ)
      → pending_for header d ≡ some (id, future)
      → (header ≡ some id) × (get d id ≡ some future)
  unfolding pending_for
  pending_for_lem none d id future h = cc
  pending_for_lem (some []) d id future h = cc
  pending_for_lem (some (x ∷ key)) d id future h =
      waiting_for_lem (x ∷ key) (get d (x ∷ key)) d id future refl h

  handle_response-IsTracked :
      (connect : Text → Result Done) (p : Packet Response) (o : Option (Text × ℕ))
      (s : ControllerConnection)
      → pending_for p.header s.pending_reads ≡ o
      → Tracked rs s
      → Tracked rs (handle_response connect p o s).1
  unfolding handle_response settle
  handle_response-IsTracked connect p none s e h =
      (handle_unsolicited-Preserves rs connect p.body).preserved s h
  handle_response-IsTracked connect p (some (id, future)) s e h =
      let (header, found) = pending_for_lem p.header s.pending_reads id future e in
      record {
        pending = All-remove (λ r. IsIn r rs) s.pending_reads id h.pending;
        settled =
            All-append (IsSettled rs) s.settled ((future, Outcome.answered p) ∷ []) h.settled (
              (id, header, All-get (λ r. IsIn r rs) s.pending_reads id future h.pending found),
              tt,
            );
      }

  handle_reading-Preserves :
      (connect : Text → Result Done) (r : Result (Option (Packet Response)))
      → Preserves (Tracked rs) (handle_reading connect r)
  unfolding handle_reading
  handle_reading-Preserves connect (ok (some p)) = record {
    preserved =
        λ s h. handle_response-IsTracked connect p (pending_for p.header s.pending_reads) s refl h;
  }
  handle_reading-Preserves connect (ok none) = record {
    preserved = (handle_disconnect-Preserves rs).preserved;
  }
  handle_reading-Preserves connect (err Error.incomplete_read) = record {
    preserved = (handle_disconnect-Preserves rs).preserved;
  }
  handle_reading-Preserves connect (err Error.os_error) = record {
    preserved = (handle_disconnect-Preserves rs).preserved;
  }
  handle_reading-Preserves connect (err _) = record { preserved = λ s h. h }

  reader_round-IsTracked :
      (connect : Text → Result Done) (r : Result (Option (Packet Response)))
      (s : ControllerConnection)
      → Tracked rs s
      → Tracked rs (reader_round connect r s)
  unfolding reader_round
  reader_round-IsTracked connect r s h =
      if_state-Tracked rs s.connected ((handle_reading-Preserves connect r).preserved s h) h

  -- What is no answer needs no more than the request.
  settle_all-IsSettled :
      (d : Dict Text ℕ) (outcome : Outcome)
      → ((id : Text) (future : ℕ) → IsIn (id, future) rs → IsSettled rs (future, outcome))
      → All (λ r. IsIn r rs) d
      → All (IsSettled rs) (settle_all d outcome)
  unfolding settle_all
  settle_all-IsSettled [] outcome f h = tt
  settle_all-IsSettled ((id, future) ∷ d) outcome f (h, hs) =
      (f id future h, settle_all-IsSettled d outcome f hs)

  fail_pending-IsTracked : (s : ControllerConnection) → Tracked rs s → Tracked rs (fail_pending s)
  unfolding fail_pending
  fail_pending-IsTracked s h = record {
    pending = tt;
    settled =
        All-append (IsSettled rs) s.settled (settle_all s.pending_reads Outcome.lost) h.settled
          (settle_all-IsSettled s.pending_reads Outcome.lost (λ id future i. (id, i)) h.pending);
  }

  join-Preserves :
      (connect : Text → Result Done) (first : Option Response)
      → Preserves (Tracked rs) (join connect first)
  unfolding join
  join-Preserves connect (some (Response.topic_meta_data_list metas)) =
      on_manager-Preserves rs (apply_metadata_list connect metas)
  join-Preserves connect none = pure-Preserves (Tracked rs) tt
  join-Preserves connect (some _) = pure-Preserves (Tracked rs) tt

  joined-IsTracked :
      (p : Result Done × ControllerConnection) → Tracked rs p.1 → Tracked rs (joined p)
  unfolding joined
  joined-IsTracked (err e, s) h = h
  joined-IsTracked (ok _, s) h = record { pending = h.pending; settled = h.settled }

  retry_round-IsTracked :
      (connect : Text → Result Done) (first : Option Response) (s : ControllerConnection)
      → Tracked rs s
      → Tracked rs (retry_round connect first s)
  unfolding retry_round
  retry_round-IsTracked connect first s h =
      if_state-Tracked rs (s.connected && s.disconnect_event)
        (joined-IsTracked (join connect first (fail_pending s))
          ((join-Preserves connect first).preserved (fail_pending s) (fail_pending-IsTracked s h)))
        h

  close-IsTracked : (s : ControllerConnection) → Tracked rs s → Tracked rs (close s)
  unfolding close
  close-IsTracked s h = record {
    pending = tt;
    settled =
        All-append (IsSettled rs) s.settled (settle_all s.pending_reads Outcome.cancelled) h.settled
          (settle_all-IsSettled s.pending_reads Outcome.cancelled (λ id future i. (id, i))
            h.pending);
  }

-- What a connection does, and the requests that were made meanwhile, in order.
pub data Reach (s : ControllerConnection) : List Request → ControllerConnection → Type 0 where
  start : s.pending_reads ≡ [] → s.settled ≡ [] → Reach s [] s
  sends :
      {rs : List Request} {t : ControllerConnection} (alive : Bool) (id : Text) (future : ℕ)
      (cmd : Packet Command) (await_response : Bool)
      → Reach s rs t
      → Reach s
          (rs ++ requests (with_header id await_response cmd).header await_response future)
          (send_command alive id future cmd await_response t).1
  reads :
      {rs : List Request} {t : ControllerConnection} (connect : Text → Result Done)
      (reading : Result (Option (Packet Response)))
      → Reach s rs t
      → Reach s rs (reader_round connect reading t)
  retries :
      {rs : List Request} {t : ControllerConnection} (connect : Text → Result Done)
      (first : Option Response)
      → Reach s rs t
      → Reach s rs (retry_round connect first t)
  closes : {rs : List Request} {t : ControllerConnection} → Reach s rs t → Reach s rs (close t)

requests-IsIn :
    (rs : List Request) (header : Option Text) (a : Bool) (future : ℕ)
    → All (λ r. IsIn r (rs ++ requests header a future)) (requests header a future)
requests-IsIn rs none a future = tt
requests-IsIn rs (some id) true future = ((rs, [], refl), tt)
requests-IsIn rs (some id) false future = tt

Reach-IsTracked : {s t : ControllerConnection} {rs : List Request} → Reach s rs t → IsTracked rs t
Reach-IsTracked {s} (start p q) = record {
  pending = subst (All (λ r. IsIn r [])) (sym p) tt;
  settled = subst (All (IsSettled [])) (sym q) tt;
}
Reach-IsTracked (sends {rs} {t} alive id future cmd a r) =
    let header = (with_header id a cmd).header in
    let new = requests header a future in
    (send_command-Preserves (rs ++ new) alive id future cmd a
        (requests-IsIn rs header a future)).preserved
      t (IsTracked-longer rs new t (Reach-IsTracked r))
Reach-IsTracked (reads {rs} {t} connect reading r) =
    reader_round-IsTracked rs connect reading t (Reach-IsTracked r)
Reach-IsTracked (retries {rs} {t} connect first r) =
    retry_round-IsTracked rs connect first t (Reach-IsTracked r)
Reach-IsTracked (closes {rs} {t} r) = close-IsTracked rs t (Reach-IsTracked r)

-- However commands, the reader's rounds, reconnections and a close follow one another, from a connection on
-- that waits for nothing: every future that was set belongs to a request that was made, and where it was
-- set to a response, that response has the correlation id of the request.
pub Reach-IsSettled :
    {s t : ControllerConnection} {rs : List Request} → Reach s rs t → All (IsSettled rs) t.settled
Reach-IsSettled r = (Reach-IsTracked r).settled
