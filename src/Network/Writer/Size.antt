-- ===== src/Network/Writer/Size.antt =====
-- network/writer.py: how large a batch gets.
use pylogstream.Prelude.{
  suc, ◌-◌, ◌≤◌, ◌≡◌, refl, ap, sym, subst, List, [], ◌∷◌, Bool, true, false, Bool-cases, inl, inr,
  Option-cases, if◌then◌else◌, arith, max, length, text_eq, All, All-append, length-append,
}
use pylogstream.Prelude.Dict.{get}
use pylogstream.Prelude.Dict.Entries.{All-put, All-get}
use pylogstream.Text.{Text}
use pylogstream.Network.Writer.{
  WriteRequest, WriterConfig, Collector, Writer, or_new, collector_of, put_collector, submit, flush,
  is_full, add_request, take_next, receive, flush_some, timeout,
}
use pylogstream.Network.Writer.Order.{Reach, start, submitted, received, timed_out}

module _ (cfg : WriterConfig) where
  abbrev IsSmall : Text × Collector → Type 0
  IsSmall p = length p.1.batch ≤ max 1 (cfg.max_batch_size - 1)

  abbrev pub IsJob : Text × List WriteRequest → Type 0
  IsJob p = (1 ≤ length p.1) × (length p.1 ≤ max 2 cfg.max_batch_size)

  record IsBounded (w : Writer) : Type 0 where
    small : All IsSmall w.collectors
    jobs : All IsJob w.jobs

  collector_of-IsSmall : (w : Writer) (k : Text) → IsBounded w → IsSmall (k, collector_of w k)
  unfolding collector_of or_new
  collector_of-IsSmall w k h = elim (Option-cases (get w.collectors k)) [
    | inl e ↦ rw e (omega arith)
    | inr (c, e) ↦ rw e (All-get IsSmall w.collectors k c h.small e)
  ]

  put_collector-IsBounded :
      (w : Writer) (k : Text) (c : Collector)
      → IsSmall (k, c)
      → IsBounded w
      → IsBounded (put_collector w k c)
  put_collector-IsBounded w k c s h = record {
    small = All-put IsSmall w.collectors k c s h.small;
    jobs = h.jobs;
  }

  flush-IsBounded :
      (w : Writer) (k : Text) (c : Collector)
      → IsJob (k, c.batch)
      → IsBounded w
      → IsBounded (flush k c w)
  unfolding flush
  flush-IsBounded w k c j h = record {
    small =
        All-put IsSmall w.collectors k (record c { batch = []; batch_bytes = 0 }) (omega arith)
          h.small;
    jobs = All-append IsJob w.jobs ((k, c.batch) ∷ []) h.jobs (j, tt);
  }

  add_request-IsBounded :
      (w : Writer) (k : Text) (old : List WriteRequest) (c : Collector)
      → length old ≤ max 1 (cfg.max_batch_size - 1)
      → length c.batch ≡ suc (length old)
      → IsBounded w
      → IsBounded (add_request cfg k old c w)
  unfolding add_request is_full
  add_request-IsBounded w k [] c s e h = put_collector-IsBounded w k c (omega arith) h
  add_request-IsBounded w k (x ∷ xs) c s e h = elim (Bool-cases (is_full cfg c)) [
    | inl f ↦ rw f (flush-IsBounded w k c (omega arith) h)
    | inr f ↦ rw f (put_collector-IsBounded w k c (ground arith) h)
  ]

  receive-IsBounded : (w : Writer) (k : Text) → IsBounded w → IsBounded (receive cfg k w)
  unfolding receive
  receive-IsBounded w k h = if_running w.running
    where
      taken : (queue : List WriteRequest) → IsBounded (take_next cfg k (collector_of w k) queue w)
      taken [] = unfold take_next in h
      taken (r ∷ rs) =
          unfold take_next in
          add_request-IsBounded w k (collector_of w k).batch _ (collector_of-IsSmall w k h)
            (omega (arith, length-append (collector_of w k).batch (r ∷ []))) h

      if_running :
          (b : Bool)
          → IsBounded
              (if b then take_next cfg k (collector_of w k) (collector_of w k).queue w else w)
      if_running true = taken (collector_of w k).queue
      if_running false = h

  timeout-IsBounded : (w : Writer) (k : Text) → IsBounded w → IsBounded (timeout k w)
  unfolding timeout
  timeout-IsBounded w k h = if_running w.running
    where
      flushed :
          (batch : List WriteRequest)
          → (collector_of w k).batch ≡ batch
          → IsBounded (flush_some k (collector_of w k) batch w)
      flushed [] e = unfold flush_some in h
      flushed (r ∷ rs) e =
          unfold flush_some in
          flush-IsBounded w k (collector_of w k)
            (omega (arith, ap length e, collector_of-IsSmall w k h)) h

      if_running :
          (b : Bool)
          → IsBounded (if b then flush_some k (collector_of w k) (collector_of w k).batch w else w)
      if_running true = flushed (collector_of w k).batch refl
      if_running false = h

  Reach-IsBounded : {w v : Writer} {rs : List WriteRequest} → Reach cfg w rs v → IsBounded v
  unfolding submit
  Reach-IsBounded (start c j) = record {
    small = subst (All IsSmall) (sym c) tt;
    jobs = subst (All IsJob) (sym j) tt;
  }
  Reach-IsBounded (submitted {v} r reach) =
      let h = Reach-IsBounded reach in
      put_collector-IsBounded v r.topic _ (collector_of-IsSmall v r.topic h) h
  Reach-IsBounded (received {v} k reach) = receive-IsBounded v k (Reach-IsBounded reach)
  Reach-IsBounded (timed_out {v} k reach) = timeout-IsBounded v k (Reach-IsBounded reach)

  -- Every batch that a writer has given to the executor, started empty, has a request, and at most the
  -- configured number of them; where that number is 0 or 1, at most two.
  pub Reach-IsJob : {w v : Writer} {rs : List WriteRequest} → Reach cfg w rs v → All IsJob v.jobs
  Reach-IsJob reach = (Reach-IsBounded reach).jobs
