-- ===== src/Network/Writer/Order.antt =====
-- network/writer.py: no request is lost, doubled or moved on its way to the executor.
use pylogstream.Prelude.{
  ◌≡◌, refl, ap, ◌∙◌, sym, List, [], ◌∷◌, ◌++◌, append-nil, append_assoc, Bool, true, false,
  Bool-cases, inl, inr, some, if◌then◌else◌, same, same_iff, text_eq,
}
use pylogstream.Prelude.Dict.{get, get-put}
use pylogstream.Text.{Text}
use pylogstream.Network.Writer.{
  WriteRequest, WriterConfig, Collector, Writer, or_new, collector_of, put_collector, submit, flush,
  is_full, add_request, take_next, receive, flush_some, timeout,
}

-- The requests of a topic among those that were submitted, and among those in jobs.
abbrev pub of_topic : Text → List WriteRequest → List WriteRequest
of_topic topic [] = []
of_topic topic (r ∷ rs) = if same r.topic topic then r ∷ of_topic topic rs else of_topic topic rs

abbrev pub of_jobs : Text → List (Text × List WriteRequest) → List WriteRequest
of_jobs topic [] = []
of_jobs topic ((t, batch) ∷ jobs) =
    if same t topic then batch ++ of_jobs topic jobs else of_jobs topic jobs

-- What a topic's collector holds: its batch, and behind it its queue.
abbrev pub held : Collector → List WriteRequest
held c = c.batch ++ c.queue

-- What a writer can do, and the requests that were submitted meanwhile, in order.
pub data Reach (cfg : WriterConfig) (w : Writer) : List WriteRequest → Writer → Type 0 where
  start : w.collectors ≡ [] → w.jobs ≡ [] → Reach cfg w [] w
  submitted :
      {rs : List WriteRequest} {v : Writer} (r : WriteRequest)
      → Reach cfg w rs v
      → Reach cfg w (rs ++ r ∷ []) (submit r v)
  received :
      {rs : List WriteRequest} {v : Writer} (topic : Text)
      → Reach cfg w rs v
      → Reach cfg w rs (receive cfg topic v)
  timed_out :
      {rs : List WriteRequest} {v : Writer} (topic : Text)
      → Reach cfg w rs v
      → Reach cfg w rs (timeout topic v)

of_topic-append :
    (t : Text) (xs ys : List WriteRequest) → of_topic t (xs ++ ys) ≡ of_topic t xs ++ of_topic t ys
of_topic-append t [] ys = refl
of_topic-append t (x ∷ xs) ys = elim (Bool-cases (same x.topic t)) [
  | inl e ↦ rw e (ap (λ (l : List WriteRequest). x ∷ l) (of_topic-append t xs ys))
  | inr e ↦ rw e (of_topic-append t xs ys)
]

of_jobs-append :
    (t : Text) (xs ys : List (Text × List WriteRequest))
    → of_jobs t (xs ++ ys) ≡ of_jobs t xs ++ of_jobs t ys
of_jobs-append t [] ys = refl
of_jobs-append t ((u, b) ∷ xs) ys = elim (Bool-cases (same u t)) [
  | inl e ↦ rw e (ap (λ l. b ++ l) (of_jobs-append t xs ys) ∙ sym (append_assoc b _ _))
  | inr e ↦ rw e (of_jobs-append t xs ys)
]

-- All that a topic's requests are in: the jobs, and then the collector.
abbrev all_of : Text → Writer → List WriteRequest
all_of t w = of_jobs t w.jobs ++ held (collector_of w t)

collector_of-put :
    (w : Writer) (k t : Text) (c : Collector)
    → collector_of (put_collector w k c) t ≡ (if same k t then c else collector_of w t)
unfolding collector_of or_new
collector_of-put w k t c = ap or_new (get-put w.collectors k t c) ∙ either (same k t)
  where
    either :
        (b : Bool)
        → or_new (if b then some c else get w.collectors t)
          ≡ (if b then c else or_new (get w.collectors t))
    either true = refl
    either false = refl

module _ (t k : Text) (w : Writer) where
  -- What there would be of the topic, if the other topic's collector were `c`.
  abbrev all_with : Collector → List WriteRequest
  all_with c = of_jobs t w.jobs ++ held (if same k t then c else collector_of w t)

  put_collector-all_with : (c : Collector) → all_of t (put_collector w k c) ≡ all_with c
  put_collector-all_with c =
      ap (λ (d : Collector). of_jobs t w.jobs ++ held d) (collector_of-put w k t c)

  -- Emptying the batch into a job moves nothing.
  flush-all_with : (c : Collector) → all_of t (flush k c w) ≡ all_with c
  unfolding flush collector_of
  flush-all_with c =
      ap (λ (d : Collector). of_jobs t (w.jobs ++ (k, c.batch) ∷ []) ++ held d)
        (collector_of-put w k t emptied)
      ∙ ap (λ l. l ++ held (if same k t then emptied else collector_of w t))
          (of_jobs-append t w.jobs ((k, c.batch) ∷ []))
      ∙ either (same k t)
    where
      emptied : Collector
      emptied = record c { batch = []; batch_bytes = 0 }

      either :
          (b : Bool)
          → (of_jobs t w.jobs ++ (if b then c.batch ++ [] else []))
              ++ held (if b then emptied else collector_of w t)
            ≡ of_jobs t w.jobs ++ held (if b then c else collector_of w t)
      either true =
          append_assoc (of_jobs t w.jobs) (c.batch ++ []) c.queue
          ∙ ap (λ l. of_jobs t w.jobs ++ (l ++ c.queue)) (append-nil c.batch)
      either false = ap (λ l. l ++ held (collector_of w t)) (append-nil (of_jobs t w.jobs))

  -- A collector that holds the same as the one that is there.
  all_with_same : (c : Collector) → held c ≡ held (collector_of w k) → all_with c ≡ all_of t w
  all_with_same c e = either (same k t) refl
    where
      either :
          (b : Bool)
          → same k t ≡ b
          → of_jobs t w.jobs ++ held (if b then c else collector_of w t) ≡ all_of t w
      either true q =
          ap (λ l. of_jobs t w.jobs ++ l)
            (e ∙ ap (λ u. held (collector_of w u)) ((same_iff k t).0 q))
      either false q = refl

submit-all_of :
    (t : Text) (r : WriteRequest) (w : Writer)
    → all_of t (submit r w) ≡ all_of t w ++ of_topic t (r ∷ [])
unfolding submit
submit-all_of t r w = put_collector-all_with t r.topic w longer ∙ either (same r.topic t) refl
  where
    longer : Collector
    longer = let c = collector_of w r.topic in record c { queue = c.queue ++ r ∷ [] }

    either :
        (b : Bool)
        → same r.topic t ≡ b
        → of_jobs t w.jobs ++ held (if b then longer else collector_of w t)
          ≡ (of_jobs t w.jobs ++ held (collector_of w t)) ++ (if b then r ∷ [] else [])
    either true q =
        ap (λ l. of_jobs t w.jobs ++ l)
          (sym (append_assoc (collector_of w r.topic).batch (collector_of w r.topic).queue (r ∷ []))
            ∙ ap (λ u. held (collector_of w u) ++ r ∷ []) ((same_iff r.topic t).0 q))
        ∙ sym (append_assoc (of_jobs t w.jobs) (held (collector_of w t)) (r ∷ []))
    either false q = sym (append-nil _)

add_request-all_of :
    (cfg : WriterConfig) (t k : Text) (old : List WriteRequest) (c : Collector) (w : Writer)
    → held c ≡ held (collector_of w k)
    → all_of t (add_request cfg k old c w) ≡ all_of t w
unfolding add_request
add_request-all_of cfg t k [] c w e = put_collector-all_with t k w c ∙ all_with_same t k w c e
add_request-all_of cfg t k (x ∷ xs) c w e = elim (Bool-cases (is_full cfg c)) [
  | inl f ↦ rw f (flush-all_with t k w c ∙ all_with_same t k w c e)
  | inr f ↦ rw f (put_collector-all_with t k w c ∙ all_with_same t k w c e)
]

receive-all_of :
    (cfg : WriterConfig) (t k : Text) (w : Writer) → all_of t (receive cfg k w) ≡ all_of t w
unfolding receive
receive-all_of cfg t k w = if_running w.running
  where
    taken :
        (queue : List WriteRequest)
        → (collector_of w k).queue ≡ queue
        → all_of t (take_next cfg k (collector_of w k) queue w) ≡ all_of t w
    taken [] e = unfold take_next in refl
    taken (r ∷ rs) e =
        unfold take_next in
        add_request-all_of cfg t k (collector_of w k).batch _ w (
          append_assoc (collector_of w k).batch (r ∷ []) rs
          ∙ ap (λ l. (collector_of w k).batch ++ l) (sym e))

    if_running :
        (b : Bool)
        → all_of t (if b then take_next cfg k (collector_of w k) (collector_of w k).queue w else w)
          ≡ all_of t w
    if_running true = taken (collector_of w k).queue refl
    if_running false = refl

timeout-all_of : (t k : Text) (w : Writer) → all_of t (timeout k w) ≡ all_of t w
unfolding timeout
timeout-all_of t k w = if_running w.running
  where
    flushed :
        (batch : List WriteRequest)
        → all_of t (flush_some k (collector_of w k) batch w) ≡ all_of t w
    flushed [] = unfold flush_some in refl
    flushed (r ∷ rs) =
        unfold flush_some in
        (flush-all_with t k w (collector_of w k) ∙ all_with_same t k w (collector_of w k) refl)

    if_running :
        (b : Bool)
        → all_of t (if b then flush_some k (collector_of w k) (collector_of w k).batch w else w)
          ≡ all_of t w
    if_running true = flushed (collector_of w k).batch
    if_running false = refl

-- However submissions, the collectors' waits and their timeouts follow one another from an empty writer,
-- the requests of a topic in the jobs, then in its batch, then in its queue are those that were
-- submitted for it, each once and in their order.
pub Reach-of_topic :
    {cfg : WriterConfig} {w v : Writer} {rs : List WriteRequest} (t : Text)
    → Reach cfg w rs v
    → of_jobs t v.jobs ++ held (collector_of v t) ≡ of_topic t rs
unfolding collector_of or_new get
Reach-of_topic {w} t (start c j) = rw (j, c) refl
Reach-of_topic t (submitted {rs} {v} r reach) =
    submit-all_of t r v
    ∙ ap (λ l. l ++ of_topic t (r ∷ [])) (Reach-of_topic t reach)
    ∙ sym (of_topic-append t rs (r ∷ []))
Reach-of_topic {cfg} t (received {v} k reach) = receive-all_of cfg t k v ∙ Reach-of_topic t reach
Reach-of_topic t (timed_out {v} k reach) = timeout-all_of t k v ∙ Reach-of_topic t reach
