-- ===== src/Network/Tests.antt =====
-- A writer that batches two requests at a time, and the theorems at it.
mod Clients
mod Controllers
use pylogstream.Prelude.{ℕ, ◌≡◌, refl, List, [], ◌∷◌, ◌++◌, none, true, All}
use pylogstream.Prelude.Dict.{get, put}
use pylogstream.Text.{codes}
use pylogstream.Network.Writer.{
  take_next, WriteRequest, WriterConfig, Writer, collector_of, submit, receive, timeout,
}
use pylogstream.Network.Writer.Order.{
  Reach, start, submitted, received, timed_out, of_topic, of_jobs, held, Reach-of_topic,
}
use pylogstream.Network.Writer.Size.{IsJob, Reach-IsJob}

abbrev request : List ℕ → WriteRequest
request payload = record {
  producer_id = codes "p";
  topic = codes "t";
  payload = payload;
  created_at = 0;
  callback = none;
}

abbrev config : WriterConfig
config = record { max_batch_size = 2; max_batch_bytes = 100 }

abbrev empty : Writer
empty = record { collectors = []; jobs = []; running = true }

-- Three requests: two of them fill a batch, and the third waits for the timeout.
abbrev full : Writer
full =
    let asked =
      submit (request (3 ∷ [])) (submit (request (2 ∷ [])) (submit (request (1 ∷ [])) empty)) in
    receive config (codes "t") (receive config (codes "t") (receive config (codes "t") asked))

full_reached : Reach config empty (request (1 ∷ []) ∷ request (2 ∷ []) ∷ request (3 ∷ []) ∷ []) full
full_reached = received (codes "t") (
    received (codes "t") (
      received (codes "t") (
        submitted (request (3 ∷ []))
          (submitted (request (2 ∷ [])) (submitted (request (1 ∷ [])) (start refl refl))))))

Reach-of_topic_example :
    of_jobs (codes "t") full.jobs ++ held (collector_of full (codes "t"))
    ≡ of_topic (codes "t") (request (1 ∷ []) ∷ request (2 ∷ []) ∷ request (3 ∷ []) ∷ [])
Reach-of_topic_example = Reach-of_topic (codes "t") full_reached

Reach-IsJob_example : All (IsJob config) (timeout (codes "t") full).jobs
Reach-IsJob_example = Reach-IsJob config (timed_out (codes "t") full_reached)

-- The first two are one batch, and the timeout makes the third another.
two_batches :
    (timeout (codes "t") full).jobs
    ≡ (codes "t", request (1 ∷ []) ∷ request (2 ∷ []) ∷ [])
      ∷ (codes "t", request (3 ∷ []) ∷ [])
      ∷ []
unfolding timeout receive submit collector_of take_next get put
two_batches = refl
