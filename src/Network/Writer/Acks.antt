-- ===== src/Network/Writer/Acks.antt =====
-- network/writer.py: each future of a batch is set to the offset of its own record.
use pylogstream.Prelude.{
  subst, ℕ, ◌+◌, ◌≡◌, refl, ap, ◌∙◌, sym, List, [], ◌∷◌, Option, none, some, Result, ok, length,
  ok-injective,
}
use pylogstream.Prelude.Exec.{pure, >>=-eq-ok}
use pylogstream.Text.{Text}
use pylogstream.Log.Registry.Valid.{IsValid}
use pylogstream.Log.Writer.Offsets.{EndsAt}
use pylogstream.Log.Writer.Batches.{starts, end, write_batch-starts}
use pylogstream.Log.Reader.{LogState}
use pylogstream.Log.Manager.{LogConfig, append_batch, policy}
use pylogstream.Network.Writer.{WriteRequest, payloads, acknowledge, flush_batch}

-- The futures of requests whose records stand one behind another from `n` on, each with the place where its
-- record begins.
abbrev pub placed : ℕ → List (ℕ × WriteRequest) → List (ℕ × ℕ)
placed n [] = []
placed n ((now, req) ∷ reqs) =
    let behind = placed (n + (4 + length req.payload)) reqs in
    elim req.callback [ none ↦ behind | some future ↦ (future, n) ∷ behind ]

acknowledge-starts :
    (n : ℕ) (batch : List (ℕ × WriteRequest))
    → acknowledge (starts n (payloads batch)) batch ≡ placed n batch
unfolding acknowledge payloads
acknowledge-starts n [] = refl
acknowledge-starts n ((now, req) ∷ reqs) =
    either req.callback (acknowledge-starts (n + (4 + length req.payload)) reqs)
  where
    either :
        (o : Option ℕ)
        → acknowledge (starts (n + (4 + length req.payload)) (payloads reqs)) reqs
          ≡ placed (n + (4 + length req.payload)) reqs
        → (elim o [
          | none ↦ acknowledge (starts (n + (4 + length req.payload)) (payloads reqs)) reqs
          | some future ↦
              (future, n) ∷ acknowledge (starts (n + (4 + length req.payload)) (payloads reqs)) reqs
        ])
          ≡ (elim o [
            | none ↦ placed (n + (4 + length req.payload)) reqs
            | some future ↦ (future, n) ∷ placed (n + (4 + length req.payload)) reqs
          ])
    either none e = e
    either (some future) e = ap (λ (l : List (ℕ × ℕ)). (future, n) ∷ l) e

-- A batch that is written without an error, to a topic that ends at `n`: each future is set to the place
-- where the record of its own request begins, the records standing one behind another from `n` on; and
-- the topic ends behind the last of them, with every topic's segments in order.
pub flush_batch_lem :
    (cfg : LogConfig) (topic : Text) (batch : List (ℕ × WriteRequest)) (s t : LogState) (n : ℕ)
    (told : List (ℕ × ℕ))
    → IsValid s.registry
    → EndsAt s.registry topic n
    → flush_batch cfg topic batch s ≡ (ok told, t)
    → (told ≡ placed n batch)
      × EndsAt t.registry topic (end n (payloads batch))
      × IsValid t.registry
unfolding flush_batch append_batch
flush_batch_lem cfg topic batch s t n told v e h =
    let (offsets, u, p, q) =
      >>=-eq-ok (append_batch cfg topic (payloads batch))
        (λ offsets. pure (acknowledge offsets batch)) s t h in
    let (at, ends, valid) =
      write_batch-starts (policy cfg) topic (payloads batch) s u n offsets v e p in
    let same : u ≡ t = ap (λ (x : Result (List (ℕ × ℕ)) × LogState). x.1) q in
    (
      sym (ok-injective (ap (λ (x : Result (List (ℕ × ℕ)) × LogState). x.0) q))
          ∙ ap (λ l. acknowledge l batch) at
          ∙ acknowledge-starts n batch,
      subst (λ (k : LogState). EndsAt k.registry topic (end n (payloads batch))) same ends,
      subst (λ (k : LogState). IsValid k.registry) same valid,
    )
