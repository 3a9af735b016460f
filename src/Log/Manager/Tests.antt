-- ===== src/Log/Manager/Tests.antt =====
-- A new topic, and the theorem about `create_topic` at it.
use pylogstream.Prelude.{ℕ, ◌≡◌, [], refl, inl, none, ok, text_eq}
use pylogstream.Prelude.Dict.{get}
use pylogstream.Text.{codes}
use pylogstream.Log.Registry.{get_latest_offset}
use pylogstream.Log.Registry.Valid.{IsValid, no_topics-IsValid}
use pylogstream.Log.Reader.{LogState}
use pylogstream.Log.Writer.Offsets.{EndsAt}
use pylogstream.Log.Manager.{LogConfig, new_log, create_topic}
use pylogstream.Log.Manager.Topics.{create_topic_lem}

abbrev config : LogConfig
config = record {
  log_dir = codes "d";
  retension_ms = 9;
  rollover_ms = 9;
  max_segment_size = 64;
  init_segment_size = 16;
  segment_size_inc = 16;
  segment_cache_size = 2;
}

new_log-IsValid : IsValid (new_log config 0 []).registry
unfolding new_log
new_log-IsValid = no_topics-IsValid (codes "d") 0

new_log_empty : get (new_log config 0 []).registry.registry (codes "t") ≡ none
unfolding new_log get
new_log_empty = refl

create_topic_lem_example :
    (t : LogState) × (n : ℕ) × (create_topic (codes "t") (new_log config 0 []) ≡ (ok tt, t))
    × EndsAt (new_log config 0 []).registry (codes "t") n
    × (get_latest_offset t.registry (codes "t") ≡ ok n)
    × IsValid t.registry
    × (create_topic (codes "t") t ≡ (ok tt, t))
create_topic_lem_example =
    create_topic_lem (new_log config 0 []) (codes "t") new_log-IsValid (inl new_log_empty)
