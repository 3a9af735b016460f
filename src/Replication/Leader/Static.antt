-- ===== src/Replication/Leader/Static.antt =====
-- leader.py: the leader's topic, its own id and its replica list never change.
use pylogstream.Prelude.{
  ℕ, ◌≡◌, refl, ap, ◌∙◌, sym, List, [], ◌∷◌, Result, ok, err, err-ne-ok, ok-injective, ℤ, pos,
  eqb_ℤ, Bool-cases, inl, inr,
}
use pylogstream.Prelude.Exec.{Exec}
use pylogstream.Prelude.Keeps.{Keeps, >>=-Keeps}
use pylogstream.Text.{Text}
use pylogstream.Metastore.Ring.{contains}
use pylogstream.Protocol.Packets.{Command}
use pylogstream.Log.Registry.{get_latest_offset}
use pylogstream.Log.Reader.{LogState}
use pylogstream.Replication.InSync.{remove_name}
use pylogstream.Replication.Leader.{
  ReplicaLeader, Served, set_offset, least_in_sync, compute_high_watermark, raise_watermark,
  get_high_watermark, started, fresh, start_at, look_at_end, new_leader, on_leader, on_log,
  note_progress, get_log_end_offset, answer, serve, handle, with_isr, update_isr,
}

abbrev pub Static : Type 0
Static = Text × Text × List Text

abbrev pub static : ReplicaLeader → Static
static l = (l.topic, l.id, l.replica_list)

abbrev pub static_of : Served → Static
static_of s = static s.0

static-least_in_sync :
    (rs : List Text) (l : ReplicaLeader) (leo : Result ℕ)
    → static (least_in_sync rs l leo).1 ≡ static l
unfolding least_in_sync set_offset
static-least_in_sync [] l leo = refl
static-least_in_sync (r ∷ rs) l (err e) = refl
static-least_in_sync (r ∷ rs) l (ok leo) = refl

compute_high_watermark-static : (log : LogState) → Keeps static (compute_high_watermark log)
unfolding compute_high_watermark
compute_high_watermark-static log = record {
  kept = λ l. static-least_in_sync l.in_sync_replica l (get_log_end_offset l log);
}

raise_watermark-static : (computed : ℤ) → Keeps static (raise_watermark computed)
unfolding raise_watermark
raise_watermark-static computed = record { kept = λ l. refl }

get_high_watermark-static : (log : LogState) → Keeps static (get_high_watermark log)
unfolding get_high_watermark
get_high_watermark-static log =
    >>=-Keeps static (compute_high_watermark-static log) raise_watermark-static

note_progress-static :
    (r : Text) (offset : ℤ) (leo now : ℕ) (log : LogState)
    → Keeps static (note_progress r offset leo now log)
unfolding note_progress set_offset
note_progress-static r offset leo now log = record {
  kept = λ l. elim (Bool-cases (eqb_ℤ offset (pos leo))) [ inl e ↦ rw e refl | inr e ↦ rw e refl ];
}

on_leader-static :
    {A : Type 0} (f : LogState → Exec ReplicaLeader A)
    → ((log : LogState) → Keeps static (f log))
    → Keeps static_of (on_leader f)
unfolding on_leader
on_leader-static f k = record { kept = λ s. (k s.1).kept s.0 }

on_log-static : {A : Type 0} (f : Exec LogState A) → Keeps static_of (on_log f)
unfolding on_log
on_log-static f = record { kept = λ s. refl }

look_at_end-static : (log : LogState) → Keeps static (look_at_end log)
unfolding look_at_end
look_at_end-static log = record { kept = λ l. refl }

serve-static :
    (topic : Text) (offset size : ℤ) (r : Text) (now : ℕ)
    → Keeps static_of (serve topic offset size r now)
unfolding serve
serve-static topic offset size r now =
    >>=-Keeps static_of (on_leader-static look_at_end look_at_end-static) (λ leo.
      >>=-Keeps static_of (on_leader-static get_high_watermark get_high_watermark-static) (λ hw.
        >>=-Keeps static_of
          (on_leader-static (note_progress r offset leo now)
            (note_progress-static r offset leo now))
          (λ _. on_log-static (answer topic offset size leo hw))))

pub handle-static :
    (cmd : Command) (now : ℕ) (s : Served) → static_of (handle cmd now s).1 ≡ static_of s
unfolding handle
handle-static (Command.replica_fetch topic offset size r) now s =
    elim (Bool-cases (contains r s.0.replica_list)) [
      | inl e ↦ rw e ((serve-static topic offset size r now).kept s)
      | inr e ↦ rw e refl
    ]
handle-static (Command.register) now s = refl
handle-static _ now s = refl

static-with_isr :
    (l : ReplicaLeader) (now : ℕ) (others : Result (List Text))
    → static (with_isr l now others).1 ≡ static l
unfolding with_isr
static-with_isr l now (err e) = refl
static-with_isr l now (ok others) = refl

pub static-update_isr : (now : ℕ) (l : ReplicaLeader) → static (update_isr now l).1 ≡ static l
unfolding update_isr
static-update_isr now l = static-with_isr l now (remove_name l.id l.replica_list)

started-static :
    (p : Result ℤ × ReplicaLeader) (l : ReplicaLeader) → started p ≡ ok l → static l ≡ static p.1
unfolding started
started-static (err e, m) l h = absurd (err-ne-ok h)
started-static (ok computed, m) l h = ap static (sym (ok-injective h))

start_at-static :
    (topic id : Text) (rs : List Text) (a b : ℕ) (log : LogState) (leo : Result ℕ)
    (l : ReplicaLeader)
    → start_at topic id rs a b log leo ≡ ok l
    → static l ≡ (topic, id, rs)
unfolding start_at fresh
start_at-static topic id rs a b log (err e) l h = absurd (err-ne-ok h)
start_at-static topic id rs a b log (ok leo) l h =
    started-static _ l h ∙ (compute_high_watermark-static log).kept (fresh topic id rs a b leo)

-- A new leader is for its topic, with its id and list.
pub new_leader-static :
    (topic id : Text) (rs : List Text) (a b : ℕ) (log : LogState) (l : ReplicaLeader)
    → new_leader topic id rs a b log ≡ ok l
    → static l ≡ (topic, id, rs)
unfolding new_leader
new_leader-static topic id rs a b log l h =
    start_at-static topic id rs a b log (get_latest_offset log.registry topic) l h
