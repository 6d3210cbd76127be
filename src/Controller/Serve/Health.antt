-- ===== src/Controller/Serve/Health.antt =====
-- The canary's rounds in `serve`, beside those of Controller.
use egdod.Prelude.{ℕ, ◌≡◌, refl, Bytes}
use egdod.Proto.{Codec, PathKind}
use egdod.State.Dir.{StateDir}
use egdod.State.Status.{Status}
use egdod.Controller.{Session, Probe, reached, unreachable, Health, Watch, round}
use egdod.Controller.Serve.{Live, Tick, update, publish_sessions, canary_round}

abbrev health_of : Status → Health
health_of s = record {
  dialable = s.dialable;
  last_probe_ok = s.last_probe_ok_unix;
  last_probe_path = s.last_probe_path;
  last_probe_error = s.last_probe_error;
  consecutive_probe_failures = s.consecutive_probe_failures;
}

abbrev watch_of : ℕ → Status → Watch
watch_of failures s = record { failures = failures; health = health_of s }

-- What a round leaves in the status and in the count, and whether it asks for a restart, is what
-- `round` says of the two: the publication that comes first touches neither.
canary_round-round :
    (json : Codec Status) (dir : StateDir) (pid : Bytes) (report : Session → PathKind × Bytes)
    (print : Bytes → Bytes) (restart_after failures : ℕ) (t : Tick) (p : Probe) (l : Live)
    → let (failures', (l', restart)) =
        canary_round json dir pid report print restart_after failures t p l in
      let (w', restart') = round restart_after p (watch_of failures l.status) in
      (watch_of failures' l'.status ≡ w') × (restart ≡ restart')
unfolding canary_round publish_sessions update round
canary_round-round json dir pid report print restart_after failures t (reached now path) l =
    (refl, refl)
canary_round-round json dir pid report print restart_after failures t (unreachable msg) l =
    (refl, refl)
