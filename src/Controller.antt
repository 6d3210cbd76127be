-- ===== src/Controller.antt =====
-- src/controller.rs: the sessions of `serve`, the choice of one by a selector, and the canary. A
-- connection is its stable id.
pub mod Sessions
pub mod Canary
pub mod Commands
pub mod Admit
pub mod Serve
pub mod Publish
pub mod Startup
pub mod Report
pub mod Listen
use egdod.Prelude.{
  ℕ, zero, suc, ◌+◌, ◌%◌, ◌^◌, Option, none, some, Bool, true, false, not, ◌||◌, List, [], ◌∷◌,
  Bytes, codes, ◌==◌, leb, if◌then◌else◌, bytes_eq, starts_with, keep_if, Result, ok, err,
}
use egdod.Proto.{PathKind}
use egdod.State.Text.{trim_start, trim_end}

pub record Session : Type 0 where
  pub id : ℕ
  pub since : ℕ

-- The map of the sessions: one entry for each peer, in no order that matters.
abbrev pub SessionMap : Type 0
SessionMap = List (Bytes × Session)

unfoldable pub get : SessionMap → Bytes → Option Session
get [] peer = none
get ((k, s) ∷ m) peer = let rest = get m peer in if bytes_eq k peer then some s else rest

unfoldable pub insert : SessionMap → Bytes → Session → SessionMap
insert [] peer s = (peer, s) ∷ []
insert ((k, t) ∷ m) peer s =
    let rest = insert m peer s in if bytes_eq k peer then (k, s) ∷ m else (k, t) ∷ rest

unfoldable pub remove : SessionMap → Bytes → SessionMap
remove [] peer = []
remove ((k, t) ∷ m) peer =
    let rest = remove m peer in if bytes_eq k peer then rest else (k, t) ∷ rest

-- What happens to the map: an approved agent connects, or a connection of one is noticed to be closed.
pub data Event : Type 0 where
  opened : Bytes → Session → Event
  closed : Bytes → ℕ → Event

-- The task that waits for `conn.closed()`: only the connection that holds the slot gives it up.
unfoldable pub forget : SessionMap → Bytes → ℕ → SessionMap
unfolding remove
forget m peer id = elim (get m peer) [ none ↦ m | some s ↦ if s.id == id then remove m peer else m ]

unfoldable pub step : Event → SessionMap → SessionMap
unfolding insert forget
step (opened peer s) m = insert m peer s
step (closed peer id) m = forget m peer id

-- The map after some events, the latest first.
unfoldable pub run : List Event → SessionMap
unfolding step
run [] = []
run (e ∷ es) = step e (run es)

pub data PickError : Type 0 where
  none_connected none_matches : PickError
  many_match : List Bytes → PickError

-- `str::to_lowercase` is a parameter, for what it does beyond ASCII.
module _ (to_lowercase : Bytes → Bytes) (print : Bytes → Bytes) where
  abbrev pub matches : Bytes → Bytes → Bool
  matches selector peer =
      let sel = to_lowercase (trim_end (trim_start selector)) in
      bytes_eq sel [] || bytes_eq sel (codes "any") || starts_with (print peer) sel

  unfoldable pub matching : SessionMap → Bytes → SessionMap
  matching [] selector = []
  matching ((k, s) ∷ m) selector =
      let rest = matching m selector in if matches selector k then (k, s) ∷ rest else rest

  abbrev pub peers : SessionMap → List Bytes
  peers [] = []
  peers ((k, s) ∷ m) = k ∷ peers m

  unfoldable pub pick : SessionMap → Bytes → Result PickError (Bytes × Session)
  unfolding matching
  pick m selector = elim (matching m selector) [
    | [] ↦ elim m [ [] ↦ err none_connected | x ∷ xs ↦ err none_matches ]
    | x ∷ [] ↦ ok x
    | x ∷ y ∷ more ↦ err (many_match (peers (x ∷ y ∷ more)))
  ]

-- The part of status.json that the canary writes.
pub record Health : Type 0 where
  pub dialable : Option Bool
  pub last_probe_ok : Option ℕ
  pub last_probe_path : Option PathKind
  pub last_probe_error : Option Bytes
  pub consecutive_probe_failures : ℕ

-- What a probe gave, and when.
pub data Probe : Type 0 where
  reached : ℕ → PathKind → Probe
  unreachable : Bytes → Probe

pub record Watch : Type 0 where
  pub failures : ℕ
  pub health : Health

-- One round of the loop of `canary`, and whether it asked for the restart. `failures` is a u32.
unfoldable pub round : ℕ → Probe → Watch → Watch × Bool
round restart_after (reached now path) w = (
  record {
    failures = 0;
    health = record {
      dialable = some true;
      last_probe_ok = some now;
      last_probe_path = some path;
      last_probe_error = none;
      consecutive_probe_failures = 0;
    };
  },
  false,
)
round restart_after (unreachable msg) w =
    let failures = (w.failures + 1) % 2 ^ 32 in
    let health : Health = record w.health {
      dialable = some false;
      last_probe_error = some msg;
      consecutive_probe_failures = failures;
    } in
    (record { failures = failures; health = health }, leb restart_after failures)

-- The loop: the restart ends it, and the probes after that are never made.
unfoldable pub canary : ℕ → List Probe → Watch → Watch × Bool
unfolding round
canary restart_after [] w = (w, false)
canary restart_after (p ∷ ps) w =
    let (w', restart) = round restart_after p w in
    let rest = canary restart_after ps w' in if restart then (w', true) else rest
