-- ===== src/Tests/Controllers.antt =====
-- The controller's publications, its start, its status as a command reports it, and a search for a
-- Bluetooth characteristic.
use egdod.Prelude.{
  ℕ, zero, suc, ◌+◌, ◌≡◌, refl, sym, Option, none, some, Bool, true, false, List, [], ◌∷◌, Bytes,
  codes, Result, ok, err, arith, ◌&&◌, if◌then◌else◌, inl, inr, ◌⊎◌, ◌==◌, Bool-cases,
}
use egdod.Proto.{Codec, PathKind, relayed}
use egdod.Net.{ProbeMode, given}
use egdod.State.Dir.{StateDir}
use egdod.State.Status.{SessionInfo, Status, read_status}
use egdod.Ble.Discovery.{
  BluerError, services_unresolved, RemoteService, RemoteCharacteristic, DiscoveryError,
  characteristic,
}
use egdod.Ble.Discovery.Polling.{Paced}
use egdod.Ble.Discovery.Patience.{IsRight, characteristic-some}
use egdod.Controller.{Session, Event, opened, step, reached}
use egdod.Controller.Admit.{exit_undialable}
use egdod.Controller.Publish.{Board, Steps, none_yet, later, changes, at_start}
use egdod.Controller.Publish.Overlap.{IsOf, Steps-IsOf, Steps-stale}
use egdod.Controller.Startup
use egdod.Controller.Startup.{
  misses, Place, Act, stops, StepsUnder, away, serving, answers, goes_on, asks, with_phase,
  turned_away, asked,
}
use egdod.Controller.Startup.Alone.{
  Step-overlooked, is_apart, ServesAlone, StepsUnder-ServesAlone, StepsUnder-both,
}
use egdod.Controller.Serve.{Live, Tick, first_status, canary_round, publish_sessions, update}
use egdod.Controller.Report.{status, writer_alive}
use egdod.Controller.Report.Dialable.{is_reached, round_status, status-canary_round}

abbrev joins : Event
joins = opened (codes "a") (record { id = 1; since = 5 })

abbrev one_joined : Board
one_joined = record at_start { sessions = step joins [] }

a_join : Steps at_start one_joined
a_join = later none_yet (changes at_start joins)

Steps-IsOf_example : (es : List Event) × IsOf es one_joined
Steps-IsOf_example = Steps-IsOf one_joined a_join

Steps-stale_example :
    (c : Board) × Steps at_start c
    × (c.sessions ≡ step joins at_start.sessions)
    × (c.listed ≡ at_start.sessions)
    × (c.under_way ≡ [])
Steps-stale_example = Steps-stale at_start joins refl

-- Process 1 serves, and process 2 starts.
abbrev one_serves : Place
one_serves = record { socket = some 1; phase = λ p. if p == 1 then serving else away }

one_serves-ServesAlone : ServesAlone 1 one_serves
one_serves-ServesAlone = (refl, refl, λ q. apart q)
  where
    apart : (q : ℕ) → (q ≡ 1) ⊎ (is_apart (one_serves.phase q) ≡ true)
    apart q = elim (Bool-cases (q == 1)) [
      | inl same ↦ inl (ground (arith, same))
      | inr other ↦ inr (rw other)
    ]

abbrev two_asks : Place
two_asks = record one_serves {
  phase = with_phase one_serves 2 (if answers one_serves then turned_away else asked);
}

StepsUnder-ServesAlone_example : ServesAlone 1 two_asks
StepsUnder-ServesAlone_example =
    StepsUnder-ServesAlone 1 one_serves two_asks one_serves-ServesAlone (
      Startup.later Startup.none_yet (goes_on 2) (λ e. cc e) (λ q e. cc e) (asks one_serves 2 refl))

Step-overlooked_example :
    (w1 : Place) × (w2 : Place) × (v : Place) × Startup.Step (misses 2) one_serves w1
    × Startup.Step (goes_on 2) w1 w2
    × Startup.Step (goes_on 2) w2 v
    × (v.phase 1 ≡ serving)
    × (v.phase 2 ≡ serving)
    × (v.socket ≡ some 2)
Step-overlooked_example =
    Step-overlooked 1 2 one_serves (λ e. omega (arith, e)) one_serves-ServesAlone refl

-- Nobody serves, and two processes start.
abbrev nobody : Place
nobody = record { socket = none; phase = λ p. away }

nobody-answers : answers nobody ≡ false
unfolding answers
nobody-answers = refl

StepsUnder-both_example :
    (v : Place) × StepsUnder 3 nobody v
    × (v.phase 1 ≡ serving)
    × (v.phase 2 ≡ serving)
    × (v.socket ≡ some 2)
StepsUnder-both_example =
    StepsUnder-both 1 2 3 nobody (λ e. omega (arith, e)) refl refl nobody-answers

-- A JSON of the statuses of one probe that got through a relay: the numbers, then the node id.
abbrev encode :
    List Bytes
    → Option Bool
    → Option ℕ
    → Option PathKind
    → Option Bytes
    → List SessionInfo
    → ProbeMode
    → Bytes
    → Option Bytes
encode [] (some true) (some t) (some relayed) none [] given b = some (t ∷ b)
encode _ _ _ _ _ _ _ b = none

abbrev numbers : Status → Bytes
numbers s = s.pid ∷ s.updated_unix ∷ s.consecutive_probe_failures ∷ s.endpoint_restarts ∷ s.node_id

abbrev decode : Bytes → Option Status
decode (t ∷ pid ∷ now ∷ failures ∷ restarts ∷ id) = some (record (first_status id pid now given) {
  dialable = some true;
  last_probe_ok_unix = some t;
  last_probe_path = some relayed;
  consecutive_probe_failures = failures;
  endpoint_restarts = restarts;
})
decode b = none

round_trip :
    (addrs : List Bytes) (d : Option Bool) (t : Option ℕ) (p : Option PathKind) (e : Option Bytes)
    (is : List SessionInfo) (mode : ProbeMode) (s : Status) (b : Bytes)
    → encode addrs d t p e is mode (numbers s) ≡ some b
    → decode b
      ≡ some (record s {
        direct_addrs = addrs;
        dialable = d;
        last_probe_ok_unix = t;
        last_probe_path = p;
        last_probe_error = e;
        sessions = is;
        probe_mode = mode;
      })
round_trip [] (some true) (some t) (some relayed) none [] given s b h =
    let whole : t ∷ numbers s ≡ b = cc h in rw (sym whole) refl
round_trip _ _ _ _ _ _ _ s b h = cc h

abbrev json : Codec Status
json = record {
  encode = λ s.
      encode s.direct_addrs s.dialable s.last_probe_ok_unix s.last_probe_path s.last_probe_error
        s.sessions s.probe_mode (numbers s);
  decode = decode;
  decode-encode = λ s b h.
      round_trip s.direct_addrs s.dialable s.last_probe_ok_unix s.last_probe_path s.last_probe_error
        s.sessions s.probe_mode s b h;
}

abbrev dir : StateDir
dir = record { root = codes "/s" }

abbrev tick : Tick
tick = record {
  now = 9;
  calls = record { open_ok = true; write_ok = true; partial = 0; rename_ok = true };
}

abbrev live : Live
live = record { status = first_status (codes "n") 7 0 given; sessions = []; disk = λ p. none }

abbrev report : Session → PathKind × Bytes
report s = (relayed, [])

abbrev print : Bytes → Bytes
print b = b

abbrev runs : Bytes → Bool
runs path = true

abbrev written : Bytes
written = 8 ∷ 7 ∷ 9 ∷ 0 ∷ 0 ∷ codes "n"

abbrev pretty : Status → Bytes
pretty s = []

encodes :
    json.encode (round_status json dir (codes "7") report print 3 0 tick (reached 8 relayed) live)
    ≡ some written
unfolding canary_round publish_sessions update
encodes = refl

status-canary_round_example :
    let l' =
      (canary_round json dir (codes "7") report print 3 0 tick (reached 8 relayed) live).1.0 in
    (lines : List Bytes) × (status pretty runs false (read_status json dir true l'.disk)
      ≡ ok (
        (if is_reached (reached 8 relayed) && writer_alive runs l'.status
            then 0
            else exit_undialable),
        lines,
      ))
status-canary_round_example =
    status-canary_round json dir (codes "7") report print 3 0 tick (reached 8 relayed) live pretty
      runs false written (record { opens = refl; puts = refl; renames = refl }) encodes

-- A device whose services are not resolved for ten seconds.
abbrev ticks : ℕ → ℕ → List (ℕ × Result BluerError (List RemoteService))
ticks zero t = []
ticks (suc n) t = (t, err services_unresolved) ∷ ticks n (t + 250)

ticks-Paced : (n t : ℕ) → Paced 250 t (ticks n t)
ticks-Paced zero t = tt
ticks-Paced (suc n) t = (omega arith, ticks-Paced n (t + 250))

abbrev service_uuid : Bytes
service_uuid = 0 ∷ []

abbrev characteristic_uuid : Bytes
characteristic_uuid = 1 ∷ []

characteristic-some_example :
    (r : Result DiscoveryError RemoteCharacteristic) × (characteristic service_uuid
        characteristic_uuid
        (ticks 41 0)
      ≡ some r)
    × IsRight service_uuid characteristic_uuid (ticks 41 0) r
characteristic-some_example =
    characteristic-some service_uuid characteristic_uuid (ticks 41 0) (ticks-Paced 41 0)
      (omega arith)
