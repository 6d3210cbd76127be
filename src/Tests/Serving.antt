-- ===== src/Tests/Serving.antt =====
-- src/controller.rs, src/agent.rs and src/net.rs.
use egdod.Prelude.{ℕ, ◌≡◌, refl, none, some, true, false, List, [], ◌∷◌, Bytes, codes, ok, arith}
use egdod.Io.{Sink, le32}
use egdod.Proto.{ExecFrame, stdout, stderr, direct_wan}
use egdod.Proto.Frame.{write_msgs, write_msg}
use egdod.State.Text.{trim_start, trim_end}
use egdod.Controller.{
  Session, SessionMap, get, Event, opened, closed, run, pick, matching, Probe, reached, unreachable,
  Watch, canary,
}
use egdod.Controller.Sessions.{latest, get-run, IsOnlyMatch, pick-IsOnlyMatch}
use egdod.Controller.Canary.{has_row, canary-has_row}
use egdod.Agent.{
  Outcome, pending, dial_failed, Interleaved, done, from_out, from_err, pump_frames, exec_frames,
  closing, exit_code, ExitStatus,
}
use egdod.Link.{Ipv4}
use egdod.Net.{relay, ip, v4, OpenPath}
use egdod.Tests.Codecs.{frames}

abbrev alice : Bytes
alice = codes "a1"

abbrev first : Session
first = record { id = 1; since = 10 }

abbrev second : Session
second = record { id = 2; since = 20 }

-- The first connection is noticed to be closed after the second came.
abbrev events : List Event
events = closed alice 1 ∷ opened alice second ∷ opened alice first ∷ []

latest_is_second : latest [] events alice ≡ some second
latest_is_second = refl

get-run_example : get (run events) alice ≡ some second
get-run_example = get-run events alice

abbrev same : Bytes → Bytes
same b = b

abbrev map_of_two : SessionMap
map_of_two = (alice, second) ∷ (codes "b2", first) ∷ []

picks_alice : pick same same map_of_two (codes " a") ≡ ok (alice, second)
unfolding pick matching trim_start trim_end
picks_alice = refl

pick-IsOnlyMatch_example : IsOnlyMatch same same (codes " a") (alice, second) map_of_two
pick-IsOnlyMatch_example =
    pick-IsOnlyMatch same same map_of_two (codes " a") (alice, second) picks_alice

abbrev probes : List Probe
probes = unreachable [] ∷ reached 5 direct_wan ∷ unreachable [] ∷ unreachable [] ∷ []

abbrev start : Watch
start = record {
  failures = 0;
  health = record {
    dialable = none;
    last_probe_ok = none;
    last_probe_path = none;
    last_probe_error = none;
    consecutive_probe_failures = 0;
  };
}

canary-has_row_example : (canary 2 probes start).1 ≡ has_row 2 0 probes
canary-has_row_example = canary-has_row 2 probes start (omega arith) (omega arith) (omega arith)

abbrev dials : List Outcome
dials = dial_failed ∷ dial_failed ∷ pending ∷ dial_failed ∷ []

abbrev turns : List ExecFrame
turns = stderr (33 ∷ []) ∷ stdout (104 ∷ []) ∷ []

abbrev status : ExitStatus
status = record { code = none; signal = some 9 }

abbrev wire : Bytes
wire = 2 ∷ 0 ∷ 0 ∷ 0 ∷ 1 ∷ 33 ∷ 2 ∷ 0 ∷ 0 ∷ 0 ∷ 0 ∷ 104 ∷ 2 ∷ 0 ∷ 0 ∷ 0 ∷ 2 ∷ 137 ∷ []

abbrev sink : ℕ → Sink
sink n = record { sent = []; room = n }

took_turns :
    Interleaved (pump_frames true ((104 ∷ []) ∷ [])) (pump_frames false ((33 ∷ []) ∷ [])) turns
unfolding pump_frames
took_turns = from_err _ _ _ _ (from_out _ _ _ _ done)

agent_sends :
    write_msgs frames (exec_frames (codes "sh" ∷ []) none turns false status) (sink 20)
    ≡ ok (record { sent = wire; room = 2 })
unfolding write_msgs write_msg le32 exec_frames closing exit_code
agent_sends = refl

abbrev lan_host : Ipv4
lan_host = record { a = 192; b = 168; c = 1; d = 7 }

abbrev seen : List (List OpenPath)
seen =
    (record { is_selected = true; remote_addr = relay [] } ∷ [])
    ∷ (record { is_selected = false; remote_addr = relay [] }
        ∷ record { is_selected = true; remote_addr = ip (v4 lan_host) 9 }
        ∷ [])
    ∷ []
