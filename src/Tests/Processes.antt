-- ===== src/Tests/Processes.antt =====
-- Two processes at one state directory, an endpoint and its probe, `serve` and an ssh session.
use egdod.Prelude.{
  ℕ, ◌≡◌, ◌≢◌, inl, refl, none, some, Bool, true, false, sym, List, [], ◌∷◌, Bytes, codes, length,
  replicate, ok, err, Option, arith,
}
use egdod.Disk.{Disk}
use egdod.Proto.{Codec, PathKind, direct_lan}
use egdod.Net.{ProbeMode, n0, disabled, discovery, given, first_url}
use egdod.Net.Dial
use egdod.Net.Dial.{
  BindCalls, Dial, Endpoint, bind, relay_mode, probe_from, pong, respond, ping, Outgoing,
  agent_dial, endpoint_addr, no_relays, default_relays,
}
use egdod.State.Key.{
  unique_tmp, KeyCalls, load_or_create_key, read_key, write_private, fill_private, create_key,
}
use egdod.State.Dir.{StateDir, Held, EnsureCalls, init_key, ensure_root, status_path}
use egdod.State.Atomic.{
  System, staging, opens, Reach, start, later, WriteCalls, write_atomic, in_phase, idle, written,
}
use egdod.State.Atomic.Whole.{write_atomic-Reach}
use egdod.State.Status.{SessionInfo, Status, read_status, parsing}
use egdod.State.Status.Readers.{Reach-read_status, IsStatus}
use egdod.Controller.{Session}
use egdod.Controller.Serve.{
  Live, Tick, first_status, Spell, agent, joins, socket, serve_loop, bind_failed, bind_loop,
}
use egdod.Controller.Serve.Mirror.{Mirrors, serve_loop-Mirrors}

abbrev dir : StateDir
dir = record { root = codes "/s" }

abbrev empty : Disk
empty p = none

abbrev at_start : Status
at_start = first_status (codes "n") 7 0 discovery

-- A JSON of the statuses before anything happened: its numbers, then the node id.
abbrev encode :
    List Bytes
    → Option Bool
    → Option ℕ
    → Option PathKind
    → Option Bytes
    → List SessionInfo
    → ProbeMode
    → Bytes
    → Option Bytes
encode [] none none none none [] discovery b = some b
encode [] none none none none [] given b = none
encode [] none none none none (i ∷ is) mode b = none
encode [] none none none (some e) is mode b = none
encode [] none none (some p) e is mode b = none
encode [] none (some t) p e is mode b = none
encode [] (some d) t p e is mode b = none
encode (a ∷ more) d t p e is mode b = none

abbrev decode : Bytes → Option Status
decode (pid ∷ now ∷ failures ∷ restarts ∷ id) = some (record (first_status id pid now discovery) {
  consecutive_probe_failures = failures;
  endpoint_restarts = restarts;
})
decode b = none

abbrev numbers : Status → Bytes
numbers s = s.pid ∷ s.updated_unix ∷ s.consecutive_probe_failures ∷ s.endpoint_restarts ∷ s.node_id

round_trip :
    (addrs : List Bytes) (d : Option Bool) (t : Option ℕ) (p : Option PathKind) (e : Option Bytes)
    (is : List SessionInfo) (mode : ProbeMode) (s : Status) (b : Bytes)
    → encode addrs d t p e is mode (numbers s) ≡ some b
    → decode b
      ≡ some (record s {
        direct_addrs = addrs;
        dialable = d;
        last_probe_ok_unix = t;
        last_probe_path = p;
        last_probe_error = e;
        sessions = is;
        probe_mode = mode;
      })
round_trip [] none none none none [] discovery s b h =
    let whole : numbers s ≡ b = cc h in rw (sym whole) refl
round_trip [] none none none none [] given s b h = cc
round_trip [] none none none none (i ∷ is) mode s b h = cc
round_trip [] none none none (some e) is mode s b h = cc
round_trip [] none none (some p) e is mode s b h = cc
round_trip [] none (some t) p e is mode s b h = cc
round_trip [] (some d) t p e is mode s b h = cc
round_trip (a ∷ more) d t p e is mode s b h = cc

abbrev json : Codec Status
json = record {
  encode = λ s.
      encode s.direct_addrs s.dialable s.last_probe_ok_unix s.last_probe_path s.last_probe_error
        s.sessions s.probe_mode (numbers s);
  decode = decode;
  decode-encode = λ s b h.
      round_trip s.direct_addrs s.dialable s.last_probe_ok_unix s.last_probe_path s.last_probe_error
        s.sessions s.probe_mode s b h;
}

abbrev well : WriteCalls
well = record { open_ok = true; write_ok = true; partial = 0; rename_ok = true }

-- Process 1 has begun to write a status, and process 2 opens the file beside it.
abbrev body : Bytes
body = numbers at_start

body-IsStatus : IsStatus json dir body
body-IsStatus = (at_start, refl)

abbrev one_writes : System
one_writes = record {
  disk = written empty (unique_tmp (codes "1") (status_path dir)) [];
  phase = in_phase (record { disk = empty; phase = λ pid. idle }) (codes "1") (staging body 0);
}

one_writes-Reach : Reach (status_path dir) (IsStatus json dir) empty one_writes
one_writes-Reach =
    later start
      (opens (record { disk = empty; phase = λ pid. idle }) (codes "1") body body-IsStatus)

Reach-read_status_example : read_status json dir true one_writes.disk ≢ err parsing
Reach-read_status_example =
    Reach-read_status json dir true empty one_writes (inl refl) one_writes-Reach

write_atomic-Reach_example :
    (t : System) × Reach (status_path dir) (IsStatus json dir) empty t
    × (t.disk ≡ (write_atomic well (codes "2") (status_path dir) body one_writes.disk).0)
write_atomic-Reach_example =
    write_atomic-Reach (status_path dir) (IsStatus json dir) well (codes "2") body empty one_writes
      body-IsStatus one_writes-Reach

-- `init`, and a `serve` after it.
abbrev fine : KeyCalls
fine = record {
  readable = true;
  random = some (replicate 32 9);
  dir_ok = true;
  open_ok = true;
  write_ok = true;
  partial = 0;
  sync_ok = true;
  rename_ok = true;
}

abbrev can : EnsureCalls
can = record { mkdir_ok = true; chmod_ok = true }

abbrev nothing : Held
nothing = record { root_mode = none; disk = empty }

inits : (init_key can fine (codes "1") dir nothing).1 ≡ ok (replicate 32 9)
unfolding init_key ensure_root load_or_create_key read_key create_key write_private fill_private
inits = refl

drawn : (b : Bytes) → fine.random ≡ some b → length b ≡ 32
drawn b e = ground (arith, e)

-- A probe that the controller answers.
abbrev bindable : BindCalls
bindable = record { addr_ok = true; bind_ok = true }

abbrev answered : Dial
answered = record {
  in_time = true;
  connects = true;
  opens = true;
  sends = true;
  path = direct_lan;
  answer = some (codes "egdod-alive");
}

answers_ping : respond ping ≡ pong
unfolding respond
answers_ping = refl

probes :
    (Dial.probe (λ u. true) bindable answered (codes "t") discovery [] n0).result ≡ ok direct_lan
unfolding Dial.probe probe_from bind relay_mode
probes = refl

abbrev probed : Dial.Probed
probed = Dial.probe (λ u. true) bindable answered (codes "t") discovery [] n0

abbrev outgoing : Outgoing
outgoing = record {
  endpoint = record {
    relays = no_relays;
    bound_to = none;
    secret = some (codes "k");
    publishing = false;
    resolving = false;
  };
  address = endpoint_addr (codes "t") (codes "1.2.3.4:5" ∷ []) none;
}

dials :
    agent_dial (λ u. true) bindable (codes "k") (codes "t") disabled (codes "1.2.3.4:5" ∷ [])
    ≡ ok outgoing
unfolding agent_dial bind relay_mode first_url
dials = refl

-- `serve`: an agent joins, and the socket fails.
abbrev live : Live
live = record { status = at_start; sessions = []; disk = empty }

abbrev tick : Tick
tick = record { now = 9; calls = well }

abbrev spells : List (Spell Bytes)
spells =
    record {
      binds = ok (codes "1.2.3.4:5" ∷ []) ∷ [];
      up = tick;
      turns = agent tick (joins (codes "A") (record { id = 1; since = 8 })) ∷ socket ∷ [];
      down = tick;
    }
    ∷ []

abbrev report : Session → PathKind × Bytes
report s = (direct_lan, codes "1.2.3.9:7")

serve_loop-Mirrors_example :
    Mirrors json dir
      (codes "1")
      report
      (λ k. k)
      (serve_loop json dir (codes "1") report (λ k. k) 3 true spells live).0
serve_loop-Mirrors_example =
    serve_loop-Mirrors json dir (codes "1") report (λ k. k) 3 true spells live refl

abbrev unbound : List (Spell Bytes)
unbound = record { binds = err (codes "in use") ∷ []; up = tick; turns = []; down = tick } ∷ []

fails_first :
    (serve_loop json dir (codes "1") report (λ k. k) 3 true unbound live).1
    ≡ bind_failed (codes "in use")
unfolding serve_loop bind_loop
fails_first = refl
