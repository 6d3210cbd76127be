-- ===== src/Controller/Serve.antt =====
-- src/controller.rs, `serve`: the status file that it keeps, what it publishes about its sessions, and
-- the rebuilding of its endpoint. A publication reads the sessions and then writes the file; it is
-- one step here, where no other change falls between the two.
pub mod Mirror
pub mod Health
use egdod.Prelude.{
  ℕ, ◌+◌, ◌%◌, ◌^◌, ◌≡◌, Option, none, some, Bool, true, false, List, [], ◌∷◌, Bytes, bytes_eq,
  ◌==◌, leb, if◌then◌else◌, map, Result, ok, err,
}
use egdod.Disk.{Disk}
use egdod.Proto.{Codec, PathKind}
use egdod.Net.{ProbeMode, RelayChoice, enabled, discovery, given}
use egdod.State.Dir.{StateDir}
use egdod.State.Atomic.{WriteCalls}
use egdod.State.Status.{SessionInfo, Status, write_status}
use egdod.Controller.{Session, SessionMap, get, insert, remove, forget, Probe, reached, unreachable}

-- What `serve` holds: the status, the sessions, and the disk with status.json.
pub record Live : Type 0 where
  pub status : Status
  pub sessions : SessionMap
  pub disk : Disk

-- What each write of status.json meets: the time, and the operating system's answers.
pub record Tick : Type 0 where
  pub now : ℕ
  pub calls : WriteCalls

abbrev pub first_status : Bytes → ℕ → ℕ → ProbeMode → Status
first_status node_id pid now mode = record {
  node_id = node_id;
  pid = pid;
  updated_unix = now;
  direct_addrs = [];
  dialable = none;
  probe_mode = mode;
  last_probe_ok_unix = none;
  last_probe_path = none;
  last_probe_error = none;
  consecutive_probe_failures = 0;
  endpoint_restarts = 0;
  sessions = [];
}

abbrev pub mode_for : RelayChoice → ProbeMode
mode_for relay = if enabled relay then discovery else given

-- What happens while an endpoint is up.
pub data Happening : Type 0 where
  joins : Bytes → Session → Happening
  leaves : Bytes → ℕ → Happening
  path_changes : Happening

-- How one endpoint ends: the control socket fails, or the canary asks for another; or it is still up.
pub data Ends : Type 0 where
  socket_fails restarts still_up : Ends

pub data Returned (E : Type 0) : Type 0 where
  bind_failed : E → Returned E
  socket_failed still_serving : Returned E

-- What happens to one endpoint: connections and canary rounds in any order, until it ends.
pub data Turn : Type 0 where
  agent : Tick → Happening → Turn
  probe : Tick → Probe → Turn
  socket : Turn

-- The binding: the first failure is the command's, a later one is tried again.
unfoldable pub bind_loop :
    {E : Type 0} → Bool → List (Result E (List Bytes)) → Option (Result E (List Bytes))
bind_loop first [] = none
bind_loop first (ok addrs ∷ rs) = some (ok addrs)
bind_loop true (err e ∷ rs) = some (err e)
bind_loop false (err e ∷ rs) = bind_loop false rs

-- One endpoint: the answers to its bindings, the two writes around it, and its turns.
pub record Spell (E : Type 0) : Type 0 where
  pub binds : List (Result E (List Bytes))
  pub up : Tick
  pub turns : List Turn
  pub down : Tick

abbrev pub after_endpoint :
    {E : Type 0} → Live × Ends → (Live → Live × Returned E) → Live × Returned E
after_endpoint (l, socket_fails) again = (l, socket_failed)
after_endpoint (l, restarts) again = again l
after_endpoint (l, still_up) again = (l, still_serving)

abbrev pub after_bind :
    {E : Type 0}
    → Option (Result E (List Bytes))
    → Live
    → (List Bytes → Live × Returned E)
    → Live × Returned E
after_bind none l up = (l, still_serving)
after_bind (some (err e)) l up = (l, bind_failed e)
after_bind (some (ok addrs)) l up = up addrs

module _ (json : Codec Status) (dir : StateDir) (pid : Bytes) (report : Session → PathKind × Bytes)
    (print : Bytes → Bytes) where
  -- A status file that cannot be written is a warning.
  unfoldable pub update : Tick → (Status → Status) → Live → Live
  update t f l =
      let status : Status = record (f l.status) { updated_unix = t.now } in
      record l { status = status; disk = (write_status json dir t.calls pid status l.disk).0 }

  abbrev pub info : Bytes × Session → SessionInfo
  info (peer, s) = record {
    agent = print peer;
    path = (report s).0;
    remote = (report s).1;
    since_unix = s.since;
  }

  unfoldable pub publish_sessions : Tick → Live → Live
  unfolding update
  publish_sessions t l =
      let list = map info l.sessions in update t (λ s. record s { sessions = list }) l

  -- An approved agent's connection, one that is noticed to be closed, and a change of a path.
  unfoldable pub happen : Tick → Happening → Live → Live
  unfolding publish_sessions
  happen t (joins peer s) l = publish_sessions t (record l { sessions = insert l.sessions peer s })
  happen t (leaves peer id) l = elim (get l.sessions peer) [
    | none ↦ l
    | some s ↦
        if s.id == id
        then publish_sessions t (record l { sessions = remove l.sessions peer })
        else l
  ]
  happen t path_changes l = publish_sessions t l

  -- A round of the canary, and whether it asked for the restart.
  unfoldable pub canary_round : ℕ → ℕ → Tick → Probe → Live → ℕ × (Live × Bool)
  unfolding publish_sessions
  canary_round restart_after failures t (reached now path) l = (
    0,
    (
      update t
          (λ s. record s {
            dialable = some true;
            last_probe_ok_unix = some now;
            last_probe_path = some path;
            last_probe_error = none;
            consecutive_probe_failures = 0;
          })
          (publish_sessions t l),
      false,
    ),
  )
  canary_round restart_after failures t (unreachable msg) l =
      let failures' = (failures + 1) % 2 ^ 32 in
      (
        failures',
        (
          update t
              (λ s. record s {
                dialable = some false;
                last_probe_error = some msg;
                consecutive_probe_failures = failures';
              })
              (publish_sessions t l),
          leb restart_after failures',
        ),
      )

  -- After the canary asked.
  unfoldable pub clear : Tick → Live → Live
  unfolding update
  clear t l =
      update t
        (λ s. record s {
          endpoint_restarts = (s.endpoint_restarts + 1) % 2 ^ 32;
          sessions = [];
          consecutive_probe_failures = 0;
        })
        (record l { sessions = [] })

  unfoldable pub listening : Tick → List Bytes → Live → Live
  unfolding update
  listening t addrs l = update t (λ s. record s { direct_addrs = addrs }) l

  -- The endpoint's life, with the canary's count; a canary that asked ends it.
  unfoldable pub endpoint : ℕ → ℕ → List Turn → Live → Live × Ends
  unfolding happen canary_round
  endpoint restart_after failures [] l = (l, still_up)
  endpoint restart_after failures (socket ∷ ts) l = (l, socket_fails)
  endpoint restart_after failures (agent t h ∷ ts) l =
      endpoint restart_after failures ts (happen t h l)
  endpoint restart_after failures (probe t p ∷ ts) l =
      let (failures', (l', restart)) = canary_round restart_after failures t p l in
      let rest = endpoint restart_after failures' ts l' in if restart then (l', restarts) else rest

  -- The loop of `serve`. It returns when the first binding fails or the control socket does; else it
  -- is still up when the list is at its end.
  unfoldable pub serve_loop : {E : Type 0} → ℕ → Bool → List (Spell E) → Live → Live × Returned E
  unfolding endpoint clear listening bind_loop
  serve_loop restart_after first [] l = (l, still_serving)
  serve_loop restart_after first (s ∷ ss) l = after_bind (bind_loop first s.binds) l (λ addrs.
      after_endpoint (endpoint restart_after 0 s.turns (listening s.up addrs l))
        (λ l'. serve_loop restart_after false ss (clear s.down l')))
