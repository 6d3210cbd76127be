-- ===== src/Controller/Serve/Mirror.antt =====
-- What status.json says of the sessions, beside what `serve` holds.
use egdod.Prelude.{
  ℕ, ◌≡◌, ◌≢◌, refl, Option, none, some, Bool, true, false, List, [], ◌∷◌, Bytes, map, Result, ok,
  err, ◌==◌, Bool-cases, Option-cases, inl, inr,
}
use egdod.Proto.{Codec, PathKind}
use egdod.State.Dir.{StateDir}
use egdod.State.Status.{SessionInfo, Status}
use egdod.Controller.{Session, SessionMap, get, insert, remove, Probe, reached, unreachable}
use egdod.Controller.Serve.{
  Live, Tick, Happening, joins, leaves, path_changes, bind_failed, Ends, socket_fails, restarts,
  still_up, Returned, update, info, publish_sessions, happen, canary_round, clear, listening, Turn,
  agent, probe, socket, endpoint, bind_loop, Spell, after_endpoint, after_bind, serve_loop,
}

module _ (json : Codec Status) (dir : StateDir) (pid : Bytes) (report : Session → PathKind × Bytes)
    (print : Bytes → Bytes) where
  -- The agents that status.json lists, with the times that they connected at.
  abbrev pub listed : List SessionInfo → List (Bytes × ℕ)
  listed [] = []
  listed (i ∷ is) = (i.agent, i.since_unix) ∷ listed is

  abbrev pub held : SessionMap → List (Bytes × ℕ)
  held [] = []
  held ((k, s) ∷ m) = (print k, s.since) ∷ held m

  abbrev pub Mirrors : Live → Type 0
  Mirrors l = listed l.status.sessions ≡ held l.sessions

  listed-info : (m : SessionMap) → listed (map (info json dir pid report print) m) ≡ held m
  listed-info [] = refl
  listed-info ((k, s) ∷ m) = rw (listed-info m) refl

  publish_sessions-Mirrors :
      (t : Tick) (l : Live) → Mirrors (publish_sessions json dir pid report print t l)
  unfolding publish_sessions update
  publish_sessions-Mirrors t l = listed-info l.sessions

  happen-Mirrors :
      (t : Tick) (h : Happening) (l : Live)
      → Mirrors l
      → Mirrors (happen json dir pid report print t h l)
  unfolding happen
  happen-Mirrors t (joins peer s) l m =
      publish_sessions-Mirrors t (record l { sessions = insert l.sessions peer s })
  happen-Mirrors t path_changes l m = publish_sessions-Mirrors t l
  happen-Mirrors t (leaves peer id) l m = elim (Option-cases (get l.sessions peer)) [
    | inl e ↦ rw (happen, e) m
    | inr (s, e) ↦ elim (Bool-cases (s.id == id)) [
      | inl same ↦
          rw (happen, e, same)
            (publish_sessions-Mirrors t (record l { sessions = remove l.sessions peer }))
      | inr other ↦ rw (happen, e, other) m
    ]
  ]

  canary_round-Mirrors :
      (restart_after failures : ℕ) (t : Tick) (p : Probe) (l : Live)
      → Mirrors (canary_round json dir pid report print restart_after failures t p l).1.0
  unfolding canary_round update
  canary_round-Mirrors restart_after failures t (reached now path) l = publish_sessions-Mirrors t l
  canary_round-Mirrors restart_after failures t (unreachable msg) l = publish_sessions-Mirrors t l

  endpoint-Mirrors :
      (restart_after failures : ℕ) (ts : List Turn) (l : Live)
      → Mirrors l
      → Mirrors (endpoint json dir pid report print restart_after failures ts l).0
  unfolding endpoint
  endpoint-Mirrors restart_after failures [] l m = m
  endpoint-Mirrors restart_after failures (socket ∷ ts) l m = m
  endpoint-Mirrors restart_after failures (agent t h ∷ ts) l m =
      endpoint-Mirrors restart_after failures ts (happen json dir pid report print t h l)
        (happen-Mirrors t h l m)
  endpoint-Mirrors restart_after failures (probe t p ∷ ts) l m =
      let (failures', (l', restart)) =
        canary_round json dir pid report print restart_after failures t p l in
      elim (Bool-cases restart) [
        | inl e ↦ rw (endpoint, e) (canary_round-Mirrors restart_after failures t p l)
        | inr e ↦
            rw (endpoint, e)
              (endpoint-Mirrors restart_after failures' ts l'
                (canary_round-Mirrors restart_after failures t p l))
      ]

  listening-Mirrors :
      (t : Tick) (addrs : List Bytes) (l : Live)
      → Mirrors l
      → Mirrors (listening json dir pid report print t addrs l)
  unfolding listening update
  listening-Mirrors t addrs l m = m

  clear-Mirrors : (t : Tick) (l : Live) → Mirrors (clear json dir pid report print t l)
  unfolding clear update
  clear-Mirrors t l = refl

  after_endpoint-Mirrors :
      {E : Type 0} (x : Live × Ends) (again : Live → Live × Returned E)
      → Mirrors x.0
      → ((l : Live) → Mirrors (again l).0)
      → Mirrors (after_endpoint x again).0
  after_endpoint-Mirrors (l, socket_fails) again m next = m
  after_endpoint-Mirrors (l, restarts) again m next = next l
  after_endpoint-Mirrors (l, still_up) again m next = m

  after_bind-Mirrors :
      {E : Type 0} (b : Option (Result E (List Bytes))) (l : Live)
      (up : List Bytes → Live × Returned E)
      → Mirrors l
      → ((addrs : List Bytes) → Mirrors (up addrs).0)
      → Mirrors (after_bind b l up).0
  after_bind-Mirrors none l up m next = m
  after_bind-Mirrors (some (err e)) l up m next = m
  after_bind-Mirrors (some (ok addrs)) l up m next = next addrs

  -- Whatever agents join and leave, whatever the canary finds, and however often the endpoint is
  -- rebuilt, the status lists exactly the agents that hold a session, each with the time at which it
  -- connected, where no two publications overlap.
  pub serve_loop-Mirrors :
      {E : Type 0} (restart_after : ℕ) (first : Bool) (ss : List (Spell E)) (l : Live)
      → Mirrors l
      → Mirrors (serve_loop json dir pid report print restart_after first ss l).0
  unfolding serve_loop
  serve_loop-Mirrors restart_after first [] l m = m
  serve_loop-Mirrors restart_after first (s ∷ ss) l m =
      let up : List Bytes → Live = λ addrs. listening json dir pid report print s.up addrs l in
      after_bind-Mirrors (bind_loop first s.binds) l _ m (λ addrs.
        after_endpoint-Mirrors
          (endpoint json dir pid report print restart_after 0 s.turns (up addrs)) _
          (endpoint-Mirrors restart_after 0 s.turns (up addrs) (listening-Mirrors s.up addrs l m))
          (λ l'.
            serve_loop-Mirrors restart_after false ss (clear json dir pid report print s.down l')
              (clear-Mirrors s.down l')))

  after_endpoint-ne :
      {E : Type 0} (x : Live × Ends) (again : Live → Live × Returned E) (e : E)
      → ((l : Live) → (again l).1 ≢ bind_failed e)
      → (after_endpoint x again).1 ≢ bind_failed e
  after_endpoint-ne (l, socket_fails) again e never h = cc
  after_endpoint-ne (l, restarts) again e never h = never l h
  after_endpoint-ne (l, still_up) again e never h = cc

  rebind_never :
      {E : Type 0} (rs : List (Result E (List Bytes))) (e : E) → bind_loop false rs ≢ some (err e)
  unfolding bind_loop
  rebind_never [] e h = cc
  rebind_never (ok addrs ∷ rs) e h = cc
  rebind_never (err e' ∷ rs) e h = rebind_never rs e h

  after_bind-cases :
      {E : Type 0} (b : Option (Result E (List Bytes))) (l : Live)
      (up : List Bytes → Live × Returned E) (e : E)
      → ((addrs : List Bytes) → (up addrs).1 ≢ bind_failed e)
      → (after_bind b l up).1 ≡ bind_failed e
      → (b ≡ some (err e)) × ((after_bind b l up).0 ≡ l)
  after_bind-cases none l up e never h = cc
  after_bind-cases (some (err e')) l up e never h = (cc h, refl)
  after_bind-cases (some (ok addrs)) l up e never h = absurd (never addrs h)

  -- After the first binding `serve` does not fail of one.
  serve_loop-rebinds :
      {E : Type 0} (restart_after : ℕ) (ss : List (Spell E)) (l : Live) (e : E)
      → (serve_loop json dir pid report print restart_after false ss l).1 ≢ bind_failed e
  unfolding serve_loop
  serve_loop-rebinds restart_after [] l e h = cc
  serve_loop-rebinds restart_after (s ∷ ss) l e h =
      let (failed, same) =
        after_bind-cases (bind_loop false s.binds) l _ e
          (λ addrs. after_endpoint-ne _ _ e (λ l'.
            serve_loop-rebinds restart_after ss (clear json dir pid report print s.down l') e))
          h in
      rebind_never s.binds e failed

  -- Only the very first binding can make `serve` fail, and then it has changed nothing: once an
  -- endpoint was up, a binding that fails is tried again.
  serve_loop-bind_failed :
      {E : Type 0} (restart_after : ℕ) (first : Bool) (ss : List (Spell E)) (l : Live) (e : E)
      → (serve_loop json dir pid report print restart_after first ss l).1 ≡ bind_failed e
      → (first ≡ true) × ((serve_loop json dir pid report print restart_after first ss l).0 ≡ l)
  unfolding serve_loop
  serve_loop-bind_failed restart_after false ss l e h =
      absurd (serve_loop-rebinds restart_after ss l e h)
  serve_loop-bind_failed restart_after true [] l e h = cc
  serve_loop-bind_failed restart_after true (s ∷ ss) l e h = (
    refl,
    (after_bind-cases (bind_loop true s.binds) l _ e
        (λ addrs.
          after_endpoint-ne _ _ e (λ l'.
            serve_loop-rebinds restart_after ss (clear json dir pid report print s.down l') e))
        h).1,
  )
