-- ===== src/Remote/Finished.antt =====
-- What a reply to a command holds, where the agent finishes it.
use egdod.Prelude.{
  codes, ◌≡◌, ◌⊎◌, refl, Option, none, some, Bool, true, false, List, [], ◌∷◌, ◌++◌, Bytes, Result,
  ok, err, inl, inr, Result-cases,
}
use egdod.Io.{Sink}
use egdod.Proto.{ExecFrame, failed, truncated, exit}
use egdod.Proto.Frame.{MsgError, write_msgs}
use egdod.Proto.File.{FileError}
use egdod.Agent.{ExitStatus, closing, exit_code, drain_output}
use egdod.Agent.Handle.{
  output_of, Machine, Wire, finished, HandleError, run_exec, finish_after, Child, conclude_exec,
  after_wait, attend, spawned, left, after_body,
}
use egdod.Remote.Answers.{write_msgs-append, write_msgs-single}

pub finish_after-finished :
    (x : Result MsgError Sink) (result : Result HandleError (Unit {0})) (v : Sink)
    → (finish_after x result).0 ≡ finished v
    → x ≡ ok v
finish_after-finished (err e) result v h = cc h
finish_after-finished (ok w) result v h = cc h

pub after_body-finished :
    (c : Wire) (sha256 : Bytes → Bytes) (show : FileError → Bytes) (x : Result FileError Sink)
    (v : Sink)
    → (after_body c sha256 show x).0 ≡ finished v
    → x ≡ ok v
after_body-finished c sha256 show (err e) v h = cc h
after_body-finished c sha256 show (ok w) v h = cc h

-- The frames after the output: the exit code is the last of them.
abbrev pub ending : Bool → ExitStatus → List ExecFrame
ending true status = truncated ∷ exit (exit_code status) ∷ []
ending false status = exit (exit_code status) ∷ []

closing-ending : (cut : Bool) (status : ExitStatus) → closing cut status ≡ ending cut status
unfolding closing
closing-ending true status = refl
closing-ending false status = refl

-- The frames of a command: that it has no program, or could not be started, or the output of the child
-- that runs it and then, at the end, its status.
abbrev pub IsRunFrames :
    (Bytes → List Bytes → Result Bytes Child) → List Bytes → List ExecFrame → Type 0
IsRunFrames spawn [] fs = fs ≡ failed (codes "empty argv") ∷ []
IsRunFrames spawn (program ∷ args) fs =
    ((e : Bytes) × (spawn program args ≡ err e)
      × (fs ≡ failed (codes "spawning " ++ (program ++ (codes ": " ++ e))) ∷ []))
    ⊎ ((child : Child) × (status : ExitStatus) × (cut : Bool) × (spawn program args ≡ ok child)
        × (child.status ≡ some status)
        × (drain_output child.looks ≡ some cut)
        × (fs ≡ output_of child ++ ending cut status))

module _ (c : Wire) where
  conclude_exec-finished :
      (late cut : Bool) (status : ExitStatus) (fs : List ExecFrame) (w v : Sink)
      → (conclude_exec c late cut status (write_msgs c.frames fs w)).0 ≡ finished v
      → write_msgs c.frames (fs ++ closing cut status) w ≡ ok v
  unfolding conclude_exec
  conclude_exec-finished late cut status fs w v h = elim (Result-cases (write_msgs c.frames fs w)) [
    | inl (e, bad) ↦ cc (rw (bad, conclude_exec) at h)
    | inr (u, good) ↦ closed late u good (rw (good, conclude_exec) at h)
  ]
    where
      closed :
          (late : Bool) (u : Sink)
          → write_msgs c.frames fs w ≡ ok u
          → (conclude_exec c late cut status (ok u)).0 ≡ finished v
          → write_msgs c.frames (fs ++ closing cut status) w ≡ ok v
      closed true u good h = cc h
      closed false u good h =
          write_msgs-append c fs (closing cut status) w u v good
            (finish_after-finished (write_msgs c.frames (closing cut status) u) (ok tt) v h)

  left-open : (x : Result MsgError Sink) (v : Sink) → left c x ≡ finished v → ⊥
  left-open (err e) v h = cc h
  left-open (ok w) v h = cc h

  after_wait-finished :
      (o : Option ExitStatus) (cut : Option Bool) (late : Bool) (fs : List ExecFrame) (w v : Sink)
      → (after_wait c o cut late (write_msgs c.frames fs w)).0 ≡ finished v
      → (status : ExitStatus) × (b : Bool) × (o ≡ some status)
        × (cut ≡ some b)
        × (write_msgs c.frames (fs ++ closing b status) w ≡ ok v)
  unfolding after_wait
  after_wait-finished none cut late fs w v h = absurd (left-open (write_msgs c.frames fs w) v h)
  after_wait-finished (some status) none late fs w v h =
      absurd (left-open (write_msgs c.frames fs w) v h)
  after_wait-finished (some status) (some cut) late fs w v h =
      (status, cut, refl, refl, conclude_exec-finished late cut status fs w v h)

  spawned-finished :
      (m : Machine) (program : Bytes) (args : List Bytes) (r : Result Bytes Child) (w v : Sink)
      → m.spawn program args ≡ r
      → (spawned c program r w).0 ≡ finished v
      → (fs : List ExecFrame) × IsRunFrames m.spawn (program ∷ args) fs
        × (write_msgs c.frames fs w ≡ ok v)
  unfolding spawned attend
  spawned-finished m program args (err e) w v is h = (
    failed _ ∷ [],
    inl (e, is, refl),
    write_msgs-single c _ w v (finish_after-finished _ (ok tt) v h),
  )
  spawned-finished m program args (ok child) w v is h =
      let (status, cut, waited, drained, writes) =
        after_wait-finished child.status (drain_output child.looks) child.late (output_of child) w v
          h in
      (
        output_of child ++ ending cut status,
        inr (child, status, cut, is, waited, drained, refl),
        rw (← closing-ending cut status) writes,
      )

  pub run_exec-finished :
      (m : Machine) (argv : List Bytes) (w v : Sink)
      → (run_exec c m.spawn argv w).0 ≡ finished v
      → (fs : List ExecFrame) × IsRunFrames m.spawn argv fs × (write_msgs c.frames fs w ≡ ok v)
  unfolding run_exec
  run_exec-finished m [] w v h =
      (failed _ ∷ [], refl, write_msgs-single c _ w v (finish_after-finished _ (ok tt) v h))
  run_exec-finished m (program ∷ args) w v h =
      spawned-finished m program args (m.spawn program args) w v refl h
