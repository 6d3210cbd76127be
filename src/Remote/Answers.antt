-- ===== src/Remote/Answers.antt =====
-- The frames that answer a command.
use egdod.Prelude.{
  ◌≡◌, ◌⊎◌, refl, Option, none, some, Bool, true, false, List, [], ◌∷◌, ◌++◌, Bytes, codes, Result,
  ok, err, inl, inr, Result-cases, arith, ok_inj,
}
use egdod.Io.{Sink}
use egdod.Proto.{ExecFrame, failed}
use egdod.Proto.Frame.{write_msg, write_msgs}
use egdod.Agent.{ExitStatus, closing, drain_output}
use egdod.Agent.Handle.{
  Wire, Child, Reply, lost, dropped, finished, HandleError, finish_after, conclude_exec, after_wait,
  attend, spawned, run_exec, left, output_of,
}

module _ (c : Wire) where
  pub write_msgs-append :
      (fs gs : List ExecFrame) (w v u : Sink)
      → write_msgs c.frames fs w ≡ ok v
      → write_msgs c.frames gs v ≡ ok u
      → write_msgs c.frames (fs ++ gs) w ≡ ok u
  unfolding write_msgs
  write_msgs-append [] gs w v u h k = rw (← ok_inj h) at k
  write_msgs-append (f ∷ fs) gs w v u h k = elim (Result-cases (write_msg c.frames f w)) [
    | inl (e, bad) ↦ ground (arith, bad)
    | inr (w', first) ↦ rw first (write_msgs-append fs gs w' v u (rw first at h) k)
  ]

  pub write_msgs-single :
      (f : ExecFrame) (w v : Sink)
      → write_msg c.frames f w ≡ ok v
      → write_msgs c.frames (f ∷ []) w ≡ ok v
  unfolding write_msgs
  write_msgs-single f w v h = rw h

  -- A reply that carries some frames.
  abbrev pub Carries : Sink → Reply → List ExecFrame → Type 0
  Carries w reply fs =
      (v : Sink) × (write_msgs c.frames fs w ≡ ok v) × ((reply ≡ dropped v) ⊎ (reply ≡ finished v))

  -- What a reply to a child's output is: the output, alone or with the status after it.
  abbrev pub IsOutcome : Child → List ExecFrame → Type 0
  IsOutcome child fs =
      (fs ≡ (output_of child))
      ⊎ ((status : ExitStatus) × (cut : Bool) × (child.status ≡ some status)
          × (drain_output child.looks ≡ some cut)
          × (fs ≡ (output_of child) ++ closing cut status))

  abbrev Sent : Sink → Child → Reply → Type 0
  Sent w child reply =
      (reply ≡ lost) ⊎ ((fs : List ExecFrame) × Carries w reply fs × IsOutcome child fs)

  finish_after-Carries :
      (fs : List ExecFrame) (w : Sink) (r : Result HandleError (Unit {0}))
      → let reply = (finish_after (write_msgs c.frames fs w) r).0 in
        (reply ≡ lost) ⊎ Carries w reply fs
  finish_after-Carries fs w r = elim (Result-cases (write_msgs c.frames fs w)) [
    | inl (e, bad) ↦ inl (rw bad)
    | inr (v, good) ↦ inr (v, good, inr (rw good))
  ]

  conclude_exec-Sent :
      (child : Child) (late cut : Bool) (status : ExitStatus) (w : Sink)
      → child.status ≡ some status
      → drain_output child.looks ≡ some cut
      → Sent w child (conclude_exec c late cut status (write_msgs c.frames (output_of child) w)).0
  unfolding conclude_exec
  conclude_exec-Sent child late cut status w waited drained =
      elim (Result-cases (write_msgs c.frames (output_of child) w)) [
        | inl (e, bad) ↦ inl (rw (bad, conclude_exec))
        | inr (v, good) ↦ rw (good, conclude_exec) (closed late v good)
      ]
    where
      closed :
          (late : Bool) (v : Sink)
          → write_msgs c.frames (output_of child) w ≡ ok v
          → Sent w child (conclude_exec c late cut status (ok v)).0
      closed true v good = inr ((output_of child), (v, good, inl refl), inl refl)
      closed false v good = elim (Result-cases (write_msgs c.frames (closing cut status) v)) [
        | inl (e, bad) ↦ inl (rw bad)
        | inr (u, all) ↦ inr (
          (output_of child) ++ closing cut status,
          (
            u,
            write_msgs-append (output_of child) (closing cut status) w v u good all,
            inr (rw all),
          ),
          inr (status, cut, waited, drained, refl),
        )
      ]

  left-Sent :
      (child : Child) (w : Sink) → Sent w child (left c (write_msgs c.frames (output_of child) w))
  left-Sent child w = elim (Result-cases (write_msgs c.frames (output_of child) w)) [
    | inl (e, bad) ↦ inl (rw bad)
    | inr (v, good) ↦ inr ((output_of child), (v, good, inl (rw good)), inl refl)
  ]

  after_wait-Sent :
      (child : Child) (w : Sink) (o : Option ExitStatus) (cut : Option Bool)
      → child.status ≡ o
      → drain_output child.looks ≡ cut
      → Sent w child (after_wait c o cut child.late (write_msgs c.frames (output_of child) w)).0
  unfolding after_wait
  after_wait-Sent child w none cut e drained = left-Sent child w
  after_wait-Sent child w (some status) none e drained = left-Sent child w
  after_wait-Sent child w (some status) (some cut) e drained =
      conclude_exec-Sent child child.late cut status w e drained

  attend-Sent : (child : Child) (w : Sink) → Sent w child (attend c child w).0
  unfolding attend
  attend-Sent child w = after_wait-Sent child w child.status (drain_output child.looks) refl refl

  -- What the reply to a command is: a refusal alone, or the frames of the child that runs it.
  abbrev pub Told : (Bytes → List Bytes → Result Bytes Child) → List Bytes → List ExecFrame → Type 0
  Told spawn argv fs =
      ((e : Bytes) × (fs ≡ failed e ∷ []))
      ⊎ ((program : Bytes) × (args : List Bytes) × (child : Child) × (argv ≡ program ∷ args)
          × (spawn program args ≡ ok child)
          × IsOutcome child fs)

  abbrev pub Answers :
      (Bytes → List Bytes → Result Bytes Child) → List Bytes → Sink → Reply → Type 0
  Answers spawn argv w reply =
      (reply ≡ lost) ⊎ ((fs : List ExecFrame) × Carries w reply fs × Told spawn argv fs)

  refusal-Answers :
      (spawn : Bytes → List Bytes → Result Bytes Child) (argv : List Bytes) (w : Sink) (e : Bytes)
      → Answers spawn argv w (finish_after (write_msg c.frames (failed e) w) (ok tt)).0
  refusal-Answers spawn argv w e = elim (Result-cases (write_msg c.frames (failed e) w)) [
    | inl (x, bad) ↦ inl (rw bad)
    | inr (v, good) ↦
        inr
          (failed e ∷ [], (v, write_msgs-single (failed e) w v good, inr (rw good)), inl (e, refl))
  ]

  spawned-Answers :
      (spawn : Bytes → List Bytes → Result Bytes Child) (program : Bytes) (args : List Bytes)
      (w : Sink) (r : Result Bytes Child)
      → spawn program args ≡ r
      → Answers spawn (program ∷ args) w (spawned c program r w).0
  unfolding spawned
  spawned-Answers spawn program args w (err e) h = refusal-Answers spawn (program ∷ args) w _
  spawned-Answers spawn program args w (ok child) h = elim (attend-Sent child w) [
    | inl gone ↦ inl gone
    | inr (fs, carries, is) ↦ inr (fs, carries, inr (program, args, child, refl, h, is))
  ]

  pub run_exec-Answers :
      (spawn : Bytes → List Bytes → Result Bytes Child) (argv : List Bytes) (w : Sink)
      → Answers spawn argv w (run_exec c spawn argv w).0
  unfolding run_exec
  run_exec-Answers spawn [] w = refusal-Answers spawn [] w (codes "empty argv")
  run_exec-Answers spawn (program ∷ args) w =
      spawned-Answers spawn program args w (spawn program args) refl
