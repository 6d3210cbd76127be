-- ===== src/Remote/Command.antt =====
-- A command on the target, from `exec_into` to the child and back.
use egdod.Prelude.{ℕ, ◌≡◌, some, List, ◌∷◌, ◌++◌, Bytes, Result, ok}
use egdod.Io.{Sink}
use egdod.Disk.{Disk}
use egdod.Proto.Exec.{Recv}
use egdod.Proto.File.Taken.{delivered}
use egdod.Agent.{ExitStatus, exit_code}
use egdod.Agent.Handle.{Wire, Child, outs_of, errs_of}
use egdod.Remote.Answers.{Answers}

module _ (c : Wire) (spawn : Bytes → List Bytes → Result Bytes Child) (argv : List Bytes)
    (out err_out : Sink) (max code : ℕ) where
  -- The command ran at the target, and what it gave is at hand.
  abbrev pub Ran : Recv → Type 0
  Ran s =
      (program : Bytes) × (args : List Bytes) × (child : Child) × (status : ExitStatus) × (argv
        ≡ program ∷ args)
      × (spawn program args ≡ ok child)
      × (child.status ≡ some status)
      × (code ≡ exit_code status)
      × (s.out.sent ≡ out.sent ++ delivered (outs_of child))
      × (s.err_out.sent ≡ err_out.sent ++ delivered (errs_of child))
