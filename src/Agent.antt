-- ===== src/Agent.antt =====
-- src/agent.rs: the redial loop, a request's reply, and the frames of a command. Times are seconds.
-- What a dial, the child process and the network give is chosen from outside.
pub mod Backoff
pub mod Run
pub mod Handle
pub mod Serve
use egdod.Prelude.{
  ℕ, zero, suc, ◌+◌, ◌-◌, ◌*◌, ◌^◌, ◌%◌, Option, none, some, Bool, true, false, List, [], ◌∷◌, ◌++◌,
  Bytes, codes, leb, if◌then◌else◌, Result, ok, err,
}
use egdod.Io.{Ending}
use egdod.Disk.{FilePath, Disk}
use egdod.Proto.{
  Admission, ExecFrame, stdout, stderr, exit, failed, truncated, Ack, accepted, refused, PullStart,
  found, missing, failure,
}
use egdod.Proto.File.{FileError, Os, Reader, recv_file_body, stat_and_hash}

abbrev pub short_retry : ℕ
short_retry = 1

abbrev pub pending_retry : ℕ
pending_retry = 5

abbrev pub max_backoff : ℕ
max_backoff = 30

-- What one `session` gave: not approved yet, a connection that ended, or no connection.
pub data Outcome : Type 0 where
  pending ended dial_failed : Outcome

-- What the dial of `session` came to.
pub data Connect : Type 0 where
  timed_out not_reached connected : Connect

-- `session`: the endpoint must bind and the relay's URL parse; then the dial, and the admission that
-- the controller sends. The connection of an approved agent is served until it ends.
unfoldable pub session : Bool → Bool → Connect → Option Admission → Option Outcome
session false url_ok dial admission = none
session true false dial admission = none
session true true timed_out admission = none
session true true not_reached admission = none
session true true connected none = none
session true true connected (some Admission.pending) = some pending
session true true connected (some Admission.approved) = some ended

-- A failed session is a failed dial to the loop.
abbrev pub outcome_of : Option Outcome → Outcome
outcome_of none = dial_failed
outcome_of (some o) = o

abbrev pub at_most : ℕ → ℕ → ℕ
at_most n m = if leb n m then n else m

-- One round of the loop of `run`: the delay before the next dial, and the next backoff.
unfoldable pub next_dial : ℕ → Outcome → ℕ × ℕ
next_dial backoff pending = (pending_retry, short_retry)
next_dial backoff ended = (short_retry, short_retry)
next_dial backoff dial_failed = (backoff, at_most (backoff * 2) max_backoff)

unfoldable pub delays : ℕ → List Outcome → List ℕ
unfolding next_dial
delays backoff [] = []
delays backoff (o ∷ os) = let (delay, backoff') = next_dial backoff o in delay ∷ delays backoff' os

-- `pump_frames`: one frame for each read, until one gives nothing or fails. The channel's receiver
-- outlives the sender here.
unfoldable pub pump_frames : Bool → List Bytes → List ExecFrame
pump_frames is_stdout [] = []
pump_frames is_stdout ([] ∷ reads) = []
pump_frames is_stdout ((x ∷ b) ∷ reads) =
    (if is_stdout then stdout (x ∷ b) else stderr (x ∷ b)) ∷ pump_frames is_stdout reads

-- The two pumps send into one channel, in turns that the scheduler picks.
pub data Interleaved : List ExecFrame → List ExecFrame → List ExecFrame → Type 0 where
  done : Interleaved [] [] []
  from_out :
      (f : ExecFrame)
      → (xs ys zs : List ExecFrame) → Interleaved xs ys zs
      → Interleaved (f ∷ xs) ys (f ∷ zs)
  from_err :
      (f : ExecFrame)
      → (xs ys zs : List ExecFrame) → Interleaved xs ys zs
      → Interleaved xs (f ∷ ys) (f ∷ zs)

-- The same two pumps as one list: `true` where the first one is next, and once the turns are over,
-- all of the first before the second.
unfoldable pub interleave : List Bool → List ExecFrame → List ExecFrame → List ExecFrame
interleave [] xs ys = xs ++ ys
interleave (true ∷ ts) (x ∷ xs) ys = x ∷ interleave ts xs ys
interleave (true ∷ ts) [] ys = interleave ts [] ys
interleave (false ∷ ts) xs (y ∷ ys) = y ∷ interleave ts xs ys
interleave (false ∷ ts) xs [] = interleave ts xs []

-- The reads whose frames a pump hands on, where it is stopped with the last one in hand.
unfoldable pub all_but_last : List Bytes → List Bytes
all_but_last [] = []
all_but_last (b ∷ []) = []
all_but_last (b ∷ (b' ∷ reads)) = b ∷ all_but_last (b' ∷ reads)

-- `drain_output` that gives up aborts the pumps: one that waits to hand a frame on loses it. A pump
-- that is not stopped hands on all its reads.
unfoldable pub handed_on : Option Bool → Bool → List Bytes → List Bytes
unfolding all_but_last
handed_on (some true) true reads = all_but_last reads
handed_on (some true) false reads = reads
handed_on (some false) in_hand reads = reads
handed_on none in_hand reads = reads

-- The status of the child: an exit code, or the signal that ended it.
pub record ExitStatus : Type 0 where
  pub code : Option ℕ
  pub signal : Option ℕ

unfoldable pub exit_code : ExitStatus → ℕ
exit_code s = elim s.code [ some c ↦ c | none ↦ elim s.signal [ none ↦ 128 | some n ↦ 128 + n ] ]

-- What `exec` sends after the output: that it was cut, if it was, and the exit status.
unfoldable pub closing : Bool → ExitStatus → List ExecFrame
unfolding exit_code
closing cut status = (if cut then truncated ∷ [] else []) ++ (exit (exit_code status) ∷ [])

-- What `exec` sends for a command that could not be started, and for one that was. `output` is what
-- the pumps sent.
unfoldable pub exec_frames :
    List Bytes → Option Bytes → List ExecFrame → Bool → ExitStatus → List ExecFrame
unfolding closing
exec_frames [] spawn_error output cut status = failed (codes "empty argv") ∷ []
exec_frames (program ∷ args) (some e) output cut status = failed e ∷ []
exec_frames (program ∷ args) none output cut status = output ++ closing cut status

-- One look of `drain_output`'s loop, every two seconds: the pumps are done, or how many frames went
-- out since and whether one is being sent.
pub data Look : Type 0 where
  finished : Look
  waiting : ℕ → Bool → Bool → Look

-- True where the output is cut: nothing moved since the last look, or the cap was passed. Looks that
-- do not end the loop are followed by another.
unfoldable pub drain_output : List Look → Option Bool
drain_output [] = none
drain_output (finished ∷ ls) = some false
drain_output (waiting zero false capped ∷ ls) = some true
drain_output (waiting zero true capped ∷ ls) =
    let rest = drain_output ls in if capped then some true else rest
drain_output (waiting (suc n) sending capped ∷ ls) =
    let rest = drain_output ls in if capped then some true else rest

module _ (sha256 : Bytes → Bytes) (show : FileError → Bytes) where
  abbrev pub ack_for : Result FileError (Unit {0}) → Ack
  ack_for (ok _) = accepted
  ack_for (err e) = refused (show e)

  -- `Request::Push`: the file lands, and the reply tells whether it did.
  unfoldable pub handle_push : Os → Reader → FilePath → ℕ → ℕ → Bytes → Disk → Disk × Ack
  handle_push os r dest mode len digest d =
      let (d', result) = recv_file_body sha256 os r dest len digest mode (2 ^ 64 - 1) d in
      (d', ack_for result)

  -- `stat_and_hash`, where the operating system may refuse the path: it does not open, it is no
  -- regular file, or a read fails.
  unfoldable pub stat_unless : Option FileError → Disk → FilePath → Result FileError (ℕ × ℕ × Bytes)
  stat_unless (some e) d src = err e
  stat_unless none d src = stat_and_hash sha256 d src

  -- `Request::Pull`: a file that is not there has a reply of its own.
  unfoldable pub start_for : Result FileError (ℕ × ℕ × Bytes) → PullStart
  start_for (ok (mode, len, digest)) = found mode len digest
  start_for (err e) = elim e [ FileError.not_found ↦ missing | other ↦ failure (show other) ]

  unfoldable pub handle_pull : Option FileError → Disk → FilePath → PullStart
  unfolding stat_unless start_for
  handle_pull refusal d src = start_for (stat_unless refusal d src)
