-- ===== src/Remote.antt =====
-- The two ends together, src/controller.rs and src/agent.rs: a request that a command writes, as `handle` reads
-- it at the target, and the reply, as the command reads it. `route_local` copies the bytes between.
pub mod Answers
pub mod Admission
pub mod Command
pub mod Starts
pub mod Told
pub mod Fetch
pub mod Store
pub mod Finished
pub mod Typed
use egdod.Prelude.{ℕ, Option, none, some, Bytes, [], ◌++◌, ◌≡◌, ◌⊎◌, inl, inr, Result, ok, err}
use egdod.Io.{Stream, stream, Ending, eof, Sink}
use egdod.Disk.{Disk}
use egdod.Proto.{Codec, Request, PullStart}
use egdod.Proto.File.{FileError}
use egdod.Proto.Frame.{MsgError, write_msg, read_msg}
use egdod.Proto.Frame.RoundTrip.{read_msg-write_msg}
use egdod.Agent.Handle.{Machine, Wire, Reply, lost, dropped, finished, Handled, handle, dispatch}

-- A stream that takes `room` bytes.
abbrev pub fresh : ℕ → Sink
fresh room = record { sent = []; room = room }

-- A reply that was dropped ends as the transport has it.
abbrev pub received : Ending → Reply → Option Stream
received drop lost = none
received drop (dropped w) = some (stream w.sent drop)
received drop (finished w) = some (stream w.sent eof)

module _ (c : Wire) (sha256 : Bytes → Bytes) (show : FileError → Bytes)
    (copy : Stream → Sink → Sink) (m : Machine) (d : Disk) where
  abbrev pub handled : ℕ → Bytes → Result MsgError Sink → Option Handled
  handled reply_room body (err e) = none
  handled reply_room body (ok w) =
      some (handle c sha256 show copy m (stream (w.sent ++ body) eof) (fresh reply_room) d)

  abbrev pub reply_of : Ending → Option Handled → Option Stream
  reply_of drop none = none
  reply_of drop (some h) = received drop h.reply

  -- The stream that answers a request without a body.
  unfoldable pub reply_to : ℕ → ℕ → Ending → Request → Option Stream
  reply_to room reply_room drop request =
      reply_of drop (handled reply_room [] (write_msg c.requests request (fresh room)))

  -- A request that was written is the request that is handled, with the body that follows it.
  pub handle-write_msg :
      (request : Request) (u w v : Sink) (body : Bytes) (e : Ending)
      → u.sent ≡ []
      → write_msg c.requests request u ≡ ok w
      → handle c sha256 show copy m (stream (w.sent ++ body) e) v d
        ≡ dispatch c sha256 show copy m request (stream body e) v d
  unfolding handle
  handle-write_msg request u w v body e empty h =
      rw (read_msg-write_msg c.requests request u w body e empty h, handle)

pub received-stream :
    (drop : Ending) (reply : Reply) (v : Sink) (r : Stream)
    → (reply ≡ dropped v) ⊎ (reply ≡ finished v)
    → received drop reply ≡ some r
    → (e : Ending) × (r ≡ stream v.sent e)
received-stream drop reply v r (inl is) h = (drop, cc (rw is at h))
received-stream drop reply v r (inr is) h = (eof, cc (rw is at h))

abbrev pub usable : Result MsgError (PullStart × Stream) → Option (PullStart × Stream)
usable (err e) = none
usable (ok x) = some x

-- How a command reads the start of the reply to a `Request::Pull`, and what is left to read.
abbrev pub read_start : Codec PullStart → Option Stream → Option (PullStart × Stream)
read_start c none = none
read_start c (some r) = usable (read_msg c r)

abbrev pub start_only : Option (PullStart × Stream) → Option PullStart
start_only none = none
start_only (some x) = some x.0
