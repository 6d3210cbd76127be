-- ===== src/Agent/Handle.antt =====
-- src/agent.rs, `handle` and `exec`: one request of the controller, from the bytes of its stream to
-- the bytes of the reply. What the machine gives is chosen from outside: the child of a command, what
-- the operating system answers, and the connection to a service.
use egdod.Prelude.{
  ℕ, Option, none, some, Bool, true, false, List, [], ◌∷◌, ◌++◌, Bytes, codes, Result, ok, err, ◌^◌,
  ◌-◌,
}
use egdod.Io.{Stream, Sink}
use egdod.Disk.{FilePath, Disk}
use egdod.Proto.{
  Codec, Request, exec, push, pull, forward, ExecFrame, failed, Ack, accepted, refused, PullStart,
  found,
}
use egdod.Proto.Frame.{MsgError, write_msg, write_msgs, read_msg}
use egdod.Proto.File.{FileError, Os, Reader, recv_file_body, send_file_body}
use egdod.Pipe.{Outlet, splice}
use egdod.Agent.{
  Look, drain_output, interleave, handed_on, pump_frames, ExitStatus, closing, ack_for, handle_pull,
}

pub data HandleError : Type 0 where
  reading_request replying : MsgError → HandleError
  file : FileError → HandleError
  waiting : HandleError
  -- No value of the source: the looks given end before `drain_output` does.
  still_draining : HandleError

-- The stream of the reply, as the handling leaves it: broken, dropped, or finished.
pub data Reply : Type 0 where
  lost : Reply
  dropped finished : Sink → Reply

-- A child that was started: what was read of its pipes, the turns of the two pumps, whether each would
-- be found with a read in hand if it were aborted, the looks of `drain_output`, what `wait` gave, and
-- whether the writer task was late.
pub record Child : Type 0 where
  pub outs : List Bytes
  pub errs : List Bytes
  pub turns : List Bool
  pub out_in_hand : Bool
  pub err_in_hand : Bool
  pub looks : List Look
  pub status : Option ExitStatus
  pub late : Bool

-- What the pumps hand on of what they read, and the frames that the writer task gets.
abbrev pub outs_of : Child → List Bytes
outs_of child = handed_on (drain_output child.looks) child.out_in_hand child.outs

abbrev pub errs_of : Child → List Bytes
errs_of child = handed_on (drain_output child.looks) child.err_in_hand child.errs

abbrev pub output_of : Child → List ExecFrame
output_of child =
    interleave child.turns (pump_frames true (outs_of child)) (pump_frames false (errs_of child))

pub record Machine : Type 0 where
  pub spawn : Bytes → List Bytes → Result Bytes Child
  -- What a command that runs does to the files, until its reply ends.
  pub ran : Bytes → List Bytes → Disk → Disk
  -- `PathBuf::from`
  pub path : Bytes → FilePath
  pub os : Os
  -- How the bytes of a stream arrive, read by read.
  pub reads : Stream → Reader
  pub refuses : FilePath → Option FileError
  -- What others do to the disk between the hashing of a file and its sending.
  pub meanwhile : Disk → Disk
  -- `TcpStream::connect`: an error's text, or what the service sends and a writer to it.
  pub connect : Bytes → Result Bytes (Stream × Outlet)

-- The encodings of the messages.
pub record Wire : Type 0 where
  pub requests : Codec Request
  pub frames : Codec ExecFrame
  pub acks : Codec Ack
  pub starts : Codec PullStart

pub record Handled : Type 0 where
  pub disk : Disk
  pub reply : Reply
  pub service : Option Outlet
  pub result : Result HandleError (Unit {0})

-- One message, and the end of the reply.
abbrev pub finish_after :
    Result MsgError Sink → Result HandleError (Unit {0}) → Reply × Result HandleError (Unit {0})
finish_after (err e) result = (lost, err (replying e))
finish_after (ok w) result = (finished w, result)

module _ (c : Wire) where
  -- After the output: the status frame, unless the stream broke or the writer is late.
  unfoldable pub conclude_exec :
      Bool → Bool → ExitStatus → Result MsgError Sink → Reply × Result HandleError (Unit {0})
  conclude_exec late cut status (err e) = (lost, ok tt)
  conclude_exec true cut status (ok w) = (dropped w, ok tt)
  conclude_exec false cut status (ok w) =
      finish_after (write_msgs c.frames (closing cut status) w) (ok tt)

  abbrev pub left : Result MsgError Sink → Reply
  left (err e) = lost
  left (ok w) = dropped w

  -- `exec`, once the child runs: the writer task sends the frames while the child is waited for.
  unfoldable pub after_wait :
      Option ExitStatus
      → Option Bool
      → Bool
      → Result MsgError Sink
      → Reply × Result HandleError (Unit {0})
  unfolding conclude_exec
  after_wait none cut late written = (left written, err waiting)
  after_wait (some status) none late written = (left written, err still_draining)
  after_wait (some status) (some cut) late written = conclude_exec late cut status written

  unfoldable pub attend : Child → Sink → Reply × Result HandleError (Unit {0})
  unfolding after_wait
  attend child w =
      after_wait child.status (drain_output child.looks) child.late
        (write_msgs c.frames (output_of child) w)

  unfoldable pub spawned : Bytes → Result Bytes Child → Sink → Reply × Result HandleError (Unit {0})
  unfolding attend
  spawned program (err e) w =
      finish_after
        (write_msg c.frames (failed (codes "spawning " ++ (program ++ (codes ": " ++ e)))) w)
        (ok tt)
  spawned program (ok child) w = attend child w

  unfoldable pub run_exec :
      (Bytes → List Bytes → Result Bytes Child)
      → List Bytes
      → Sink
      → Reply × Result HandleError (Unit {0})
  unfolding spawned
  run_exec spawn [] w = finish_after (write_msg c.frames (failed (codes "empty argv")) w) (ok tt)
  run_exec spawn (program ∷ args) w = spawned program (spawn program args) w

  abbrev pub disk_by : Machine → Bytes → List Bytes → Disk → Result Bytes Child → Disk
  disk_by m program args d (err e) = d
  disk_by m program args d (ok child) = m.ran program args d

  -- The disk after a command, which may change any file.
  abbrev pub disk_after : Machine → List Bytes → Disk → Disk
  disk_after m [] d = d
  disk_after m (program ∷ args) d = disk_by m program args d (m.spawn program args)

  abbrev pub with_disk : Disk → Reply × Result HandleError (Unit {0}) → Handled
  with_disk d (reply, result) = record { disk = d; reply = reply; service = none; result = result }

  abbrev pub as_handled : Result FileError (Unit {0}) → Result HandleError (Unit {0})
  as_handled (ok _) = ok tt
  as_handled (err e) = err (file e)

  module _ (sha256 : Bytes → Bytes) (show : FileError → Bytes) where
    -- The arm of `Request::Push`: the reply is written whatever became of the file.
    unfoldable pub run_push : Machine → Bytes → ℕ → ℕ → Bytes → Stream → Sink → Disk → Handled
    run_push m path mode len digest rest w d =
        let (d', result) =
          recv_file_body sha256 m.os (m.reads rest) (m.path path) len digest mode (2 ^ 64 - 1) d in
        with_disk d'
          (finish_after (write_msg c.acks (ack_for sha256 show result) w) (as_handled result))

    -- After the announcement of a file, its content.
    abbrev pub after_body : Result FileError Sink → Reply × Result HandleError (Unit {0})
    after_body (err e) = (lost, err (file e))
    after_body (ok w) = (finished w, ok tt)

    abbrev pub after_start :
        Disk → FilePath → Result MsgError Sink → Reply × Result HandleError (Unit {0})
    after_start d src (err e) = (lost, err (replying e))
    after_start d src (ok w) = after_body (send_file_body d src w)

    abbrev pub send_start :
        Disk → FilePath → PullStart → Sink → Reply × Result HandleError (Unit {0})
    send_start d src (found mode len digest) w =
        after_start d src (write_msg c.starts (found mode len digest) w)
    send_start d src start w = finish_after (write_msg c.starts start w) (ok tt)

    -- The arm of `Request::Pull`.
    unfoldable pub run_pull : Machine → Bytes → Sink → Disk → Handled
    run_pull m path w d =
        let src = m.path path in
        with_disk (m.meanwhile d)
          (send_start (m.meanwhile d) src (handle_pull sha256 show (m.refuses src) d src) w)

    module _ (copy : Stream → Sink → Sink) where
      -- The arm of `Request::Forward`: a service that answers is spliced to the request's stream.
      abbrev pub join : Disk → Stream → Outlet → Stream → Result MsgError Sink → Handled
      join d tcp_r tcp_w rest (err e) = record {
        disk = d;
        reply = lost;
        service = some tcp_w;
        result = err (replying e);
      }
      join d tcp_r tcp_w rest (ok w) =
          let (service, reply) = splice copy tcp_r tcp_w rest (record { sink = w; shut = false }) in
          record { disk = d; reply = finished reply.sink; service = some service; result = ok tt }

      unfoldable pub run_forward : Machine → Bytes → Stream → Sink → Disk → Handled
      run_forward m addr rest w d = elim (m.connect addr) [
        | err e ↦ with_disk d (
            finish_after
              (write_msg c.acks (refused (codes "connecting to " ++ (addr ++ (codes ": " ++ e)))) w)
              (ok tt))
        | ok (tcp_r, tcp_w) ↦ join d tcp_r tcp_w rest (write_msg c.acks accepted w)
      ]

      unfoldable pub dispatch : Machine → Request → Stream → Sink → Disk → Handled
      unfolding run_exec run_push run_pull run_forward
      dispatch m (exec argv) rest w d = with_disk (disk_after m argv d) (run_exec m.spawn argv w)
      dispatch m (push path mode len digest) rest w d = run_push m path mode len digest rest w d
      dispatch m (pull path) rest w d = run_pull m path w d
      dispatch m (forward addr) rest w d = run_forward m addr rest w d

      -- `handle`: a request that does not read gets no answer.
      unfoldable pub handle : Machine → Stream → Sink → Disk → Handled
      unfolding dispatch
      handle m r w d = elim (read_msg c.requests r) [
        | err e ↦ with_disk d (dropped w, err (reading_request e))
        | ok (request, rest) ↦ dispatch m request rest w d
      ]
