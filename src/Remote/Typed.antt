-- ===== src/Remote/Typed.antt =====
-- The types of the messages in a reply, by the kind of the request.
use egdod.Prelude.{
  ◌^◌, ◌-◌, codes, ℕ, ◌≡◌, ◌⊎◌, refl, List, ◌++◌, Bytes, Result, ok, err, inl, inr, Result-cases,
}
use egdod.Io.{Stream, Sink}
use egdod.Disk.{FilePath, Disk}
use egdod.Proto.{
  Request, exec, push, pull, forward, ExecFrame, accepted, refused, PullStart, found, missing,
  failure,
}
use egdod.Proto.Frame.{MsgError, write_msg, write_msgs, read_msg}
use egdod.Proto.File.{recv_file_body, FileError, send_file_body}
use egdod.Pipe.{Outlet, splice}
use egdod.Agent.{ack_for, handle_pull}
use egdod.Agent.Handle.{
  Machine, Wire, finished, handle, dispatch, run_push, run_pull, run_forward, send_start,
  after_start, join,
}
use egdod.Remote.Finished.{
  finish_after-finished, after_body-finished, IsRunFrames, run_exec-finished,
}

module _ (c : Wire) (sha256 : Bytes → Bytes) (show : FileError → Bytes)
    (copy : Stream → Sink → Sink) (m : Machine) where
  -- What the agent found of a file: its start alone where it is no file to send, and the bytes of that
  -- file, as they are by then, after the start where it is one.
  abbrev pub IsStarted : Disk → Bytes → Sink → Sink → Type 0
  IsStarted d path w v =
      let src = m.path path in
      let start = handle_pull sha256 show (m.refuses src) d src in
      ((start ≡ missing) × (write_msg c.starts missing w ≡ ok v))
      ⊎ (((e : Bytes) × (start ≡ failure e) × (write_msg c.starts (failure e) w ≡ ok v))
          ⊎ ((mode : ℕ) × (len : ℕ) × (digest : Bytes) × (u : Sink) × (start
                ≡ found mode len digest)
              × (write_msg c.starts (found mode len digest) w ≡ ok u)
              × (send_file_body (m.meanwhile d) src u ≡ ok v)))

  -- The answer that a request calls for, from the stream before it to the stream after it. `rest` is
  -- what follows the request, and `d` the disk that it meets.
  abbrev pub IsAnswer : Request → Stream → Disk → Sink → Sink → Type 0
  IsAnswer (exec argv) rest d w v =
      (fs : List ExecFrame) × IsRunFrames m.spawn argv fs × (write_msgs c.frames fs w ≡ ok v)
  IsAnswer (push path mode len digest) rest d w v =
      let landed =
        (recv_file_body sha256 m.os (m.reads rest) (m.path path) len digest mode (2 ^ 64 - 1)
          d).1 in
      ((landed ≡ ok tt) × (write_msg c.acks accepted w ≡ ok v))
      ⊎ ((e : FileError) × (landed ≡ err e) × (write_msg c.acks (refused (show e)) w ≡ ok v))
  IsAnswer (pull path) rest d w v = IsStarted d path w v
  IsAnswer (forward addr) rest d w v =
      ((e : Bytes) × (m.connect addr ≡ err e)
        × (write_msg c.acks (refused (codes "connecting to " ++ (addr ++ (codes ": " ++ e)))) w
            ≡ ok v))
      ⊎ ((service : Stream) × (tcp : Outlet) × (u : Sink) × (m.connect addr ≡ ok (service, tcp))
          × (write_msg c.acks accepted w ≡ ok u)
          × (copy service u ≡ v))

  after_start-finished :
      (d : Disk) (src : FilePath) (x : Result MsgError Sink) (v : Sink)
      → (after_start c sha256 show d src x).0 ≡ finished v
      → (u : Sink) × (x ≡ ok u) × (send_file_body d src u ≡ ok v)
  after_start-finished d src (err e) v h = cc h
  after_start-finished d src (ok u) v h =
      (u, refl, after_body-finished c sha256 show (send_file_body d src u) v h)

  send_start-IsStarted :
      (d : Disk) (path : Bytes) (start : PullStart) (w v : Sink)
      → handle_pull sha256 show (m.refuses (m.path path)) d (m.path path) ≡ start
      → (send_start c sha256 show (m.meanwhile d) (m.path path) start w).0 ≡ finished v
      → IsStarted d path w v
  send_start-IsStarted d path missing w v is h =
      inl (is, finish_after-finished (write_msg c.starts missing w) (ok tt) v h)
  send_start-IsStarted d path (failure e) w v is h =
      inr (inl (e, is, finish_after-finished (write_msg c.starts (failure e) w) (ok tt) v h))
  send_start-IsStarted d path (found mode len digest) w v is h =
      let (u, first, body) =
        after_start-finished (m.meanwhile d) (m.path path)
          (write_msg c.starts (found mode len digest) w) v h in
      inr (inr (mode, len, digest, u, is, first, body))

  join-finished :
      (d : Disk) (tcp_r : Stream) (tcp_w : Outlet) (rest : Stream) (x : Result MsgError Sink)
      (v : Sink)
      → (join c sha256 show copy d tcp_r tcp_w rest x).reply ≡ finished v
      → (u : Sink) × (x ≡ ok u) × (copy tcp_r u ≡ v)
  unfolding splice
  join-finished d tcp_r tcp_w rest (err e) v h = cc h
  join-finished d tcp_r tcp_w rest (ok u) v h = (u, refl, cc h)

  run_forward-IsAnswer :
      (addr : Bytes) (rest : Stream) (w v : Sink) (d : Disk)
      → (run_forward c sha256 show copy m addr rest w d).reply ≡ finished v
      → IsAnswer (forward addr) rest d w v
  unfolding run_forward
  run_forward-IsAnswer addr rest w v d h = elim (Result-cases (m.connect addr)) [
    | inl (e, off) ↦ inl (e, off, finish_after-finished _ (ok tt) v (rw (off, run_forward) at h))
    | inr ((tcp_r, tcp_w), on) ↦
        let (u, acked, copied) =
          join-finished d tcp_r tcp_w rest (write_msg c.acks accepted w) v
            (rw (on, run_forward) at h) in
        inr (tcp_r, tcp_w, u, on, acked, copied)
  ]

  acked :
      (x : Result FileError (Unit {0})) (w v : Sink)
      → write_msg c.acks (ack_for sha256 show x) w ≡ ok v
      → ((x ≡ ok tt) × (write_msg c.acks accepted w ≡ ok v))
        ⊎ ((e : FileError) × (x ≡ err e) × (write_msg c.acks (refused (show e)) w ≡ ok v))
  acked (ok tt) w v h = inl (refl, h)
  acked (err e) w v h = inr (e, refl, h)

  dispatch-IsAnswer :
      (request : Request) (rest : Stream) (w v : Sink) (d : Disk)
      → (dispatch c sha256 show copy m request rest w d).reply ≡ finished v
      → IsAnswer request rest d w v
  unfolding dispatch run_push run_pull
  dispatch-IsAnswer (exec argv) rest w v d h = run_exec-finished c m argv w v h
  dispatch-IsAnswer (push path mode len digest) rest w v d h =
      acked _ w v (finish_after-finished _ _ v h)
  dispatch-IsAnswer (pull path) rest w v d h = send_start-IsStarted d path _ w v refl h
  dispatch-IsAnswer (forward addr) rest w v d h = run_forward-IsAnswer addr rest w v d h

  -- A reply that the agent finishes is of the kind that the request calls for, and nothing else. For an
  -- exec: that there is no program or that it could not be started, or the frames of the child's
  -- output, a notice if they were cut, and last the exit code. For a push: an acknowledgement that the
  -- file landed, or the error it failed with. For a pull: the start that the file calls for, with the
  -- bytes of that file after it where it announces one. For a forward: that the service did not
  -- answer, or an acknowledgement and then what that service sends.
  pub handle-IsAnswer :
      (r : Stream) (request : Request) (rest : Stream) (w v : Sink) (d : Disk)
      → read_msg c.requests r ≡ ok (request, rest)
      → (handle c sha256 show copy m r w d).reply ≡ finished v
      → IsAnswer request rest d w v
  unfolding handle
  handle-IsAnswer r request rest w v d reads h =
      dispatch-IsAnswer request rest w v d (rw (reads, handle) at h)
