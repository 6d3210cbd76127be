-- ===== src/Controller/Commands.antt =====
-- src/controller.rs, the commands: `route_local` on the side of `serve`, and `route`, `exec_into`,
-- `push_file` and `pull_file` on the side of a command. What the peer answers to a request is a
-- function of the request, or nothing where the stream breaks.
pub mod Transfers
use egdod.Prelude.{
  ℕ, Option, none, some, Bool, true, false, Bytes, Result, ok, err, ◌>>=◌, ◌>>◌, ensure, or_fail,
  List, [],
}
use egdod.Io.{Stream, Sink}
use egdod.Disk.{FilePath, Disk}
use egdod.Proto.{
  Codec, ExecFrame, Request, exec, push, pull, forward, Ack, accepted, refused, PullStart, found,
  missing, failure, RouteReply, routed, no_route, PathKind,
}
use egdod.Proto.Frame.{map_err}
use egdod.Proto.Exec.{Recv, RecvError, recv_exec_output, recv_start}
use egdod.Proto.File.{FileError, Os, Reader, stat_and_hash, send_file_body, recv_file_body}
use egdod.Controller.{Session, SessionMap, PickError, pick}

pub data CommandError : Type 0 where
  not_routed : Bytes → CommandError
  no_answer sending : CommandError
  local_file : FileError → CommandError
  output : RecvError → CommandError
  rejected : Bytes → CommandError
  not_readable : Bytes → CommandError

-- The reply of `route_local` to a selector. `opens` tells whether a stream of the connection opens,
-- and with what error if not.
module _ (to_lowercase print : Bytes → Bytes) (explain : PickError → Bytes) where
  unfoldable pub route_local :
      SessionMap → Bytes → (Session → Option Bytes) → (Session → PathKind × Bytes) → RouteReply
  route_local m selector opens path = elim (pick to_lowercase print m selector) [
    | err e ↦ no_route (explain e)
    | ok (id, s) ↦ elim (opens s) [
      | some e ↦ no_route e
      | none ↦ routed (print id) (path s).0 (path s).1
    ]
  ]

-- `route`: the reply of `serve`, read on the other side.
unfoldable pub route : Option RouteReply → Result CommandError (Unit {0})
route none = err no_answer
route (some (no_route e)) = err (not_routed e)
route (some (routed agent path remote)) = ok tt

-- `exec_into`: the output of the peer for the request, up to `max` bytes of it.
abbrev pub with_output : Recv × Result RecvError ℕ → Recv × Result CommandError ℕ
with_output (s, r) = (s, map_output r)
  where
    map_output : Result RecvError ℕ → Result CommandError ℕ
    map_output (ok c) = ok c
    map_output (err e) = err (output e)

unfoldable pub exec_into :
    Codec ExecFrame
    → Option RouteReply
    → (Request → Option Stream)
    → List Bytes
    → Sink
    → Sink
    → ℕ
    → Recv × Result CommandError ℕ
unfolding route
exec_into c reply peer argv out err_out max = elim (route reply) [
  | err e ↦ (recv_start out err_out, err e)
  | ok _ ↦ elim (peer (exec argv)) [
    | none ↦ (recv_start out err_out, err sending)
    | some r ↦ with_output (recv_exec_output c r out err_out max)
  ]
]

-- `exec_capture`: the output in two buffers, which take `room` bytes.
abbrev pub captured : Recv × Result CommandError ℕ → Result CommandError (ℕ × (Bytes × Bytes))
captured (s, err e) = err e
captured (s, ok code) = ok (code, (s.out.sent, s.err_out.sent))

unfoldable pub exec_capture :
    Codec ExecFrame
    → Option RouteReply
    → (Request → Option Stream)
    → List Bytes
    → ℕ
    → ℕ
    → Result CommandError (ℕ × (Bytes × Bytes))
unfolding exec_into
exec_capture c reply peer argv room max =
    let buffer : Sink = record { sent = []; room = room } in
    captured (exec_into c reply peer argv buffer buffer max)

-- `forward_one` up to the splice: the agent must have a connection to the service.
abbrev pub connected : Ack → Result CommandError (Unit {0})
connected accepted = ok tt
connected (refused e) = err (rejected e)

unfoldable pub ask_forward :
    Option RouteReply → (Request → Option Ack) → Bytes → Result CommandError (Unit {0})
unfolding route
ask_forward reply peer remote = do
  route reply
  ack ← or_fail (peer (forward remote)) no_answer
  connected ack

pub data Pulled : Type 0 where
  fetched : ℕ → Bytes → Pulled
  absent : Pulled

module _ (sha256 : Bytes → Bytes) where
  -- `take_ack`: the target's word on the file.
  abbrev pub take_ack : ℕ → Bytes → Ack → Result CommandError (ℕ × Bytes)
  take_ack len digest accepted = ok (len, digest)
  take_ack len digest (refused e) = err (rejected e)

  abbrev pub local : {A : Type 0} → Result FileError A → Result CommandError A
  local (ok a) = ok a
  local (err e) = err (local_file e)

  -- The peer gets the announcement and then the body; `peer` is its answer.
  unfoldable pub push_file :
      Option RouteReply
      → Disk
      → FilePath
      → Bytes
      → (Request → Option Ack)
      → Result CommandError (ℕ × Bytes)
  unfolding route
  push_file reply d path remote peer = do
    (mode, len, digest) ← local (stat_and_hash sha256 d path)
    route reply
    ack ← or_fail (peer (push remote mode len digest)) no_answer
    take_ack len digest ack

  abbrev pub with_pulled :
      ℕ → Bytes → Disk × Result FileError (Unit {0}) → Disk × Result CommandError Pulled
  with_pulled len digest (d, ok _) = (d, ok (fetched len digest))
  with_pulled len digest (d, err e) = (d, err (local_file e))

  unfoldable pub take_start :
      Os → Reader → FilePath → ℕ → Disk → PullStart → Disk × Result CommandError Pulled
  take_start os r path max d missing = (d, ok absent)
  take_start os r path max d (failure e) = (d, err (not_readable e))
  take_start os r path max d (found mode len digest) =
      with_pulled len digest (recv_file_body sha256 os r path len digest mode max d)

  unfoldable pub pull_file :
      Option RouteReply
      → Os
      → Reader
      → Bytes
      → FilePath
      → ℕ
      → Disk
      → (Request → Option PullStart)
      → Disk × Result CommandError Pulled
  unfolding route take_start
  pull_file reply os r remote path max d peer = elim (route reply) [
    | err e ↦ (d, err e)
    | ok _ ↦ elim (peer (pull remote)) [
      | none ↦ (d, err no_answer)
      | some start ↦ take_start os r path max d start
    ]
  ]
