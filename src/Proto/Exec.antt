-- ===== src/Proto/Exec.antt =====
-- src/proto.rs, `recv_exec_output`: the receiver of a command's frames. The stream is read through
-- `read_msg_opt`; `got` is a u64.
pub mod Ceiling
pub mod Whole
pub mod Sound
use egdod.Prelude.{
  ℕ, zero, suc, ◌+◌, ◌%◌, ◌^◌, Option, none, some, Bytes, ◌++◌, length, leb, take, Result, ok, err,
  Bool, true, false, if◌then◌else◌, or_fail,
}
use egdod.Io.{Stream, Sink, write_all}
use egdod.Proto.{Codec, ExecFrame, stdout, stderr, exit, failed, truncated}
use egdod.Proto.Frame.{MsgError, read_msg_opt}

pub data RecvError : Type 0 where
  message : MsgError → RecvError
  over_ceiling sink_failed no_exit_status : RecvError
  exec_failed : Bytes → RecvError
  -- No value of the source: the loop of the model ran out of fuel.
  stuck : RecvError

pub record Recv : Type 0 where
  pub out : Sink
  pub err_out : Sink
  pub got : ℕ
  pub code : Option ℕ
  pub cut : Bool

-- What a failed write leaves: the part that the sink still took.
abbrev pub write_part : Bytes → Sink → Sink
write_part b s = record { sent = s.sent ++ take s.room b; room = 0 }

unfoldable pub put_out : Bytes → Recv → Recv × Option RecvError
put_out b s = elim (write_all b s.out) [
  | ok w ↦ (record s { out = w }, none)
  | err _ ↦ (record s { out = write_part b s.out }, some sink_failed)
]

unfoldable pub put_err : Bytes → Recv → Recv × Option RecvError
put_err b s = elim (write_all b s.err_out) [
  | ok w ↦ (record s { err_out = w }, none)
  | err _ ↦ (record s { err_out = write_part b s.err_out }, some sink_failed)
]

abbrev pub charged : ℕ → Bytes → Recv → (Recv → Recv × Option RecvError) → Recv × Option RecvError
charged max b s write =
    let s' : Recv = record s { got = (s.got + length b) % 2 ^ 64 } in
    if leb s'.got max then write s' else (s', some over_ceiling)

-- One round of the loop, after the frame was read.
unfoldable pub recv_frame : ℕ → ExecFrame → Recv → Recv × Option RecvError
unfolding put_out put_err
recv_frame max (stdout b) s = charged max b s (put_out b)
recv_frame max (stderr b) s = charged max b s (put_err b)
recv_frame max (exit c) s = (record s { code = some c }, none)
recv_frame max (failed e) s = (s, some (exec_failed e))
recv_frame max truncated s = (record s { cut = true }, none)

module _ (c : Codec ExecFrame) (max : ℕ) where
  unfoldable pub recv_loop : ℕ → Stream → Recv → Recv × Option RecvError
  recv_loop zero r s = (s, some stuck)
  recv_loop (suc fuel) r s = elim (read_msg_opt c r) [
    | err e ↦ (s, some (message e))
    | ok (none, r') ↦ (s, none)
    | ok (some f, r') ↦
        let (s', stop) = recv_frame max f s in
        elim stop [ none ↦ recv_loop fuel r' s' | some e ↦ (s', some e) ]
  ]

abbrev pub recv_start : Sink → Sink → Recv
recv_start out err_out = record { out = out; err_out = err_out; got = 0; code = none; cut = false }

-- After the loop: an exit status must have come.
abbrev pub conclude : Recv × Option RecvError → Recv × Result RecvError ℕ
conclude (s, none) = (s, or_fail s.code no_exit_status)
conclude (s, some e) = (s, err e)

-- Each frame takes four bytes at least, so one round for each byte and one for the end are enough.
unfoldable pub recv_exec_output :
    Codec ExecFrame → Stream → Sink → Sink → ℕ → Recv × Result RecvError ℕ
unfolding recv_loop
recv_exec_output c r out err_out max =
    conclude (recv_loop c max (suc (length r.bytes)) r (recv_start out err_out))
