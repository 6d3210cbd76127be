-- ===== src/Tests/Wire.antt =====
-- src/proto.rs, frames and the output of a command.
use egdod.Prelude.{
  ℕ, ◌+◌, ◌≤◌, ◌≡◌, ◌≢◌, refl, Option, none, some, List, [], ◌∷◌, ◌++◌, Bytes, ok, err, arith,
}
use egdod.Io.{Stream, stream, Sink, Ending, eof, broken, le32, from_le32}
use egdod.Proto.{ExecFrame, stdout, stderr, exit}
use egdod.Proto.Frame.{write_msg, read_msg_opt, write_msgs, read_msg}
use egdod.Proto.Frame.RoundTrip.{read_msg_opt-write_msg}
use egdod.Proto.Exec.{recv_exec_output, stuck}
use egdod.Proto.Exec.Ceiling.{written, recv_exec_output-le-max, recv_exec_output-ne-stuck}
use egdod.Tests.Codecs.{frames, payload-decode_frame}

abbrev sink : ℕ → Sink
sink n = record { sent = []; room = n }

abbrev run : List ExecFrame
run = stdout (104 ∷ 105 ∷ []) ∷ stderr (33 ∷ []) ∷ exit 3 ∷ []

abbrev wire : Bytes
wire = 3 ∷ 0 ∷ 0 ∷ 0 ∷ 0 ∷ 104 ∷ 105 ∷ 2 ∷ 0 ∷ 0 ∷ 0 ∷ 1 ∷ 33 ∷ 2 ∷ 0 ∷ 0 ∷ 0 ∷ 2 ∷ 3 ∷ []

run_on_the_wire : write_msgs frames run (sink 30) ≡ ok (record { sent = wire; room = 11 })
unfolding write_msgs write_msg le32
run_on_the_wire = refl

first_read :
    read_msg frames (stream (5 ∷ 0 ∷ 0 ∷ 0 ∷ 1 ∷ 1 ∷ 2 ∷ 3 ∷ 4 ∷ 9 ∷ []) eof)
    ≡ ok (stderr (1 ∷ 2 ∷ 3 ∷ 4 ∷ []), stream (9 ∷ []) eof)
unfolding read_msg from_le32
first_read = refl

write_one :
    write_msg frames (exit 3) (sink 30)
    ≡ ok (record { sent = 2 ∷ 0 ∷ 0 ∷ 0 ∷ 2 ∷ 3 ∷ []; room = 24 })
unfolding write_msg le32
write_one = refl

read_msg_opt-write_msg_example :
    (f : Bytes) × (2 ∷ 0 ∷ 0 ∷ 0 ∷ 2 ∷ 3 ∷ [] ≡ [] ++ f)
    × ((rest : Bytes) (e : Ending)
        → read_msg_opt frames (stream (f ++ rest) e) ≡ ok (some (exit 3), stream rest e))
read_msg_opt-write_msg_example =
    read_msg_opt-write_msg frames (exit 3) (sink 30)
      (record { sent = 2 ∷ 0 ∷ 0 ∷ 0 ∷ 2 ∷ 3 ∷ []; room = 24 }) write_one

abbrev cut_short : Stream
cut_short = stream (7 ∷ 0 ∷ []) eof

abbrev nothing : Option ExecFrame
nothing = none

recv_exec_output-le-max_example :
    written (recv_exec_output frames (stream wire broken) (sink 10) (sink 10) 2).0 ≤ 0 + 0 + 2
recv_exec_output-le-max_example =
    recv_exec_output-le-max frames 2 (omega arith) payload-decode_frame (stream wire broken)
      (sink 10) (sink 10)

recv_exec_output-ne-stuck_example :
    (recv_exec_output frames (stream wire eof) (sink 10) (sink 10) 2).1 ≢ err stuck
recv_exec_output-ne-stuck_example =
    recv_exec_output-ne-stuck frames (stream wire eof) (sink 10) (sink 10) 2
