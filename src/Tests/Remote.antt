-- ===== src/Tests/Remote.antt =====
-- A command, a pull and a push, from the controller to the target and back.
use egdod.Prelude.{◌⊎◌, ◌≡◌, refl, none, some, [], ◌∷◌, Bytes, codes, ok, arith, length, ◌<◌, ◌^◌}
use egdod.Io.{Sink, Stream, stream, eof, le32, from_le32}
use egdod.Disk.{FilePath, File, store, rename}
use egdod.Proto.{exec, push}
use egdod.Proto.Frame.{write_msg, write_msgs, read_msg, read_msg_opt, after_length, read_body}
use egdod.Proto.File.{
  Reader, stat_and_hash, read_chunks, hash_loop, send_file_body, send_loop, recv_file_body, admit,
  ensure_free_space, receive, create_part_file, body_loop, land, verdict,
}
use egdod.Hex.{hex}
use egdod.Agent.{
  interleave, handed_on, pump_frames, drain_output, closing, exit_code, handle_pull, stat_unless,
  start_for,
}
use egdod.Agent.Handle.{
  Child, handle, dispatch, run_exec, spawned, attend, after_wait, conclude_exec, run_pull, run_push,
}
use egdod.Controller.Commands.{pull_file, fetched, route, take_start}
use egdod.Remote.{fresh, reply_to, read_start, start_only}
use egdod.Remote.Told.{Tells}
use egdod.Remote.Fetch.{pull_file-Tells}
use egdod.Agent.Serve.{serve_connection}
use egdod.Agent.Serve.Landed.{DoneAmong, serve_connection-changes}
use egdod.Tests.Machine.{wire, sha, texts, copy, os, at, machine, log, target, local, via}
use egdod.Agent.Handle
use egdod.Remote.Typed.{IsAnswer, handle-IsAnswer}
use egdod.Remote.Store.{TargetHas, whole_body, ack_to, at_target, disk_of, push_file-TargetHas}
use egdod.Proto.File.{mode_of}
use egdod.Proto.File.Taken.{delivered}
use egdod.Controller.Commands.{push_file}
use mathlib.Core.List.{append-nil}
use mathlib.Core.Path.{subst}

abbrev reader : Reader
reader = record { chunks = (5 ∷ 6 ∷ []) ∷ []; ending = eof }

pull_fetches :
    (pull_file sha via os reader (codes "log") (at (codes "log")) 9 local (λ request.
      start_only
        (read_start wire.starts (reply_to wire sha texts copy machine target 50 50 eof request)))).1
    ≡ ok (fetched 2 (5 ∷ 6 ∷ []))
unfolding pull_file route take_start reply_to handle dispatch run_pull handle_pull stat_unless
    start_for stat_and_hash read_chunks hash_loop send_file_body send_loop write_msg read_msg
    read_msg_opt after_length read_body le32 from_le32 recv_file_body admit ensure_free_space
    receive create_part_file body_loop land verdict store rename hex
pull_fetches = refl

pull_file-Tells_example :
    Tells sha os reader
      (at (codes "log"))
      9
      local
      none
      target
      (at (codes "log"))
      (fetched 2 (5 ∷ 6 ∷ []))
      (pull_file sha via os reader (codes "log") (at (codes "log")) 9 local (λ request.
        start_only (
          read_start wire.starts
            (reply_to wire sha texts copy machine target 50 50 eof request)))).0
pull_file-Tells_example =
    pull_file-Tells wire sha texts copy machine target via 50 50 eof os reader (codes "log")
      (at (codes "log")) 9 local (fetched 2 (5 ∷ 6 ∷ [])) small (omega arith) pull_fetches
  where
    small : (f : File) → some log ≡ some f → length f.content < 2 ^ 64
    small f h =
        let same : log ≡ f = cc h in
        subst (λ (f : File). length f.content < 2 ^ 64) same (omega arith)

-- A file `a` of two bytes, its announcement and then its content.
abbrev request : Bytes
request = 6 ∷ 0 ∷ 0 ∷ 0 ∷ 2 ∷ 97 ∷ 0o600 ∷ 2 ∷ 8 ∷ 9 ∷ 8 ∷ 9 ∷ []

abbrev lands_at : FilePath
lands_at = at (codes "a")

serve_connection-changes_example :
    let d' =
      (serve_connection wire sha texts copy machine ((stream request eof, fresh 9) ∷ []) local).0 in
    (d' lands_at ≡ local lands_at)
    ⊎ DoneAmong wire sha texts copy machine lands_at
        (d' lands_at)
        ((stream request eof, fresh 9) ∷ [])
serve_connection-changes_example =
    serve_connection-changes wire sha texts copy machine (λ d. refl) (omega arith)
      ((stream request eof, fresh 9) ∷ []) local lands_at

the_file_landed :
    (serve_connection wire sha texts copy machine ((stream request eof, fresh 9) ∷ []) local).0
      lands_at
    ≡ some (record { content = 8 ∷ 9 ∷ []; mode = 0o600 })
unfolding serve_connection handle dispatch run_push write_msg read_msg read_msg_opt after_length
    read_body le32 from_le32 recv_file_body admit ensure_free_space receive create_part_file
    body_loop land verdict store rename hex
the_file_landed = refl

honest_reads : (r : Stream) → delivered (machine.reads r).chunks ≡ r.bytes
honest_reads r = all r.bytes
  where
    all : (b : Bytes) → delivered (b ∷ []) ≡ b
    all [] = refl
    all (x ∷ b) = append-nil (x ∷ b)

pushes :
    push_file sha via target (at (codes "log")) (codes "a") (
      ack_to wire sha texts copy machine local 50 50 eof
        (whole_body (send_file_body target (at (codes "log")) (fresh 9))))
    ≡ ok (2, 5 ∷ 6 ∷ [])
unfolding push_file route stat_and_hash read_chunks hash_loop send_file_body send_loop handle
    dispatch run_push write_msg read_msg read_msg_opt after_length read_body le32 from_le32
    recv_file_body admit ensure_free_space receive create_part_file body_loop land verdict store
    rename hex
pushes = refl

push_file-TargetHas_example :
    let body = whole_body (send_file_body target (at (codes "log")) (fresh 9)) in
    let sends = push (codes "a") (mode_of log.mode) (length log.content) (sha log.content) in
    (2 ≡ length log.content)
    × (5 ∷ 6 ∷ [] ≡ sha log.content)
    × TargetHas wire sha texts copy machine local
        (disk_of wire sha texts copy machine local
          (at_target wire sha texts copy machine local 50 50 sends body))
        (machine.path (codes "a"))
        log
push_file-TargetHas_example =
    push_file-TargetHas wire sha texts copy machine local via 50 9 50 eof target (at (codes "log"))
      log (codes "a") 2 (5 ∷ 6 ∷ []) honest_reads refl (omega arith) (omega arith) (omega arith)
      pushes

-- The request to run `ls`, and the reply's two frames.
abbrev asks : Bytes
asks = 3 ∷ 0 ∷ 0 ∷ 0 ∷ 0 ∷ 108 ∷ 115 ∷ []

abbrev answered : Sink
answered = record { sent = 2 ∷ 0 ∷ 0 ∷ 0 ∷ 0 ∷ 104 ∷ 2 ∷ 0 ∷ 0 ∷ 0 ∷ 2 ∷ 3 ∷ []; room = 38 }

asks-ls : read_msg wire.requests (stream asks eof) ≡ ok (exec (codes "ls" ∷ []), stream [] eof)
unfolding read_msg read_msg_opt after_length read_body from_le32
asks-ls = refl

answers-ls :
    (handle wire sha texts copy machine (stream asks eof) (fresh 50) target).reply
    ≡ Handle.finished answered
unfolding handle dispatch run_exec spawned attend after_wait conclude_exec write_msg write_msgs
    read_msg read_msg_opt after_length read_body le32 from_le32 drain_output interleave handed_on
    pump_frames closing exit_code
answers-ls = refl

handle-IsAnswer_example :
    IsAnswer wire sha texts copy machine
      (exec (codes "ls" ∷ []))
      (stream [] eof)
      target
      (fresh 50)
      answered
handle-IsAnswer_example =
    handle-IsAnswer wire sha texts copy machine (stream asks eof) (exec (codes "ls" ∷ []))
      (stream [] eof) (fresh 50) answered target asks-ls answers-ls
