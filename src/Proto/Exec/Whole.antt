-- ===== src/Proto/Exec/Whole.antt =====
-- What the agent's frames give on the controller's side, once they arrive whole.
use egdod.Prelude.{
  ℕ, zero, suc, ◌+◌, ◌≤◌, ◌<◌, ◌≡◌, ◌^◌, ◌-◌, refl, ap, sym, ◌∙◌, ◌++◌, [], ◌∷◌, List, Option, none,
  some, Bytes, length, ok, or_fail, arith, length-append, Option-cases, inl, inr, true, All,
}
use egdod.Io.{stream, Sink, eof}
use egdod.Proto.{Codec, ExecFrame, stdout, stderr, exit, failed, truncated}
use egdod.Proto.Frame.{read_msg_opt, write_msgs}
use egdod.Proto.Frame.RoundTrip.{Reads, length-Reads, write_msgs-Reads}
use egdod.Proto.Exec.{
  Recv, RecvError, recv_frame, recv_loop, recv_exec_output, recv_start, conclude, no_exit_status,
}
use mathlib.Core.List.{append_assoc, append-nil}

abbrev pub stdout_of : List ExecFrame → Bytes
stdout_of [] = []
stdout_of (stdout b ∷ fs) = b ++ stdout_of fs
stdout_of (stderr b ∷ fs) = stdout_of fs
stdout_of (exit c ∷ fs) = stdout_of fs
stdout_of (failed e ∷ fs) = stdout_of fs
stdout_of (truncated ∷ fs) = stdout_of fs

abbrev pub stderr_of : List ExecFrame → Bytes
stderr_of [] = []
stderr_of (stdout b ∷ fs) = stderr_of fs
stderr_of (stderr b ∷ fs) = b ++ stderr_of fs
stderr_of (exit c ∷ fs) = stderr_of fs
stderr_of (failed e ∷ fs) = stderr_of fs
stderr_of (truncated ∷ fs) = stderr_of fs

-- The last status sent, or the one at hand.
abbrev pub status_of : Option ℕ → List ExecFrame → Option ℕ
status_of o [] = o
status_of o (stdout b ∷ fs) = status_of o fs
status_of o (stderr b ∷ fs) = status_of o fs
status_of o (exit c ∷ fs) = status_of (some c) fs
status_of o (failed e ∷ fs) = status_of o fs
status_of o (truncated ∷ fs) = status_of o fs

abbrev pub IsRun : ExecFrame → Type 0
IsRun (failed e) = ⊥
IsRun _ = Unit {0}

-- The loop over frames that were read already.
recv_list : ℕ → List ExecFrame → Recv → Recv × Option RecvError
recv_list max [] s = (s, none)
recv_list max (f ∷ fs) s =
    let (s', stop) = recv_frame max f s in
    elim stop [ none ↦ recv_list max fs s' | some e ↦ (s', some e) ]

read_end : (c : Codec ExecFrame) → read_msg_opt c (stream [] eof) ≡ ok (none, stream [] eof)
unfolding read_msg_opt
read_end c = refl

recv_loop-recv_list :
    (c : Codec ExecFrame) (max fuel : ℕ) (fs : List ExecFrame) (b : Bytes) (s : Recv)
    → length fs < fuel
    → Reads c fs b
    → recv_loop c max fuel (stream b eof) s ≡ recv_list max fs s
unfolding recv_loop recv_list
recv_loop-recv_list c max zero fs b s h reads = elim h [ ]
recv_loop-recv_list c max (suc fuel) [] b s h reads = rw (reads, read_end c, recv_loop)
recv_loop-recv_list c max (suc fuel) (f ∷ fs) b s h (g, rest, e, pos, read, more) =
    elim (Option-cases (recv_frame max f s).1) [
      | inl go ↦
          rw (e, read rest eof, recv_loop, go, recv_list)
            (recv_loop-recv_list c max fuel fs rest (recv_frame max f s).0 (omega arith) more)
      | inr (x, stop) ↦ rw (e, read rest eof, recv_loop, stop, recv_list)
    ]

abbrev pub Arrives : List ExecFrame → Recv → Recv × Option RecvError → Type 0
Arrives fs s x =
    (x.1 ≡ none)
    × (x.0.out.sent ≡ s.out.sent ++ stdout_of fs)
    × (x.0.err_out.sent ≡ s.err_out.sent ++ stderr_of fs)
    × (x.0.code ≡ status_of s.code fs)

concluded :
    (fs : List ExecFrame) (s : Recv) (x : Recv × Option RecvError)
    → Arrives fs s x
    → let (t, code) = conclude x in
      (t.out.sent ≡ s.out.sent ++ stdout_of fs)
      × (t.err_out.sent ≡ s.err_out.sent ++ stderr_of fs)
      × (code ≡ or_fail (status_of s.code fs) no_exit_status)
concluded fs s (t, none) (go, out, err_out, code) = (out, err_out, rw code)
concluded fs s (t, some e) (go, out, err_out, code) = cc

recv_list-go :
    (max : ℕ) (f : ExecFrame) (fs : List ExecFrame) (s s' : Recv)
    → recv_frame max f s ≡ (s', none)
    → recv_list max (f ∷ fs) s ≡ recv_list max fs s'
unfolding recv_list
recv_list-go max f fs s s' e =
    rw (ap (λ (x : Recv × Option RecvError). x.1) e, recv_list)
      (ap (λ (x : Recv × Option RecvError). recv_list max fs x.0) e)

recv_frame-exit :
    (max c : ℕ) (s : Recv) → recv_frame max (exit c) s ≡ (record s { code = some c }, none)
unfolding recv_frame
recv_frame-exit max c s = refl

recv_frame-truncated :
    (max : ℕ) (s : Recv) → recv_frame max truncated s ≡ (record s { cut = true }, none)
unfolding recv_frame
recv_frame-truncated max s = refl

recv_frame-stdout :
    (max : ℕ) (b : Bytes) (s : Recv)
    → max < 2 ^ 64
    → s.got + length b ≤ max
    → length b ≤ s.out.room
    → recv_frame max (stdout b) s ≡ (
      record s {
        out = record { sent = s.out.sent ++ b; room = s.out.room - length b };
        got = s.got + length b;
      },
      none,
    )
unfolding recv_frame
recv_frame-stdout max b s h below fits = ground arith

recv_frame-stderr :
    (max : ℕ) (b : Bytes) (s : Recv)
    → max < 2 ^ 64
    → s.got + length b ≤ max
    → length b ≤ s.err_out.room
    → recv_frame max (stderr b) s ≡ (
      record s {
        err_out = record { sent = s.err_out.sent ++ b; room = s.err_out.room - length b };
        got = s.got + length b;
      },
      none,
    )
unfolding recv_frame
recv_frame-stderr max b s h below fits = ground arith

recv_list-Arrives :
    (max : ℕ) (fs : List ExecFrame) (s : Recv)
    → max < 2 ^ 64
    → All IsRun fs
    → s.got + length (stdout_of fs) + length (stderr_of fs) ≤ max
    → length (stdout_of fs) ≤ s.out.room
    → length (stderr_of fs) ≤ s.err_out.room
    → Arrives fs s (recv_list max fs s)
unfolding recv_list
recv_list-Arrives max [] s h run below fits fits' =
    (refl, sym (append-nil _), sym (append-nil _), refl)
recv_list-Arrives max (stdout b ∷ fs) s h run below fits fits' =
    let joined = length-append b (stdout_of fs) in
    let s' : Recv = record s {
      out = record { sent = s.out.sent ++ b; room = s.out.room - length b };
      got = s.got + length b;
    } in
    let (go, out, err_out, code) =
      recv_list-Arrives max fs s' h run.1 (omega (arith, joined)) (omega (arith, joined)) fits' in
    rw
      (recv_list-go max _ fs s s'
        (recv_frame-stdout max b s h (omega (arith, joined)) (omega (arith, joined))))
      (go, out ∙ append_assoc s.out.sent b _, err_out, code)
recv_list-Arrives max (stderr b ∷ fs) s h run below fits fits' =
    let joined = length-append b (stderr_of fs) in
    let s' : Recv = record s {
      err_out = record { sent = s.err_out.sent ++ b; room = s.err_out.room - length b };
      got = s.got + length b;
    } in
    let (go, out, err_out, code) =
      recv_list-Arrives max fs s' h run.1 (omega (arith, joined)) fits (omega (arith, joined)) in
    rw
      (recv_list-go max _ fs s s'
        (recv_frame-stderr max b s h (omega (arith, joined)) (omega (arith, joined))))
      (go, out, err_out ∙ append_assoc s.err_out.sent b _, code)
recv_list-Arrives max (exit c ∷ fs) s h run below fits fits' =
    rw (recv_list-go max _ fs s _ (recv_frame-exit max c s))
      (recv_list-Arrives max fs (record s { code = some c }) h run.1 below fits fits')
recv_list-Arrives max (failed e ∷ fs) s h run below fits fits' = absurd run.0
recv_list-Arrives max (truncated ∷ fs) s h run below fits fits' =
    rw (recv_list-go max _ fs s _ (recv_frame-truncated max s))
      (recv_list-Arrives max fs (record s { cut = true }) h run.1 below fits fits')

-- Frames that the agent managed to send, none of them `Failed`, are received as sent if their
-- payload is within the ceiling and the sinks take it: the standard output is the stdout payloads
-- in order, the error output the stderr payloads, and the status is the last one sent, or an error
-- if none was.
pub recv_exec_output-write_msgs :
    (c : Codec ExecFrame) (fs : List ExecFrame) (w w' out err_out : Sink) (max : ℕ)
    → write_msgs c fs w ≡ ok w'
    → max < 2 ^ 64
    → All IsRun fs
    → length (stdout_of fs) + length (stderr_of fs) ≤ max
    → length (stdout_of fs) ≤ out.room
    → length (stderr_of fs) ≤ err_out.room
    → (b : Bytes) × (w'.sent ≡ w.sent ++ b)
      × let (s, code) = recv_exec_output c (stream b eof) out err_out max in
        (s.out.sent ≡ out.sent ++ stdout_of fs)
        × (s.err_out.sent ≡ err_out.sent ++ stderr_of fs)
        × (code ≡ or_fail (status_of none fs) no_exit_status)
unfolding recv_exec_output
recv_exec_output-write_msgs c fs w w' out err_out max sends h run below fits fits' =
    let (b, sent, reads) = write_msgs-Reads c fs w w' sends in
    let start = recv_start out err_out in
    let same =
      recv_loop-recv_list c max (suc (length b)) fs b start
        (omega (arith, length-Reads c fs b reads)) reads in
    (
      b,
      sent,
      rw same
          (concluded fs start _ (recv_list-Arrives max fs start h run (omega arith) fits fits')),
    )
