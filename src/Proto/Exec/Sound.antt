-- ===== src/Proto/Exec/Sound.antt =====
-- What a receiver of frames holds when it reports a status.
use egdod.Prelude.{
  ℕ, zero, suc, ◌<◌, ◌≡◌, refl, ◌∙◌, ◌++◌, [], ◌∷◌, List, Option, none, some, Bytes, length, ok,
  or_fail-eq-ok, arith, Option-cases, inl, inr, sym, ap,
}
use egdod.Io.{stream, Sink, Ending, eof, broken}
use egdod.Proto.{Codec, ExecFrame, stdout, stderr, exit, failed, truncated}
use egdod.Proto.Frame.{read_msg_opt}
use egdod.Proto.Frame.RoundTrip.{Reads, length-Reads}
use egdod.Proto.Exec.{
  Recv, RecvError, recv_frame, recv_loop, recv_exec_output, recv_start, conclude, no_exit_status,
}
use egdod.Proto.Exec.Whole.{stdout_of, stderr_of, status_of, Arrives}
use mathlib.Core.List.{append_assoc, append-nil}

recv_frame-Arrives :
    (max : ℕ) (f : ExecFrame) (s : Recv)
    → (recv_frame max f s).1 ≡ none
    → Arrives (f ∷ []) s (recv_frame max f s)
unfolding recv_frame
recv_frame-Arrives max (stdout b) s h = ground (arith, append-nil b, append-nil s.err_out.sent)
recv_frame-Arrives max (stderr b) s h = ground (arith, append-nil b, append-nil s.out.sent)
recv_frame-Arrives max (exit c) s h =
    ground (arith, append-nil s.out.sent, append-nil s.err_out.sent)
recv_frame-Arrives max (failed e) s h = ground arith
recv_frame-Arrives max truncated s h =
    ground (arith, append-nil s.out.sent, append-nil s.err_out.sent)

Arrives-cons :
    (f : ExecFrame) (fs : List ExecFrame) (s : Recv) (x y : Recv × Option RecvError)
    → Arrives (f ∷ []) s x
    → Arrives fs x.0 y
    → Arrives (f ∷ fs) s y
Arrives-cons (stdout b) fs s x y (go, o, e, code) (go', o', e', code') = (
  go',
  o'
      ∙ rw o (ap (λ (t : Bytes). (s.out.sent ++ t) ++ stdout_of fs) (append-nil b))
      ∙ append_assoc s.out.sent b (stdout_of fs),
  e' ∙ rw (e, append-nil s.err_out.sent),
  code' ∙ ap (λ (o : Option ℕ). status_of o fs) code,
)
Arrives-cons (stderr b) fs s x y (go, o, e, code) (go', o', e', code') = (
  go',
  o' ∙ rw (o, append-nil s.out.sent),
  e'
      ∙ rw e (ap (λ (t : Bytes). (s.err_out.sent ++ t) ++ stderr_of fs) (append-nil b))
      ∙ append_assoc s.err_out.sent b (stderr_of fs),
  code' ∙ ap (λ (o : Option ℕ). status_of o fs) code,
)
Arrives-cons (exit c) fs s x y (go, o, e, code) (go', o', e', code') = (
  go',
  o' ∙ rw (o, append-nil s.out.sent),
  e' ∙ rw (e, append-nil s.err_out.sent),
  code' ∙ ap (λ (o : Option ℕ). status_of o fs) code,
)
Arrives-cons (failed m) fs s x y (go, o, e, code) (go', o', e', code') = (
  go',
  o' ∙ rw (o, append-nil s.out.sent),
  e' ∙ rw (e, append-nil s.err_out.sent),
  code' ∙ ap (λ (o : Option ℕ). status_of o fs) code,
)
Arrives-cons truncated fs s x y (go, o, e, code) (go', o', e', code') = (
  go',
  o' ∙ rw (o, append-nil s.out.sent),
  e' ∙ rw (e, append-nil s.err_out.sent),
  code' ∙ ap (λ (o : Option ℕ). status_of o fs) code,
)

recv_loop-end :
    (c : Codec ExecFrame) (max fuel : ℕ) (e : Ending) (s : Recv)
    → (recv_loop c max (suc fuel) (stream [] e) s).1 ≡ none
    → Arrives [] s (recv_loop c max (suc fuel) (stream [] e) s)
unfolding recv_loop read_msg_opt
recv_loop-end c max fuel eof s h = (refl, sym (append-nil _), sym (append-nil _), refl)
recv_loop-end c max fuel broken s h = ground arith

module _ (c : Codec ExecFrame) (max : ℕ) (e : Ending) where
  recv_loop-Arrives :
      (fuel : ℕ) (fs : List ExecFrame) (b : Bytes) (s : Recv)
      → length fs < fuel
      → Reads c fs b
      → (recv_loop c max fuel (stream b e) s).1 ≡ none
      → Arrives fs s (recv_loop c max fuel (stream b e) s)
  unfolding recv_loop
  recv_loop-Arrives zero fs b s h reads stop = elim h [ ]
  recv_loop-Arrives (suc fuel) [] b s h reads stop =
      rw reads (recv_loop-end c max fuel e s (rw reads at stop))
  recv_loop-Arrives (suc fuel) (f ∷ fs) b s h (g, rest, same, pos, read, more) stop =
      elim (Option-cases (recv_frame max f s).1) [
        | inl go ↦
            let s' = (recv_frame max f s).0 in
            rw (same, read rest e, recv_loop, go)
              (Arrives-cons f fs s (recv_frame max f s) (recv_loop c max fuel (stream rest e) s')
                (recv_frame-Arrives max f s go)
                (recv_loop-Arrives fuel fs rest s' (omega arith) more
                  (rw (same, read rest e, recv_loop, go) at stop)))
        | inr (x, halt) ↦ absurd (cc (rw (same, read rest e, recv_loop, halt) at stop))
      ]

reported :
    (x : Recv × Option RecvError) (code : ℕ)
    → (conclude x).1 ≡ ok code
    → (x.1 ≡ none) × (x.0.code ≡ some code)
reported (s, none) code h = (refl, or_fail-eq-ok s.code no_exit_status h)
reported (s, some e) code h = cc

conclude-state : (x : Recv × Option RecvError) → (conclude x).0 ≡ x.0
conclude-state (s, none) = refl
conclude-state (s, some e) = refl

-- A receiver that reports a status was sent it last, and its sinks took every payload before.
pub recv_exec_output_sound :
    (c : Codec ExecFrame) (max : ℕ) (e : Ending) (fs : List ExecFrame) (b : Bytes)
    (out err_out : Sink) (code : ℕ)
    → Reads c fs b
    → (recv_exec_output c (stream b e) out err_out max).1 ≡ ok code
    → (status_of none fs ≡ some code)
      × ((recv_exec_output c (stream b e) out err_out max).0.out.sent ≡ out.sent ++ stdout_of fs)
      × ((recv_exec_output c (stream b e) out err_out max).0.err_out.sent
          ≡ err_out.sent ++ stderr_of fs)
unfolding recv_exec_output
recv_exec_output_sound c max e fs b out err_out code reads h =
    let start = recv_start out err_out in
    let looped = recv_loop c max (suc (length b)) (stream b e) start in
    let (stop, is) = reported looped code h in
    let (go, o, er, status) =
      recv_loop-Arrives c max e (suc (length b)) fs b start
        (omega (arith, length-Reads c fs b reads)) reads stop in
    (
      sym status ∙ is,
      ap (λ (r : Recv). r.out.sent) (conclude-state looped) ∙ o,
      ap (λ (r : Recv). r.err_out.sent) (conclude-state looped) ∙ er,
    )
