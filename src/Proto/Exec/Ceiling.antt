-- ===== src/Proto/Exec/Ceiling.antt =====
-- What the receiver accepts at most, and that it ends.
use egdod.Prelude.{
  ℕ, zero, suc, ◌+◌, ◌≤◌, ◌<◌, ◌≡◌, ◌≢◌, ◌^◌, refl, Option, none, some, Bytes, length, Result, ok,
  err, arith, take, length-append, length-take, Option-cases, inl, inr, ◌⊎◌,
}
use egdod.Io.{Stream, Sink}
use egdod.Proto.{Codec, max_msg, ExecFrame, stdout, stderr}
use egdod.Proto.Frame.{MsgError, read_msg_opt}
use egdod.Proto.Frame.RoundTrip.{read_msg_opt-takes, read_msg_opt-decodes}
use egdod.Proto.Exec.{
  Recv, RecvError, recv_frame, recv_loop, recv_exec_output, recv_start, conclude, stuck, put_out,
  put_err,
}

-- The bytes of output that a frame carries.
abbrev pub payload : ExecFrame → ℕ
payload (stdout b) = length b
payload (stderr b) = length b
payload _ = 0

abbrev pub written : Recv → ℕ
written s = length s.out.sent + length s.err_out.sent

Read-cases :
    {T : Type 0} (m : Result MsgError (Option T × Stream))
    → (((e : MsgError) × (m ≡ err e)) ⊎ ((r : Stream) × (m ≡ ok (none, r))))
      ⊎ ((a : T) × (r : Stream) × (m ≡ ok (some a, r)))
Read-cases (err e) = inl (inl (e, refl))
Read-cases (ok (none, r)) = inl (inr (r, refl))
Read-cases (ok (some a, r)) = inr (a, r, refl)

conclude-state : (x : Recv × Option RecvError) → (conclude x).0 ≡ x.0
conclude-state (s, none) = refl
conclude-state (s, some e) = refl

-- What went to the sinks was charged.
record IsCharged (max base : ℕ) (s : Recv) : Type 0 where
  charged : written s ≤ base + s.got
  below : s.got ≤ max

recv_frame-written :
    (max base : ℕ) (f : ExecFrame) (s : Recv)
    → max + max_msg < 2 ^ 64
    → payload f ≤ max_msg
    → IsCharged max base s
    → (written (recv_frame max f s).0 ≤ base + max)
      × ((recv_frame max f s).1 ≡ none → IsCharged max base (recv_frame max f s).0)
unfolding recv_frame
recv_frame-written max base (stdout b) s h p v =
    let whole = length-append s.out.sent b in
    let part = length-append s.out.sent (take s.out.room b) in
    let cut = length-take s.out.room b in
    (ground (arith, whole, part, cut), λ e. ground (arith, whole, part, cut))
recv_frame-written max base (stderr b) s h p v =
    let whole = length-append s.err_out.sent b in
    let part = length-append s.err_out.sent (take s.err_out.room b) in
    let cut = length-take s.err_out.room b in
    (ground (arith, whole, part, cut), λ e. ground (arith, whole, part, cut))
recv_frame-written max base _ s h p v = (ground arith, λ e. ground arith)

module _ (c : Codec ExecFrame) (max : ℕ) (h : max + max_msg < 2 ^ 64)
    (sized : (b : Bytes) (f : ExecFrame) → c.decode b ≡ some f → payload f ≤ length b) where
  recv_loop-written :
      (fuel base : ℕ) (r : Stream) (s : Recv)
      → IsCharged max base s
      → written (recv_loop c max fuel r s).0 ≤ base + max
  unfolding recv_loop
  recv_loop-written zero base r s v = ground arith
  recv_loop-written (suc fuel) base r s v = elim (Read-cases (read_msg_opt c r)) [
    | inl (inl (e, p)) ↦ rw (p, recv_loop) (ground arith)
    | inl (inr (r', p)) ↦ rw (p, recv_loop) (ground arith)
    | inr (f, r', p) ↦
        let (b, decoded, fits) = read_msg_opt-decodes c r r' f p in
        let one = recv_frame-written max base f s h (ground (arith, sized b f decoded)) v in
        elim (Option-cases (recv_frame max f s).1) [
          | inl go ↦
              rw (p, recv_loop, go)
                (recv_loop-written fuel base r' (recv_frame max f s).0 (one.1 go))
          | inr (e, stop) ↦ rw (p, recv_loop, stop) one.0
        ]
  ]

  -- Whatever the target sends, and however the stream ends, the two sinks together grow by at most
  -- `max` bytes, provided that a decoded frame carries no more bytes than its encoding and that
  -- `max` leaves a u64 room for one more message.
  pub recv_exec_output-le-max :
      (r : Stream) (out err_out : Sink)
      → written (recv_exec_output c r out err_out max).0
        ≤ length out.sent + length err_out.sent + max
  unfolding recv_exec_output
  recv_exec_output-le-max r out err_out = rw conclude-state (
      recv_loop-written (suc (length r.bytes)) _ r (recv_start out err_out)
        (record { charged = omega arith; below = omega arith }))

frame-ne-stuck : (max : ℕ) (f : ExecFrame) (s : Recv) → (recv_frame max f s).1 ≢ some stuck
unfolding recv_frame put_out put_err
frame-ne-stuck max (stdout b) s = ground arith
frame-ne-stuck max (stderr b) s = ground arith
frame-ne-stuck max _ s = ground arith

conclude-ne-stuck : (x : Recv × Option RecvError) → x.1 ≢ some stuck → (conclude x).1 ≢ err stuck
conclude-ne-stuck (s, none) h = ground arith
conclude-ne-stuck (s, some e) h = λ p. h (cc)

-- The loop reads until the stream ends or fails: its fuel is enough on every input.
recv_loop-ne-stuck :
    (c : Codec ExecFrame) (max fuel : ℕ) (r : Stream) (s : Recv)
    → length r.bytes < fuel
    → (recv_loop c max fuel r s).1 ≢ some stuck
unfolding recv_loop
recv_loop-ne-stuck c max zero r s h = elim h [ ]
recv_loop-ne-stuck c max (suc fuel) r s h = elim (Read-cases (read_msg_opt c r)) [
  | inl (inl (e, p)) ↦ rw (p, recv_loop) (λ q. cc)
  | inl (inr (r', p)) ↦ rw (p, recv_loop) (λ q. cc)
  | inr (f, r', p) ↦
      let taken = read_msg_opt-takes c r r' (some f) p in
      elim (Option-cases (recv_frame max f s).1) [
        | inl go ↦
            rw (p, recv_loop, go)
              (recv_loop-ne-stuck c max fuel r' (recv_frame max f s).0 (ground (arith, taken)))
        | inr (e, stop) ↦ rw (p, recv_loop, stop) (λ q. frame-ne-stuck max f s (ground arith))
      ]
]

-- The receiver always ends: its loop never runs out of fuel, on any stream.
pub recv_exec_output-ne-stuck :
    (c : Codec ExecFrame) (r : Stream) (out err_out : Sink) (max : ℕ)
    → (recv_exec_output c r out err_out max).1 ≢ err stuck
unfolding recv_exec_output
recv_exec_output-ne-stuck c r out err_out max =
    conclude-ne-stuck _
      (recv_loop-ne-stuck c max (suc (length r.bytes)) r (recv_start out err_out) (omega arith))
