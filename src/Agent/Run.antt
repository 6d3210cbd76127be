-- ===== src/Agent/Run.antt =====
-- A command of the agent, as the controller receives it.
use egdod.Prelude.{
  ℕ, ◌+◌, ◌≤◌, ◌<◌, ◌≡◌, ◌^◌, refl, ap, ◌∙◌, Option, none, some, Bool, true, false, List, [], ◌∷◌,
  ◌++◌, Bytes, length, ok, All,
}
use egdod.Io.{stream, eof, Sink}
use egdod.Proto.{Codec, ExecFrame, stdout, stderr, exit, failed, truncated}
use egdod.Proto.Frame.{write_msgs}
use egdod.Proto.Exec.{recv_exec_output}
use egdod.Proto.Exec.Whole.{stdout_of, stderr_of, status_of, IsRun, recv_exec_output-write_msgs}
use egdod.Proto.File.Taken.{delivered}
use egdod.Agent.{
  interleave, pump_frames, Interleaved, done, from_out, from_err, ExitStatus, exit_code, closing,
  exec_frames,
}

abbrev IsOut : ExecFrame → Type 0
IsOut (stdout b) = Unit {0}
IsOut _ = ⊥

abbrev IsErr : ExecFrame → Type 0
IsErr (stderr b) = Unit {0}
IsErr _ = ⊥

pump-IsOut :
    (reads : List Bytes)
    → All IsOut (pump_frames true reads) × (stdout_of (pump_frames true reads) ≡ delivered reads)
unfolding pump_frames
pump-IsOut [] = (tt, refl)
pump-IsOut ([] ∷ reads) = (tt, refl)
pump-IsOut ((x ∷ b) ∷ reads) =
    let (all, same) = pump-IsOut reads in ((tt, all), ap (λ (t : Bytes). (x ∷ b) ++ t) same)

pump-IsErr :
    (reads : List Bytes)
    → All IsErr (pump_frames false reads) × (stderr_of (pump_frames false reads) ≡ delivered reads)
unfolding pump_frames
pump-IsErr [] = (tt, refl)
pump-IsErr ([] ∷ reads) = (tt, refl)
pump-IsErr ((x ∷ b) ∷ reads) =
    let (all, same) = pump-IsErr reads in ((tt, all), ap (λ (t : Bytes). (x ∷ b) ++ t) same)

-- However the pumps take turns, each stream keeps its order.
abbrev Keeps : List ExecFrame → List ExecFrame → List ExecFrame → Type 0
Keeps xs ys zs = (stdout_of zs ≡ stdout_of xs) × (stderr_of zs ≡ stderr_of ys) × All IsRun zs

Interleaved-Keeps :
    (xs ys zs : List ExecFrame)
    → Interleaved xs ys zs
    → All IsOut xs
    → All IsErr ys
    → Keeps xs ys zs
Interleaved-Keeps _ _ _ done out er = (refl, refl, tt)
Interleaved-Keeps _ _ _ (from_out (stdout b) xs ys zs i) out er =
    let (o, e, run) = Interleaved-Keeps xs ys zs i out.1 er in
    (ap (λ (t : Bytes). b ++ t) o, e, (tt, run))
Interleaved-Keeps _ _ _ (from_out (stderr b) xs ys zs i) out er = absurd out.0
Interleaved-Keeps _ _ _ (from_out (exit c) xs ys zs i) out er = absurd out.0
Interleaved-Keeps _ _ _ (from_out (failed m) xs ys zs i) out er = absurd out.0
Interleaved-Keeps _ _ _ (from_out truncated xs ys zs i) out er = absurd out.0
Interleaved-Keeps _ _ _ (from_err (stderr b) xs ys zs i) out er =
    let (o, e, run) = Interleaved-Keeps xs ys zs i out er.1 in
    (o, ap (λ (t : Bytes). b ++ t) e, (tt, run))
Interleaved-Keeps _ _ _ (from_err (stdout b) xs ys zs i) out er = absurd er.0
Interleaved-Keeps _ _ _ (from_err (exit c) xs ys zs i) out er = absurd er.0
Interleaved-Keeps _ _ _ (from_err (failed m) xs ys zs i) out er = absurd er.0
Interleaved-Keeps _ _ _ (from_err truncated xs ys zs i) out er = absurd er.0

Interleaved-silent :
    (xs ys zs : List ExecFrame) (o : Option ℕ)
    → Interleaved xs ys zs
    → All IsOut xs
    → All IsErr ys
    → status_of o zs ≡ o
Interleaved-silent _ _ _ o done out er = refl
Interleaved-silent _ _ _ o (from_out (stdout b) xs ys zs i) out er =
    Interleaved-silent xs ys zs o i out.1 er
Interleaved-silent _ _ _ o (from_out (stderr b) xs ys zs i) out er = absurd out.0
Interleaved-silent _ _ _ o (from_out (exit c) xs ys zs i) out er = absurd out.0
Interleaved-silent _ _ _ o (from_out (failed m) xs ys zs i) out er = absurd out.0
Interleaved-silent _ _ _ o (from_out truncated xs ys zs i) out er = absurd out.0
Interleaved-silent _ _ _ o (from_err (stderr b) xs ys zs i) out er =
    Interleaved-silent xs ys zs o i out er.1
Interleaved-silent _ _ _ o (from_err (stdout b) xs ys zs i) out er = absurd er.0
Interleaved-silent _ _ _ o (from_err (exit c) xs ys zs i) out er = absurd er.0
Interleaved-silent _ _ _ o (from_err (failed m) xs ys zs i) out er = absurd er.0
Interleaved-silent _ _ _ o (from_err truncated xs ys zs i) out er = absurd er.0

-- What the two pumps sent holds what they read, and no status.
pub pumped :
    (outs errs : List Bytes) (zs : List ExecFrame)
    → Interleaved (pump_frames true outs) (pump_frames false errs) zs
    → (stdout_of zs ≡ delivered outs)
      × (stderr_of zs ≡ delivered errs)
      × (status_of none zs ≡ none)
      × All IsRun zs
pumped outs errs zs turns =
    let (all_out, o) = pump-IsOut outs in
    let (all_err, e) = pump-IsErr errs in
    let (keep_out, keep_err, run) = Interleaved-Keeps _ _ zs turns all_out all_err in
    (keep_out ∙ o, keep_err ∙ e, Interleaved-silent _ _ zs none turns all_out all_err, run)

Interleaved-append : (xs ys : List ExecFrame) → Interleaved xs ys (xs ++ ys)
Interleaved-append [] [] = done
Interleaved-append [] (y ∷ ys) = from_err y [] ys ys (Interleaved-append [] ys)
Interleaved-append (x ∷ xs) ys = from_out x xs ys (xs ++ ys) (Interleaved-append xs ys)

pub interleave-Interleaved :
    (ts : List Bool) (xs ys : List ExecFrame) → Interleaved xs ys (interleave ts xs ys)
unfolding interleave
interleave-Interleaved [] xs ys = Interleaved-append xs ys
interleave-Interleaved (true ∷ ts) (x ∷ xs) ys =
    from_out x xs ys _ (interleave-Interleaved ts xs ys)
interleave-Interleaved (true ∷ ts) [] ys = interleave-Interleaved ts [] ys
interleave-Interleaved (false ∷ ts) xs (y ∷ ys) =
    from_err y xs ys _ (interleave-Interleaved ts xs ys)
interleave-Interleaved (false ∷ ts) xs [] = interleave-Interleaved ts xs []

pub closing-Keeps :
    (fs : List ExecFrame) (cut : Bool) (status : ExitStatus) (o : Option ℕ)
    → All IsRun fs
    → (stdout_of (fs ++ closing cut status) ≡ stdout_of fs)
      × (stderr_of (fs ++ closing cut status) ≡ stderr_of fs)
      × (status_of o (fs ++ closing cut status) ≡ some (exit_code status))
      × All IsRun (fs ++ closing cut status)
unfolding closing
closing-Keeps [] true status o run = (refl, refl, refl, (tt, (tt, tt)))
closing-Keeps [] false status o run = (refl, refl, refl, (tt, tt))
closing-Keeps (stdout b ∷ fs) cut status o run =
    let (x, y, z, all) = closing-Keeps fs cut status o run.1 in
    (ap (λ (t : Bytes). b ++ t) x, y, z, (tt, all))
closing-Keeps (stderr b ∷ fs) cut status o run =
    let (x, y, z, all) = closing-Keeps fs cut status o run.1 in
    (x, ap (λ (t : Bytes). b ++ t) y, z, (tt, all))
closing-Keeps (exit c ∷ fs) cut status o run =
    let (x, y, z, all) = closing-Keeps fs cut status (some c) run.1 in (x, y, z, (tt, all))
closing-Keeps (failed m ∷ fs) cut status o run = absurd run.0
closing-Keeps (truncated ∷ fs) cut status o run =
    let (x, y, z, all) = closing-Keeps fs cut status o run.1 in (x, y, z, (tt, all))

-- From the child's pipes to the controller's sinks: of a command that was started, whose frames the
-- agent managed to send, the controller gets all that was read of either pipe, in order and whatever
-- turns the pumps took, and the child's exit code, if the output is within the ceiling and the sinks
-- take it.
recv_exec_output-exec_frames :
    (c : Codec ExecFrame) (program : Bytes) (args outs errs : List Bytes) (zs : List ExecFrame)
    (cut : Bool) (status : ExitStatus) (w w' out err_out : Sink) (max : ℕ)
    → Interleaved (pump_frames true outs) (pump_frames false errs) zs
    → write_msgs c (exec_frames (program ∷ args) none zs cut status) w ≡ ok w'
    → max < 2 ^ 64
    → length (delivered outs) + length (delivered errs) ≤ max
    → length (delivered outs) ≤ out.room
    → length (delivered errs) ≤ err_out.room
    → (b : Bytes) × (w'.sent ≡ w.sent ++ b)
      × let (s, code) = recv_exec_output c (stream b eof) out err_out max in
        (s.out.sent ≡ out.sent ++ delivered outs)
        × (s.err_out.sent ≡ err_out.sent ++ delivered errs)
        × (code ≡ ok (exit_code status))
unfolding exec_frames
recv_exec_output-exec_frames c program args outs errs zs cut status w w' out err_out max turns sends
      h below fits fits' =
    let (held_out, held_err, silent, run) = pumped outs errs zs turns in
    let (x, y, code, all) = closing-Keeps zs cut status none run in
    let out_is : stdout_of (zs ++ closing cut status) ≡ delivered outs = x ∙ held_out in
    let err_is : stderr_of (zs ++ closing cut status) ≡ delivered errs = y ∙ held_err in
    let (b, sent, got) =
      recv_exec_output-write_msgs c (zs ++ closing cut status) w w' out err_out max sends h all
        (rw (out_is, err_is) below) (rw out_is fits) (rw err_is fits') in
    (b, sent, rw (out_is, err_is, code) at got)
