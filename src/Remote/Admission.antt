-- ===== src/Remote/Admission.antt =====
-- The admission of an agent, from the approved list of the controller to the agent's redial loop.
use egdod.Prelude.{
  ℕ, ◌≡◌, refl, ap, ◌∙◌, some, true, List, Bytes, [], ok, inl, inr, Result-cases, Bool-cases,
  if◌then◌else◌,
}
use egdod.Io.{stream, Ending, Sink}
use egdod.Proto.{Codec, Admission}
use egdod.Proto.Frame.{write_msg, read_msg}
use egdod.Proto.Frame.RoundTrip.{read_msg-write_msg}
use egdod.State.Approved.{KeyText, approved}
use egdod.State.Pending.{PendingAgent, Files, Calls}
use egdod.Controller.{Session, SessionMap, insert, get}
use egdod.Controller.Admit.{is_member, accept, send_admission, admit_connection}
use egdod.Agent.{Outcome, Connect, session}
use egdod.Agent.Serve.{read_admission}
use egdod.Remote.{fresh}
use mathlib.Core.Path.{subst}
use mathlib.Core.List.{append-nil}

read_admission-send_admission :
    (c : Codec Admission) (n : ℕ) (a : Admission) (w : Sink) (e : Ending)
    → send_admission c (some (fresh n)) a ≡ some w
    → read_admission c (some (stream w.sent e)) ≡ some a
unfolding read_admission send_admission
read_admission-send_admission c n a w e h = elim (Result-cases (write_msg c a (fresh n))) [
  | inl (x, bad) ↦ cc (rw (bad, send_admission) at h)
  | inr (v, good) ↦
      let same : v ≡ w = cc (rw (good, send_admission) at h) in
      let whole : read_msg c (stream w.sent e) ≡ ok (a, stream [] e) =
        subst (λ (t : Bytes). read_msg c (stream t e) ≡ ok (a, stream [] e))
          (append-nil v.sent ∙ ap (λ (s : Sink). s.sent) same)
          (read_msg-write_msg c a (fresh n) v [] e refl good) in
      rw (whole, read_admission)
]

-- An agent that was sent its admission takes itself for approved exactly where the approved list has
-- it, and then it holds its slot with this connection; another is told to wait and changes no slot.
pub session-admit_connection :
    (json : Codec (List PendingAgent)) (keys : KeyText) (calls : Calls) (c : Codec Admission)
    (n : ℕ) (peer : Bytes) (s : Session) (f : Files) (m : SessionMap) (w : Sink) (e : Ending)
    (q : Bytes)
    → (admit_connection json keys calls c (some (fresh n)) peer s f m).1.1 ≡ some w
    → let listed = is_member (approved keys f.approved_file) peer in
      (session true true Connect.connected (read_admission c (some (stream w.sent e)))
        ≡ some (if listed then Outcome.ended else Outcome.pending))
      × (get (admit_connection json keys calls c (some (fresh n)) peer s f m).1.0 q
          ≡ (if listed then get (insert m peer s) q else get m q))
unfolding admit_connection accept session
session-admit_connection json keys calls c n peer s f m w e q h =
    elim (Bool-cases (is_member (approved keys f.approved_file) peer)) [
      | inl on_list ↦
          let sent : send_admission c (some (fresh n)) Admission.approved ≡ some w =
            rw (on_list, admit_connection, accept) at h in
          rw
            (
              on_list,
              admit_connection,
              accept,
              sent,
              read_admission-send_admission c n Admission.approved w e sent,
            )
            (refl, rw (on_list, accept))
      | inr off_list ↦
          let sent : send_admission c (some (fresh n)) Admission.pending ≡ some w =
            rw (off_list, admit_connection, accept) at h in
          rw
            (
              off_list,
              admit_connection,
              accept,
              sent,
              read_admission-send_admission c n Admission.pending w e sent,
            )
            (refl, rw (off_list, accept))
    ]
