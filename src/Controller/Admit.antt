-- ===== src/Controller/Admit.antt =====
-- src/controller.rs, `Acceptor::accept` up to the session, and `status`'s exit code.
use egdod.Controller.Sessions.{get-insert}
use egdod.Prelude.{
  ◌∙◌, bytes_eq_refl, arith, ℕ, ◌≡◌, refl, Option, none, some, Bool, true, false, ◌&&◌, Bytes, List,
  Result, ok, err, if◌then◌else◌, Bool-cases, inl, inr,
}
use egdod.Io.{Sink}
use egdod.Proto.{Codec, Admission}
use egdod.Proto.Frame.{write_msg}
use egdod.State.Approved.{KeyText, StateError, approved, contains}
use egdod.State.Pending.{PendingAgent, Files, Calls, record_pending}
use egdod.Controller.{Session, SessionMap, insert, get}

abbrev pub is_member : Result StateError (List Bytes) → Bytes → Bool
is_member (ok set) peer = contains set peer
is_member (err e) peer = false

-- The two files, the sessions and the answer to the agent. A list that cannot be read approves nobody.
unfoldable pub accept :
    Codec (List PendingAgent)
    → KeyText
    → Calls
    → Bytes
    → Session
    → Files
    → SessionMap
    → Files × (SessionMap × Admission)
unfolding insert record_pending approved
accept json keys c peer s f m =
    if is_member (approved keys f.approved_file) peer
    then (f, (insert m peer s, Admission.approved))
    else ((record_pending json keys c peer f).0, (m, Admission.pending))

-- `send_admission`: none where the stream does not open or breaks. `opens` is the stream opened.
unfoldable pub send_admission : Codec Admission → Option Sink → Admission → Option Sink
send_admission c none a = none
send_admission c (some w) a = elim (write_msg c a w) [ err e ↦ none | ok w' ↦ some w' ]

-- `Acceptor::accept` with the answer on the wire: an approved agent that does not get it gets no
-- session either.
unfoldable pub admit_connection :
    Codec (List PendingAgent)
    → KeyText
    → Calls
    → Codec Admission
    → Option Sink
    → Bytes
    → Session
    → Files
    → SessionMap
    → Files × (SessionMap × Option Sink)
unfolding accept send_admission
admit_connection json keys c admissions opens peer s f m =
    let (f', (m', a)) = accept json keys c peer s f m in
    let sent = send_admission admissions opens a in
    (f', (elim sent [ none ↦ m | some w ↦ m' ], sent))

-- `status`: 0 for a controller that is dialable and whose process runs, else 2.
abbrev pub exit_undialable : ℕ
exit_undialable = 2

abbrev pub is_true : Option Bool → Bool
is_true (some b) = b
is_true none = false

unfoldable pub status_code : Option Bool → Bool → ℕ
status_code dialable writer_alive = if is_true dialable && writer_alive then 0 else exit_undialable

-- An agent gets a session only from the list: one that is told that it is approved is on the list,
-- holds its slot with this connection, and no file changed for it.
approved-accept :
    (json : Codec (List PendingAgent)) (keys : KeyText) (c : Calls) (peer : Bytes) (s : Session)
    (f : Files) (m : SessionMap)
    → (accept json keys c peer s f m).1.1 ≡ Admission.approved
    → (is_member (approved keys f.approved_file) peer ≡ true)
      × (get (accept json keys c peer s f m).1.0 peer ≡ some s)
      × ((accept json keys c peer s f m).0 ≡ f)
unfolding accept
approved-accept json keys c peer s f m h =
    elim (Bool-cases (is_member (approved keys f.approved_file) peer)) [
      | inl e ↦ simp (e, accept) (refl, get-insert m peer peer s ∙ rw (bytes_eq_refl peer), refl)
      | inr e ↦ absurd (ground (arith, e))
    ]
