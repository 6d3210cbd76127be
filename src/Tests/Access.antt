-- ===== src/Tests/Access.antt =====
-- src/state.rs, the approved keys and the waiting agents.
use egdod.Io.{Sink, stream, eof, le32}
use egdod.Proto.{Admission, Codec}
use egdod.Proto.Frame.{write_msg}
use egdod.Agent.{Outcome, ended, connected, session}
use egdod.Agent.Serve.{read_admission}
use egdod.Remote.{fresh}
use egdod.Remote.Admission.{session-admit_connection}
use egdod.Controller.{Session, get, insert}
use egdod.Controller.Admit.{accept, is_member, send_admission, admit_connection}
use egdod.Prelude.{
  some, none, Option, zero, suc, if◌then◌else◌, ◌≡◌, refl, true, false, List, [], ◌∷◌, ◌++◌, Bytes,
  ok, arith, codes, bytes_eq, ◌||◌,
}
use egdod.State.Text.{lines, trim_start, trim_end, before_hash, first_field, take_field}
use egdod.State.Approved.{absent, holds, approved, collect, line_key, append_key, contains}
use egdod.State.Approved.Membership.{contains-append_key}
use egdod.State.Pending.{PendingAgent, Files, Calls, pending, forget_pending, approve}
use egdod.State.Pending.Bounds.{Fresh}
use egdod.State.Pending.History.{
  FileIsPending, Event, dialled, approves, history, history-FileIsPending,
}
use egdod.State.Pending.Approval.{Approves, approve-eq-true}
use egdod.Tests.Codecs.{agents, unary_keys}

abbrev alice : Bytes
alice = 1 ∷ 2 ∷ []

abbrev bob : Bytes
bob = 3 ∷ []

-- A comment, and a last line without its end.
abbrev file : Bytes
file = codes "# keys\n" ++ unary_keys.print alice

abbrev start : Files
start = record { approved_file = holds file; pending_file = absent }

abbrev calls : Calls
calls = record { now = 5; dir_ok = true; approved_ok = true; reread_ok = true; pending_ok = true }

approved-alice : approved unary_keys start.approved_file ≡ ok (alice ∷ [])
unfolding approved collect line_key lines trim_start trim_end before_hash first_field take_field
approved-alice = refl

contains-append_key_example :
    contains (collect unary_keys (lines (append_key unary_keys file bob))) bob
    ≡ (contains (collect unary_keys (lines file)) bob || bytes_eq bob bob)
contains-append_key_example = contains-append_key unary_keys file bob bob

approves_bob : (approve agents unary_keys calls bob start).1 ≡ ok true
unfolding approve approved collect line_key lines trim_start trim_end before_hash first_field
    take_field forget_pending pending
approves_bob = refl

knows_alice : (approve agents unary_keys calls alice start).1 ≡ ok false
unfolding approve approved collect line_key lines trim_start trim_end before_hash first_field
    take_field
knows_alice = refl

approve-eq-true_example :
    (contains (alice ∷ []) bob ≡ false)
    × Approves agents unary_keys calls bob
        (approve agents unary_keys calls bob start).0
        (alice ∷ [])
    × ((l : List PendingAgent) × (pending agents unary_keys
            (approve agents unary_keys calls bob start).0.pending_file
          ≡ ok l)
        × Fresh (unary_keys.print bob) l)
approve-eq-true_example =
    approve-eq-true agents unary_keys calls bob start (alice ∷ []) approved-alice approves_bob

abbrev events : List Event
events = dialled calls bob ∷ dialled calls bob ∷ approves calls bob ∷ []

start-FileIsPending : FileIsPending agents unary_keys start
unfolding pending
start-FileIsPending [] e = (tt, omega arith)
start-FileIsPending (p ∷ l) e = cc

history-FileIsPending_example :
    FileIsPending agents unary_keys (history agents unary_keys events start)
history-FileIsPending_example =
    history-FileIsPending agents unary_keys events start start-FileIsPending

abbrev connection : Session
connection = record { id = 4; since = 9 }

lets_alice_in : (accept agents unary_keys calls alice connection start []).1.1 ≡ Admission.approved
unfolding accept approved collect line_key lines trim_start trim_end before_hash first_field
    take_field
lets_alice_in = refl

abbrev encode_admission : Admission → Option Bytes
encode_admission Admission.pending = some (0 ∷ [])
encode_admission Admission.approved = some (1 ∷ [])

abbrev decode_admission : Bytes → Option Admission
decode_admission (zero ∷ []) = some Admission.pending
decode_admission (suc zero ∷ []) = some Admission.approved
decode_admission _ = none

decode_admission-encode_admission :
    (a : Admission) (b : Bytes) → encode_admission a ≡ some b → decode_admission b ≡ some a
decode_admission-encode_admission Admission.pending b h = ground (arith, h)
decode_admission-encode_admission Admission.approved b h = ground (arith, h)

abbrev admissions : Codec Admission
admissions = record {
  encode = encode_admission;
  decode = decode_admission;
  decode-encode = decode_admission-encode_admission;
}

abbrev sent_in : Sink
sent_in = record { sent = 1 ∷ 0 ∷ 0 ∷ 0 ∷ 1 ∷ []; room = 3 }

admits_alice :
    (admit_connection agents unary_keys calls admissions
      (some (fresh 8))
      alice
      connection
      start
      []).1.1
    ≡ some sent_in
unfolding admit_connection send_admission write_msg le32 accept approved collect line_key lines
    trim_start trim_end before_hash first_field take_field
admits_alice = refl

session-admit_connection_example :
    (session true true connected (read_admission admissions (some (stream sent_in.sent eof)))
      ≡ some (
          if is_member (approved unary_keys start.approved_file) alice
          then ended
          else Outcome.pending))
    × (get
          (admit_connection agents unary_keys calls admissions
            (some (fresh 8))
            alice
            connection
            start
            []).1.0
          alice
        ≡ (if is_member (approved unary_keys start.approved_file) alice
            then get (insert [] alice connection) alice
            else get [] alice))
session-admit_connection_example =
    session-admit_connection agents unary_keys calls admissions 8 alice connection start [] sent_in
      eof alice admits_alice
