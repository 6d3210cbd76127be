-- ===== src/Controller/Report.antt =====
-- src/controller.rs, what the short commands print: `push`, `pull`, `init`, `pending`, `approve` and
-- `status`, with `Display` of a path of src/proto.rs and `writer_alive` of src/state.rs. A printed text is a list of
-- lines. serde_json's pretty form of a value is a parameter.
pub mod Dialable
use egdod.Prelude.{
  ℕ, Option, none, some, Bool, true, false, List, [], ◌∷◌, ◌++◌, Bytes, codes, Result, ok, err,
  ◌>>=◌, ◌>>◌, or_fail, if◌then◌else◌, map, not,
}
use egdod.Hex.{hex}
use egdod.Link.{decimal, digits}
use egdod.Proto.{PathKind, direct_local, direct_lan, direct_wan, relayed, unknown}
use egdod.Net.{ProbeMode, discovery, given}
use egdod.State.Approved.{KeyText, StateError}
use egdod.State.Pending.{PendingAgent, Files, Calls, approve, pending}
use egdod.State.Status.{SessionInfo, Status, StatusError}
use egdod.Proto.{Codec}
use egdod.Controller.Commands.{CommandError, Pulled, fetched, absent}
use egdod.Controller.Admit.{status_code}

abbrev pub text : List Bytes → Bytes
text [] = []
text (b ∷ bs) = b ++ text bs

unfoldable pub show_path : PathKind → Bytes
show_path direct_local = codes "direct-local"
show_path direct_lan = codes "direct-lan"
show_path direct_wan = codes "direct-wan"
show_path relayed = codes "relayed"
show_path unknown = codes "unknown"

-- `push` and `pull`: what they say of a file that went over.
unfoldable pub push_report : Bytes → Bytes → ℕ × Bytes → Bytes
unfolding digits hex
push_report local remote (len, digest) = text (
    codes "pushed "
    ∷ local
    ∷ codes " -> "
    ∷ remote
    ∷ codes " ("
    ∷ decimal len
    ∷ codes " bytes, sha256 "
    ∷ hex digest
    ∷ codes ")"
    ∷ [])

pub data PullError : Type 0 where
  command : CommandError → PullError
  target_has_none : PullError

unfoldable pub pull_report : Bytes → Bytes → Result CommandError Pulled → Result PullError Bytes
unfolding digits hex
pull_report local remote (err e) = err (command e)
pull_report local remote (ok absent) = err target_has_none
pull_report local remote (ok (fetched len digest)) = ok (
    text (
      codes "pulled "
      ∷ remote
      ∷ codes " -> "
      ∷ local
      ∷ codes " ("
      ∷ decimal len
      ∷ codes " bytes, sha256 "
      ∷ hex digest
      ∷ codes ")"
      ∷ []))

unfoldable pub pending_line : PendingAgent → Bytes
unfolding digits
pending_line p = text (
    p.pubkey
    ∷ codes "  attempts="
    ∷ decimal p.attempts
    ∷ codes " first_seen="
    ∷ decimal p.first_seen
    ∷ codes " last_seen="
    ∷ decimal p.last_seen
    ∷ [])

abbrev pub nobody_waits : List PendingAgent → List Bytes
nobody_waits [] = codes "no agents pending approval" ∷ []
nobody_waits (p ∷ ps) = []

unfoldable pub pending_report : (List PendingAgent → Bytes) → Bool → List PendingAgent → List Bytes
unfolding pending_line
pending_report pretty true list = pretty list ∷ []
pending_report pretty false list = nobody_waits list ++ map pending_line list

unfoldable pub pending_command :
    (List PendingAgent → Bytes)
    → Bool
    → Result StateError (List PendingAgent)
    → Result StateError (List Bytes)
unfolding pending_report
pending_command pretty as_json (err e) = err e
pending_command pretty as_json (ok list) = ok (pending_report pretty as_json list)

-- `approve`: the key must parse.
pub data ApproveError : Type 0 where
  not_a_key : ApproveError
  list_file : StateError → ApproveError

abbrev pub approve_text : Bytes → Bool → Bytes
approve_text key true = codes "approved " ++ key
approve_text key false = key ++ codes " was already approved"

abbrev pub with_text : Bytes → Files × Result StateError Bool → Files × Result ApproveError Bytes
with_text key (f, err e) = (f, err (list_file e))
with_text key (f, ok added) = (f, ok (approve_text key added))

unfoldable pub approve_command :
    Codec (List PendingAgent) → KeyText → Calls → Bytes → Files → Files × Result ApproveError Bytes
unfolding approve
approve_command json keys c typed f = elim (keys.parse typed) [
  | none ↦ (f, err not_a_key)
  | some key ↦ with_text (keys.print key) (approve json keys c key f)
]

-- `writer_alive`: the directory of the process in /proc.
unfoldable pub writer_alive : (Bytes → Bool) → Status → Bool
unfolding digits
writer_alive exists s = exists (codes "/proc/" ++ decimal s.pid)

abbrev pub or_unknown : Option Bytes → Bytes
or_unknown none = codes "unknown"
or_unknown (some e) = e

-- An em dash in UTF-8, and a space.
abbrev dash : Bytes
dash = 226 ∷ 128 ∷ 148 ∷ 32 ∷ []

unfoldable pub dialable_text : Status → Bytes
dialable_text s = elim s.dialable [
  | some b ↦ elim b [
    | true ↦ codes "yes"
    | false ↦ codes "NO " ++ (dash ++ or_unknown s.last_probe_error)
  ]
  | none ↦ codes "not probed yet"
]

abbrev pub mode_text : ProbeMode → Bytes
mode_text discovery = codes "Discovery"
mode_text given = codes "Direct"

unfoldable pub last_ok : Option ℕ → Bytes
unfolding digits
last_ok none = codes "never"
last_ok (some t) = decimal t

unfoldable pub session_line : SessionInfo → Bytes
unfolding show_path
session_line i = text (
    codes "agent:     "
    ∷ i.agent
    ∷ codes " via "
    ∷ show_path i.path
    ∷ codes " ("
    ∷ i.remote
    ∷ codes ")"
    ∷ [])

abbrev pub gone_warning : ℕ → List Bytes
gone_warning pid =
    text (
      codes "WARNING:   the controller that wrote this (pid "
      ∷ decimal pid
      ∷ codes ") is gone; everything above is its last opinion, not the current one"
      ∷ [])
    ∷ []

abbrev pub nobody_connected : List SessionInfo → List Bytes
nobody_connected [] = codes "agent:     none connected" ∷ []
nobody_connected (i ∷ is) = []

unfoldable pub status_lines : Bool → Status → List Bytes
unfolding dialable_text last_ok session_line digits
status_lines alive s =
    (codes "node id:   " ++ s.node_id)
    ∷ (codes "dialable:  " ++ dialable_text s)
    ∷ text (
        codes "probe:     "
        ∷ mode_text s.probe_mode
        ∷ codes " mode, last ok "
        ∷ last_ok s.last_probe_ok_unix
        ∷ [])
    ∷ (codes "restarts:  " ++ decimal s.endpoint_restarts)
    ∷ ((if alive then [] else gone_warning s.pid)
        ++ (map session_line s.sessions ++ nobody_connected s.sessions))

-- `status`: the exit code and what it prints.
unfoldable pub status_report : (Status → Bytes) → (Bytes → Bool) → Bool → Status → ℕ × List Bytes
unfolding status_lines writer_alive status_code
status_report pretty exists json s =
    let alive = writer_alive exists s in
    (status_code s.dialable alive, if json then pretty s ∷ [] else status_lines alive s)

unfoldable pub status :
    (Status → Bytes)
    → (Bytes → Bool)
    → Bool
    → Result StatusError Status
    → Result StatusError (ℕ × List Bytes)
unfolding status_report
status pretty exists json (err e) = err e
status pretty exists json (ok s) = ok (status_report pretty exists json s)
