-- ===== src/State/Status.antt =====
-- src/state.rs, what `serve` publishes about itself: the status file, `write_status` and
-- `read_status`. Its JSON is serde_json's, a parameter.
pub mod Readers
use egdod.Prelude.{
  ℕ, ◌≡◌, Option, none, some, Bool, true, false, List, [], ◌∷◌, Bytes, codes, Result, ok, err,
}
use egdod.Disk.{FilePath, File, Disk}
use egdod.Proto.{Codec, PathKind}
use egdod.Net.{ProbeMode}
use egdod.State.Dir.{StateDir, status_path}
use egdod.State.Atomic.{WriteError, WriteCalls, write_atomic}

pub record SessionInfo : Type 0 where
  pub agent : Bytes
  pub path : PathKind
  pub remote : Bytes
  pub since_unix : ℕ

pub record Status : Type 0 where
  pub node_id : Bytes
  pub pid : ℕ
  pub updated_unix : ℕ
  pub direct_addrs : List Bytes
  pub dialable : Option Bool
  pub probe_mode : ProbeMode
  pub last_probe_ok_unix : Option ℕ
  pub last_probe_path : Option PathKind
  pub last_probe_error : Option Bytes
  pub consecutive_probe_failures : ℕ
  pub endpoint_restarts : ℕ
  pub sessions : List SessionInfo

pub data StatusError : Type 0 where
  encoding reading parsing : StatusError
  writing_status : WriteError → StatusError

abbrev pub of_write : Disk × Result WriteError (Unit {0}) → Disk × Result StatusError (Unit {0})
of_write (d, ok u) = (d, ok u)
of_write (d, err e) = (d, err (writing_status e))

module _ (json : Codec Status) (dir : StateDir) where
  unfoldable pub write_status :
      WriteCalls → Bytes → Status → Disk → Disk × Result StatusError (Unit {0})
  write_status c pid status d = elim (json.encode status) [
    | none ↦ (d, err encoding)
    | some body ↦ of_write (write_atomic c pid (status_path dir) body d)
  ]

  abbrev pub parse : Option Status → Result StatusError Status
  parse none = err parsing
  parse (some s) = ok s

  -- `can_read` is whether the operating system lets the reader have the file.
  unfoldable pub read_status : Bool → Disk → Result StatusError Status
  read_status can_read d = elim (d (status_path dir)) [
    | none ↦ err reading
    | some f ↦ elim can_read [ true ↦ parse (json.decode f.content) | false ↦ err reading ]
  ]
