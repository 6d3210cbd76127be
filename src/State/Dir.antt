-- ===== src/State/Dir.antt =====
-- src/state.rs, `StateDir`: the one directory of a controller, the paths in it, and the controller's
-- key in it.
pub mod Lasting
use egdod.Prelude.{
  ℕ, ◌≡◌, Option, none, some, Bool, true, false, List, [], ◌∷◌, ◌++◌, Bytes, codes, bytes_eq, ◌==◌,
  if◌then◌else◌, Result, ok, err,
}
use egdod.Disk.{FilePath, Disk}
use egdod.State.Key.{KeyError, KeyCalls, refuse, read_key, load_or_create_key}

pub record StateDir : Type 0 where
  pub root : Bytes

abbrev pub ends_with_slash : Bytes → Bool
ends_with_slash [] = false
ends_with_slash (c ∷ []) = c == 47
ends_with_slash (c ∷ d ∷ b) = ends_with_slash (d ∷ b)

-- `Path::join` with a relative path.
abbrev pub join : Bytes → Bytes → Bytes
join [] b = b
join (c ∷ a) b = if ends_with_slash (c ∷ a) then (c ∷ a) ++ b else (c ∷ a) ++ (47 ∷ b)

-- The environment: `XDG_STATE_HOME` and `HOME`.
unfoldable pub default_path : Option Bytes → Option Bytes → Bytes
default_path (some x) home = join x (codes "egdod")
default_path none (some home) = join home (codes ".local/state/egdod")
default_path none none = codes ".local/state/egdod"

abbrev pub file_in : Bytes → Bytes → FilePath
file_in dir name = record { dir = dir; name = some name }

abbrev pub key_path : StateDir → FilePath
key_path s = file_in s.root (codes "controller.key")

abbrev pub sock_path : StateDir → FilePath
sock_path s = file_in s.root (codes "control.sock")

abbrev pub approved_path : StateDir → FilePath
approved_path s = file_in s.root (codes "approved")

abbrev pub pending_path : StateDir → FilePath
pending_path s = file_in s.root (codes "pending.json")

abbrev pub status_path : StateDir → FilePath
status_path s = file_in s.root (codes "status.json")

abbrev pub ssh_dir : StateDir → Bytes
ssh_dir s = join s.root (codes "ssh")

abbrev pub ssh_key_path : StateDir → FilePath
ssh_key_path s = file_in (ssh_dir s) (codes "id_ed25519")

abbrev pub ssh_pub_path : StateDir → FilePath
ssh_pub_path s = file_in (ssh_dir s) (codes "id_ed25519.pub")

abbrev pub known_hosts_path : StateDir → FilePath
known_hosts_path s = file_in (ssh_dir s) (codes "known_hosts")

pub data DirError : Type 0 where
  creating_root restricting not_initialised : DirError
  of_key : KeyError → DirError

-- The root directory's mode, once it is there, and the files.
pub record Held : Type 0 where
  pub root_mode : Option ℕ
  pub disk : Disk

pub record EnsureCalls : Type 0 where
  pub mkdir_ok : Bool
  pub chmod_ok : Bool

abbrev pub made : Option ℕ → Option ℕ
made none = some 0o755
made (some m) = some m

unfoldable pub ensure_root : EnsureCalls → Held → Held × Result DirError (Unit {0})
ensure_root c h =
    if c.mkdir_ok
    then if c.chmod_ok
      then (record h { root_mode = some 0o700 }, ok tt)
      else (record h { root_mode = made h.root_mode }, err restricting)
    else (h, err creating_root)

abbrev pub with_disk : Held → Disk × Result KeyError Bytes → Held × Result DirError Bytes
with_disk h (d, ok k) = (record h { disk = d }, ok k)
with_disk h (d, err e) = (record h { disk = d }, err (of_key e))

abbrev pub then_key :
    Held × Result DirError (Unit {0})
    → (Held → Held × Result DirError Bytes)
    → Held × Result DirError Bytes
then_key (h, ok u) next = next h
then_key (h, err e) next = (h, err e)

unfoldable pub init_key :
    EnsureCalls → KeyCalls → Bytes → StateDir → Held → Held × Result DirError Bytes
init_key e c pid s h =
    then_key (ensure_root e h)
      (λ h'. with_disk h' (load_or_create_key refuse c pid (key_path s) h'.disk))

abbrev pub loaded : Result KeyError (Option Bytes) → Result DirError Bytes
loaded (ok (some k)) = ok k
loaded (ok none) = err not_initialised
loaded (err e) = err (of_key e)

unfoldable pub load_key : KeyCalls → StateDir → Disk → Result DirError Bytes
load_key c s d = loaded (read_key c (key_path s) d)
