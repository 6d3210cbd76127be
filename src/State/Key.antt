-- ===== src/State/Key.antt =====
-- src/state.rs, the identity file of either role: `read_key`, `load_or_create_key` and
-- `write_private`. The key that goes with 32 bytes is the bytes.
pub mod Identity
pub mod Leftover
pub mod Private
use egdod.Prelude.{
  ℕ, ◌≡◌, Option, none, some, Bool, true, false, not, List, [], ◌∷◌, ◌++◌, Bytes, codes, ◌==◌, ◌%◌,
  if◌then◌else◌, length, take, Result, ok, err,
}
use egdod.Disk.{FilePath, with_name, File, Disk, store, rename}

pub data KeyError : Type 0 where
  not_32_bytes unreadable no_randomness creating_dir creating writing flushing renaming : KeyError

pub data OnUnusable : Type 0 where
  replace refuse : OnUnusable

-- What the operating system answers in one call. A write that fails puts `partial` bytes.
pub record KeyCalls : Type 0 where
  pub readable : Bool
  pub random : Option Bytes
  pub dir_ok : Bool
  pub open_ok : Bool
  pub write_ok : Bool
  pub partial : ℕ
  pub sync_ok : Bool
  pub rename_ok : Bool

unfoldable pub read_key : KeyCalls → FilePath → Disk → Result KeyError (Option Bytes)
read_key c path d = elim (d path) [
  | none ↦ ok none
  | some f ↦
      if not c.readable
      then err unreadable
      else if length f.content == 32
      then ok (some f.content)
      else err not_32_bytes
]

abbrev pub name_of : FilePath → Bytes
name_of p = elim p.name [ none ↦ [] | some n ↦ n ]

-- `unique_tmp`: the name with the process id behind it.
abbrev pub unique_tmp : Bytes → FilePath → FilePath
unique_tmp pid path = with_name path (name_of path ++ (codes ".tmp." ++ pid))

abbrev pub private_file : Bytes → Option File
private_file b = some (record { content = b; mode = 0o600 })

-- After the staging file was created.
unfoldable pub fill_private :
    KeyCalls → FilePath → FilePath → Bytes → Disk → Disk × Result KeyError (Unit {0})
fill_private c tmp path bytes d =
    if not c.write_ok
    then (store d tmp (private_file (take c.partial bytes)), err writing)
    else if not c.sync_ok
    then (store d tmp (private_file bytes), err flushing)
    else if not c.rename_ok
    then (store d tmp (private_file bytes), err renaming)
    else (rename (store d tmp (private_file bytes)) tmp path, ok tt)

-- `create_new` refuses a staging file that is there.
unfoldable pub write_private :
    KeyCalls → Bytes → FilePath → Bytes → Disk → Disk × Result KeyError (Unit {0})
write_private c pid path bytes d = elim (d (unique_tmp pid path)) [
  | some f ↦ (d, err creating)
  | none ↦
      if not c.open_ok then (d, err creating) else fill_private c (unique_tmp pid path) path bytes d
]

abbrev pub with_key : Bytes → Disk × Result KeyError (Unit {0}) → Disk × Result KeyError Bytes
with_key k (d, ok _) = (d, ok k)
with_key k (d, err e) = (d, err e)

unfoldable pub create_key : KeyCalls → Bytes → FilePath → Disk → Disk × Result KeyError Bytes
create_key c pid path d = elim c.random [
  | none ↦ (d, err no_randomness)
  | some bytes ↦
      if not c.dir_ok
      then (d, err creating_dir)
      else with_key bytes (write_private c pid path bytes d)
]

unfoldable pub on_unusable :
    OnUnusable → KeyError → Disk → Disk × Result KeyError Bytes → Disk × Result KeyError Bytes
on_unusable replace e d create = create
on_unusable refuse e d create = (d, err e)

unfoldable pub load_or_create_key :
    OnUnusable → KeyCalls → Bytes → FilePath → Disk → Disk × Result KeyError Bytes
load_or_create_key policy c pid path d = elim (read_key c path d) [
  | ok none ↦ create_key c pid path d
  | ok (some k) ↦ (d, ok k)
  | err e ↦ on_unusable policy e d (create_key c pid path d)
]

-- `warn_if_readable`: the mode that is warned about, where the group or others may use the file.
unfoldable pub warn_if_readable : Disk → FilePath → Option ℕ
warn_if_readable d path = elim (d path) [
  | none ↦ none
  | some f ↦ if f.mode % 64 == 0 then none else some (f.mode % 4096)
]
