-- ===== src/State/Atomic.antt =====
-- src/state.rs, `write_atomic`: a file of the state directory is written beside itself and renamed
-- into place. `serve` and a command like `approve` are two processes that write the same files; what
-- they do between them is a sequence of steps.
pub mod Whole
use egdod.Prelude.{
  ℕ, ◌≤◌, ◌≡◌, Option, none, some, Bool, true, false, not, List, [], ◌∷◌, ◌++◌, Bytes, bytes_eq,
  if◌then◌else◌, length, take, Result, ok, err,
}
use egdod.Disk.{FilePath, File, Disk, store, rename}
use egdod.State.Key.{unique_tmp}

pub data WriteError : Type 0 where
  opening writing renaming : WriteError

-- What the operating system answers. A write that fails puts `partial` bytes.
pub record WriteCalls : Type 0 where
  pub open_ok : Bool
  pub write_ok : Bool
  pub partial : ℕ
  pub rename_ok : Bool

-- `File::create` keeps the mode of a file that is there.
abbrev pub mode_of : Option File → ℕ
mode_of (some f) = f.mode
mode_of none = 0o644

abbrev pub written : Disk → FilePath → Bytes → Disk
written d tmp b = store d tmp (some (record { content = b; mode = mode_of (d tmp) }))

-- `std::fs::write` makes the file empty first.
unfoldable pub write_atomic :
    WriteCalls → Bytes → FilePath → Bytes → Disk → Disk × Result WriteError (Unit {0})
write_atomic c pid path body d =
    let tmp = unique_tmp pid path in
    let opened = written d tmp [] in
    if not c.open_ok
    then (d, err opening)
    else if not c.write_ok
    then (written opened tmp (take c.partial body), err writing)
    else if not c.rename_ok
    then (written opened tmp body, err renaming)
    else (rename (written opened tmp body) tmp path, ok tt)

-- Where a process is with the file: the bytes that it means to write, and how many are written.
pub data Phase : Type 0 where
  idle : Phase
  staging : Bytes → ℕ → Phase

pub record System : Type 0 where
  pub disk : Disk
  pub phase : Bytes → Phase

abbrev pub in_phase : System → Bytes → Phase → Bytes → Phase
in_phase s pid ph other = if bytes_eq pid other then ph else s.phase other

-- One step of one process, known by its process id, in replacing the file at `path`; `IsBody` is
-- what the processes may mean to write.
module _ (path : FilePath) (IsBody : Bytes → Type 0) where
  pub data Step : System → System → Type 0 where
    opens :
        (s : System) (pid body : Bytes)
        → IsBody body
        → Step s (record {
          disk = written s.disk (unique_tmp pid path) [];
          phase = in_phase s pid (staging body 0);
        })
    puts :
        (s : System) (pid body : Bytes) (n m : ℕ)
        → s.phase pid ≡ staging body n
        → Step s (record {
          disk = written s.disk (unique_tmp pid path) (take m body);
          phase = in_phase s pid (staging body m);
        })
    renames :
        (s : System) (pid body : Bytes) (n : ℕ)
        → s.phase pid ≡ staging body n
        → length body ≤ n
        → Step s (record {
          disk = rename s.disk (unique_tmp pid path) path;
          phase = in_phase s pid idle;
        })
    stops : (s : System) (pid : Bytes) → Step s (record s { phase = in_phase s pid idle })

  -- What is reached from a disk with no process at work.
  pub data Reach (d : Disk) : System → Type 0 where
    start : Reach d (record { disk = d; phase = λ pid. idle })
    later : {s t : System} → Reach d s → Step s t → Reach d t
