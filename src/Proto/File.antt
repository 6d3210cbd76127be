-- ===== src/Proto/File.antt =====
-- src/proto.rs, the file transfer: `stat_and_hash` and `send_file_body` on the sending side,
-- `create_part_file`, `ensure_free_space` and `recv_file_body` on the receiving one. SHA-256 is
-- another crate's: its one-shot function is a parameter, and a hasher is what was fed to it.
pub mod Taken
pub mod Landing
pub mod RoundTrip
use egdod.Prelude.{
  ℕ, zero, suc, ◌+◌, ◌-◌, ◌*◌, ◌%◌, ◌^◌, ◌≡◌, Option, none, some, Bool, true, false, not, ◌||◌,
  or_fail, List, [], ◌∷◌, ◌++◌, Bytes, codes, length, take, drop, leb, ltb, ◌==◌, bytes_eq,
  if◌then◌else◌, Result, ok, err, ◌>>=◌, ◌>>◌, ensure,
}
use egdod.Io.{Ending, eof, broken, Sink, write_all, IoError}
use egdod.Disk.{try_remove, FilePath, with_name, File, Disk, store, rename}
use egdod.Proto.{chunk}
use egdod.Hex.{hex}

pub data FileError : Type 0 where
  over_ceiling not_a_file_path creating_dir statvfs_failed no_space : FileError
  no_randomness creating_part no_staging : FileError
  reading too_long writing flushing too_short digest_mismatch set_mode_failed renaming : FileError
  not_found not_regular opening sending : FileError

-- `statvfs`
pub record Space : Type 0 where
  pub blocks : ℕ
  pub free_blocks : ℕ
  pub fragment : ℕ

-- What the operating system answers in one transfer. `nonce i` is the i-th draw of eight random
-- bytes, and `disk_room` the bytes that the staging file takes before a write fails.
pub record Os : Type 0 where
  pub mkdir_ok : Bool
  pub space : Option Space
  pub nonce : ℕ → Option Bytes
  pub open_ok : Bool
  pub disk_room : ℕ
  pub flush_ok : Bool
  pub set_mode_ok : Bool
  pub rename_ok : Bool
  -- Whether `remove_file` of the staging file succeeds.
  pub remove_ok : Bool

-- What each `read` gives, then the end of the stream.
pub record Reader : Type 0 where
  pub chunks : List Bytes
  pub ending : Ending

-- `ensure_free_space`: a file system that reports no blocks keeps no accounting. The product
-- saturates at `u64::MAX`.
unfoldable pub ensure_free_space : Option Space → ℕ → Result FileError (Unit {0})
ensure_free_space none len = err statvfs_failed
ensure_free_space (some s) len =
    if s.blocks == 0
    then ok tt
    else ensure (leb len (s.free_blocks * s.fragment) || leb (2 ^ 64) (s.free_blocks * s.fragment))
        no_space

-- What is checked before anything is created.
unfoldable pub admit : Os → FilePath → ℕ → ℕ → Result FileError Bytes
admit os dest len max = do
  ensure (leb len max) over_ceiling
  base ← or_fail dest.name not_a_file_path
  ensure os.mkdir_ok creating_dir
  ensure_free_space os.space len
  ok base

abbrev pub part_path : FilePath → Bytes → Bytes → FilePath
part_path dest base nonce = with_name dest (base ++ (codes ".egdod-part." ++ hex nonce))

-- `create_part_file`: up to eight names, never one that exists. `i` counts the tries made.
unfoldable pub create_part_file :
    Os → FilePath → Bytes → ℕ → ℕ → Disk → Result FileError (FilePath × Disk)
create_part_file os dest base zero i d = err no_staging
create_part_file os dest base (suc left) i d =
    let again = create_part_file os dest base left (i + 1) d in
    elim (os.nonce i) [
      | none ↦ err no_randomness
      | some n ↦ elim (d (part_path dest base n)) [
        | some f ↦ again
        | none ↦
            if os.open_ok
            then ok (
              part_path dest base n,
              store d (part_path dest base n) (some (record { content = []; mode = 0o600 })),
            )
            else err creating_part
      ]
    ]

-- The state of the receiving loop: what the hasher was fed, the u64 count, what was written.
pub record Body : Type 0 where
  pub fed : Bytes
  pub got : ℕ
  pub landed : Bytes

unfoldable pub body_loop : ℕ → ℕ → Ending → List Bytes → Body → Body × Option FileError
body_loop len room broken [] b = (b, some reading)
body_loop len room eof [] b = (b, none)
body_loop len room e ([] ∷ cs) b = (b, none)
body_loop len room e ((x ∷ c) ∷ cs) b =
    let piece : Bytes = x ∷ c in
    let b' : Body = record b { fed = b.fed ++ piece; got = (b.got + length piece) % 2 ^ 64 } in
    let rest = body_loop len room e cs (record b' { landed = b.landed ++ piece }) in
    if ltb len b'.got
    then (b', some too_long)
    else if leb (length b.landed + length piece) room
    then rest
    else (record b' { landed = take room (b.landed ++ piece) }, some writing)

abbrev pub body_start : Body
body_start = record { fed = []; got = 0; landed = [] }

-- `let _ = remove_file(tmp)`: a removal that fails is passed over.
abbrev pub cleaned : Os → FilePath → Disk → Disk
cleaned os tmp d = try_remove os.remove_ok tmp d

module _ (sha256 : Bytes → Bytes) where
  -- `verdict`: the loop's outcome, the flush, the length and the digest, in this order.
  unfoldable pub verdict : Os → ℕ → Bytes → Body × Option FileError → Result FileError (Unit {0})
  verdict os len digest (b, some e) = err e
  verdict os len digest (b, none) = do
    ensure os.flush_ok flushing
    ensure (b.got == len) too_short
    ensure (bytes_eq (sha256 b.fed) digest) digest_mismatch

  -- Everything after the staging file was created: it ends up as `dest`, or its removal is tried.
  unfoldable pub land :
      Os
      → FilePath
      → FilePath
      → ℕ
      → Bytes
      → ℕ
      → Disk
      → Body × Option FileError
      → Disk × Result FileError (Unit {0})
  land os tmp dest len digest mode d x =
      let d' = store d tmp (some (record { content = x.0.landed; mode = 0o600 })) in
      let d'' = store d tmp (some (record { content = x.0.landed; mode = mode })) in
      elim (verdict os len digest x) [
        | err e ↦ (cleaned os tmp d', err e)
        | ok _ ↦
            if not os.set_mode_ok
            then (cleaned os tmp d', err set_mode_failed)
            else if not os.rename_ok
            then (cleaned os tmp d'', err renaming)
            else (rename d'' tmp dest, ok tt)
      ]

  unfoldable pub receive :
      Os → Reader → FilePath → Bytes → ℕ → Bytes → ℕ → Disk → Disk × Result FileError (Unit {0})
  receive os r dest base len digest mode d = elim (create_part_file os dest base 8 0 d) [
    | err e ↦ (d, err e)
    | ok (tmp, d') ↦
        land os tmp dest len digest mode d'
          (body_loop len os.disk_room r.ending r.chunks body_start)
  ]

  unfoldable pub recv_file_body :
      Os → Reader → FilePath → ℕ → Bytes → ℕ → ℕ → Disk → Disk × Result FileError (Unit {0})
  recv_file_body os r dest len digest mode max d = elim (admit os dest len max) [
    | err e ↦ (d, err e)
    | ok base ↦ receive os r dest base len digest mode d
  ]

-- The reads of a regular file, at most one buffer of 64 KiB each, until one gives nothing. A file
-- of n bytes takes at most n of them.
unfoldable pub read_chunks : ℕ → Bytes → List Bytes
read_chunks zero b = []
read_chunks (suc fuel) [] = []
read_chunks (suc fuel) (x ∷ b) = take chunk (x ∷ b) ∷ read_chunks fuel (drop chunk (x ∷ b))

unfoldable pub hash_loop : List Bytes → Bytes → ℕ → Bytes × ℕ
hash_loop [] fed len = (fed, len)
hash_loop (c ∷ cs) fed len = hash_loop cs (fed ++ c) ((len + length c) % 2 ^ 64)

-- `mode_of`: `mode & 0o7777`.
abbrev pub mode_of : ℕ → ℕ
mode_of m = m % 4096

unfoldable pub stat_and_hash : (Bytes → Bytes) → Disk → FilePath → Result FileError (ℕ × ℕ × Bytes)
unfolding read_chunks hash_loop
stat_and_hash sha256 d p = elim (d p) [
  | none ↦ err not_found
  | some f ↦
      let (fed, len) = hash_loop (read_chunks (length f.content) f.content) [] 0 in
      ok (mode_of f.mode, len, sha256 fed)
]

unfoldable pub send_loop : List Bytes → Sink → Result FileError Sink
send_loop [] w = ok w
send_loop (c ∷ cs) w = elim (write_all c w) [ ok w' ↦ send_loop cs w' | err _ ↦ err sending ]

unfoldable pub send_file_body : Disk → FilePath → Sink → Result FileError Sink
unfolding read_chunks send_loop
send_file_body d p w = elim (d p) [
  | none ↦ err not_found
  | some f ↦ send_loop (read_chunks (length f.content) f.content) w
]
