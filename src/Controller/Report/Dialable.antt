-- ===== src/Controller/Report/Dialable.antt =====
-- From a probe of the canary, through the status file, to the exit code of `status`.
use egdod.Prelude.{
  ℕ, ◌≡◌, refl, some, Bool, true, false, List, [], Bytes, codes, Result, ok, err, if◌then◌else◌,
  ◌&&◌,
}
use egdod.Disk.{Disk, File, FilePath, store, rename_there}
use egdod.Proto.{Codec, PathKind}
use egdod.State.Dir.{StateDir, status_path}
use egdod.State.Key.{unique_tmp}
use egdod.State.Key.Identity.{tmp-ne}
use egdod.State.Atomic.{WriteCalls, WriteError, write_atomic, mode_of}
use egdod.State.Status.{Status, write_status, read_status, of_write}
use egdod.Controller.{Session, Probe, reached, unreachable}
use egdod.Controller.Admit.{status_code, exit_undialable}
use egdod.Controller.Serve.{Live, Tick, update, canary_round, publish_sessions}
use egdod.Controller.Report.{status, status_report, writer_alive}

-- The operating system lets the file be replaced.
pub record Writes (c : WriteCalls) : Type 0 where
  pub opens : c.open_ok ≡ true
  pub puts : c.write_ok ≡ true
  pub renames : c.rename_ok ≡ true

write_atomic-there :
    (c : WriteCalls) (pid name body : Bytes) (path : FilePath) (d : Disk)
    → Writes c
    → path.name ≡ some name
    → (f : File) × ((write_atomic c pid path body d).0 path ≡ some f) × (f.content ≡ body)
unfolding write_atomic
write_atomic-there c pid name body path d w named =
    let tmp = unique_tmp pid path in
    let empty : File = record { content = []; mode = mode_of (d tmp) } in
    let full : File = record { content = body; mode = mode_of (store d tmp (some empty) tmp) } in
    (
      full,
      rw (w.opens, w.puts, w.renames)
          (rename_there d tmp path (some empty) (some full) (tmp-ne pid path name named)),
      refl,
    )

of_write-state : (x : Disk × Result WriteError (Unit {0})) → (of_write x).0 ≡ x.0
of_write-state (d, ok u) = refl
of_write-state (d, err e) = refl

-- What the probe of a round found.
abbrev pub is_reached : Probe → Bool
is_reached (reached now path) = true
is_reached (unreachable msg) = false

module _ (json : Codec Status) (dir : StateDir) where
  read_status-write_status :
      (c : WriteCalls) (pid body : Bytes) (s : Status) (d : Disk)
      → Writes c
      → json.encode s ≡ some body
      → read_status json dir true (write_status json dir c pid s d).0 ≡ ok s
  unfolding read_status write_status
  read_status-write_status c pid body s d w encoded =
      let (f, there, is) =
        write_atomic-there c pid (codes "status.json") body (status_path dir) d w refl in
      rw (
        encoded,
        write_status,
        of_write-state (write_atomic c pid (status_path dir) body d),
        there,
        read_status,
        is,
        json.decode-encode s body encoded,
      )

  module _ (pid : Bytes) (report : Session → PathKind × Bytes) (print : Bytes → Bytes) where
    abbrev pub round_status : ℕ → ℕ → Tick → Probe → Live → Status
    round_status restart_after failures t p l =
        (canary_round json dir pid report print restart_after failures t p l).1.0.status

    canary_round-read :
        (restart_after failures : ℕ) (t : Tick) (p : Probe) (l : Live) (body : Bytes)
        → Writes t.calls
        → json.encode (round_status restart_after failures t p l) ≡ some body
        → (read_status json dir true
              (canary_round json dir pid report print restart_after failures t p l).1.0.disk
            ≡ ok (round_status restart_after failures t p l))
          × ((round_status restart_after failures t p l).dialable ≡ some (is_reached p))
    unfolding canary_round update
    canary_round-read restart_after failures t (reached now path) l body w encoded = (
      read_status-write_status t.calls pid body
          (round_status restart_after failures t (reached now path) l)
          (publish_sessions json dir pid report print t l).disk w encoded,
      refl,
    )
    canary_round-read restart_after failures t (unreachable msg) l body w encoded = (
      read_status-write_status t.calls pid body
          (round_status restart_after failures t (unreachable msg) l)
          (publish_sessions json dir pid report print t l).disk w encoded,
      refl,
    )

    -- After a round of the canary whose status was written, `status` answers from that round: its
    -- exit code is 0 where the probe reached the endpoint and the controller's process still runs,
    -- and 2 else, whatever it prints.
    pub status-canary_round :
        (restart_after failures : ℕ) (t : Tick) (p : Probe) (l : Live) (pretty : Status → Bytes)
        (exists : Bytes → Bool) (as_json : Bool) (body : Bytes)
        → Writes t.calls
        → json.encode (round_status restart_after failures t p l) ≡ some body
        → let l' = (canary_round json dir pid report print restart_after failures t p l).1.0 in
          (lines : List Bytes) × (status pretty exists as_json (read_status json dir true l'.disk)
            ≡ ok (
              (if is_reached p && writer_alive exists l'.status then 0 else exit_undialable),
              lines,
            ))
    unfolding status status_report status_code
    status-canary_round restart_after failures t p l pretty exists as_json body w encoded =
        let (same, dialable) = canary_round-read restart_after failures t p l body w encoded in
        let s = round_status restart_after failures t p l in
        (
          (status_report pretty exists as_json s).1,
          rw (same, status, status_report, dialable, status_code),
        )
