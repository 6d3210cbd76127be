-- ===== src/Remote/Told.antt =====
-- What the start of a pull says of the target, and what a command makes of it.
use egdod.Prelude.{
  ℕ, ◌≡◌, ◌⊎◌, ◌<◌, ◌≤◌, ◌^◌, refl, sym, ap, ◌∙◌, Option, none, some, [], Bytes, length, Result, ok,
  ok_inj, err, inl, inr, Option-cases, arith, ok_inj,
}
use egdod.Io.{Sink}
use egdod.Disk.{FilePath, File, Disk, store}
use egdod.Proto.{PullStart, found, missing, failure}
use egdod.Proto.File.{FileError, Os, Reader, stat_and_hash, recv_file_body, mode_of}
use egdod.Proto.File.Taken.{delivered}
use egdod.Proto.File.Landing.{recv_file_body-eq-ok}
use egdod.Proto.File.RoundTrip.{send_file_body-stat_and_hash}
use egdod.Agent.{start_for, stat_unless}
use egdod.Controller.Commands.{Pulled, fetched, absent, take_start, with_pulled}
use mathlib.Core.Path.{subst}

-- The target has no such file, or the operating system says so.
abbrev pub IsGone : Option FileError → Disk → FilePath → Type 0
IsGone refusal d src = (refusal ≡ some FileError.not_found) ⊎ (d src ≡ none)

module _ (sha256 : Bytes → Bytes) (show : FileError → Bytes) where
  start_for-missing :
      (r : Result FileError (ℕ × ℕ × Bytes))
      → start_for sha256 show r ≡ missing
      → r ≡ err FileError.not_found
  unfolding start_for
  start_for-missing (ok (mode, len, digest)) h = cc h
  start_for-missing (err e) h = ap err (
      (elim e as (λ x. start_for sha256 show (err x) ≡ missing → x ≡ FileError.not_found) [
        | FileError.not_found ↦ λ h. refl
        | other ↦ λ h. cc h
      ])
        h)

  start_for-found :
      (r : Result FileError (ℕ × ℕ × Bytes)) (mode len : ℕ) (digest : Bytes)
      → start_for sha256 show r ≡ found mode len digest
      → r ≡ ok (mode, len, digest)
  unfolding start_for
  start_for-found (ok (mode, len, digest)) mode' len' digest' h = cc h
  start_for-found (err e) mode len digest h =
      (elim e
          as (λ x.
            start_for sha256 show (err x) ≡ found mode len digest
            → err x ≡ ok (mode, len, digest)) [
              | FileError.not_found ↦ λ h. cc h
              | other ↦ λ h. cc h
            ])
        h

  IsGone-there :
      (refusal : Option FileError) (d : Disk) (src : FilePath)
      → stat_unless sha256 show refusal d src ≡ err FileError.not_found
      → IsGone refusal d src
  unfolding stat_unless stat_and_hash
  IsGone-there (some e) d src h = inl (cc h)
  IsGone-there none d src h = elim (Option-cases (d src)) [
    | inl gone ↦ inr gone
    | inr (f, here) ↦ cc (rw (here, stat_and_hash) at h)
  ]

  found-there :
      (refusal : Option FileError) (d : Disk) (src : FilePath) (mode len : ℕ) (digest : Bytes)
      → stat_unless sha256 show refusal d src ≡ ok (mode, len, digest)
      → ((f : File) → d src ≡ some f → length f.content < 2 ^ 64)
      → (f : File) × (d src ≡ some f)
        × (mode ≡ mode_of f.mode)
        × (len ≡ length f.content)
        × (digest ≡ sha256 f.content)
  unfolding stat_unless
  found-there (some e) d src mode len digest h small = cc h
  found-there none d src mode len digest h small = elim (Option-cases (d src)) [
    | inl gone ↦ unfold stat_and_hash in cc (rw (gone, stat_and_hash) at h)
    | inr (f, here) ↦
        let room : Sink = record { sent = []; room = length f.content } in
        let (stat, sends) =
          send_file_body-stat_and_hash sha256 d src f room here (small f here) (omega arith) in
        (f, here, cc (h, stat), cc (h, stat), cc (h, stat))
  ]

module _ (sha256 : Bytes → Bytes) (os : Os) (r : Reader) (path : FilePath) (max : ℕ)
    (disk : Disk) where
  taken :
      (len : ℕ) (digest : Bytes) (x : Disk × Result FileError (Unit {0})) (p : Pulled)
      → (with_pulled sha256 len digest x).1 ≡ ok p
      → (x.1 ≡ ok tt) × (p ≡ fetched len digest) × ((with_pulled sha256 len digest x).0 ≡ x.0)
  taken len digest (d, ok tt) p h = (refl, cc h, refl)
  taken len digest (d, err e) p h = cc h

  -- What `pull_file` reports of a file of the target, and what it leaves on the local disk.
  abbrev pub Tells : Option FileError → Disk → FilePath → Pulled → Disk → Type 0
  Tells refusal d src absent local = IsGone refusal d src × (local ≡ disk)
  Tells refusal d src (fetched len digest) local =
      (f : File) × (d src ≡ some f)
      × (len ≡ length f.content)
      × (digest ≡ sha256 f.content)
      × (length (delivered r.chunks) ≡ length f.content)
      × (sha256 (delivered r.chunks) ≡ sha256 f.content)
      × (len ≤ max)
      × ((q : FilePath)
          → local q
            ≡ store disk path
                (some (record { content = delivered r.chunks; mode = mode_of f.mode })) q)

  module _ (show : FileError → Bytes) (refusal : Option FileError) (d : Disk) (src : FilePath)
      (small : (f : File) → d src ≡ some f → length f.content < 2 ^ 64)
      (room : os.disk_room < 2 ^ 64) where
    pub take_start-Tells :
        (start : PullStart) (p : Pulled)
        → start ≡ start_for sha256 show (stat_unless sha256 show refusal d src)
        → (take_start sha256 os r path max disk start).1 ≡ ok p
        → Tells refusal d src p (take_start sha256 os r path max disk start).0
    unfolding take_start
    take_start-Tells missing p e h =
        subst (λ (p : Pulled). Tells refusal d src p disk) (ok_inj h)
          (IsGone-there sha256 show refusal d src (start_for-missing sha256 show _ (sym e)), refl)
    take_start-Tells (failure m) p e h = cc h
    take_start-Tells (found mode len digest) p e h =
        let (good, is, state) =
          taken len digest (recv_file_body sha256 os r path len digest mode max disk) p h in
        let (f, here, m, l, dig) =
          found-there sha256 show refusal d src mode len digest
            (start_for-found sha256 show _ mode len digest (sym e)) small in
        let (landed, long, hash, below) =
          recv_file_body-eq-ok sha256 os r path len digest mode max disk room good in
        subst
          (λ (p : Pulled).
            Tells refusal d src p (take_start sha256 os r path max disk (found mode len digest)).0)
          (sym is)
          (
            f,
            here,
            l,
            dig,
            long ∙ l,
            hash ∙ dig,
            below,
            λ q.
                ap (λ (d' : Disk). d' q) state
                ∙ landed q
                ∙ ap
                    (λ (n : ℕ).
                      store disk path (some (record { content = delivered r.chunks; mode = n })) q)
                    m,
          )
