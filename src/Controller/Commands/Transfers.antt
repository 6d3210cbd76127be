-- ===== src/Controller/Commands/Transfers.antt =====
-- A file that a command pushes or pulls.
use egdod.Prelude.{
  ℕ, ◌≡◌, ◌<◌, ◌⊎◌, ◌^◌, ◌-◌, refl, ap, ◌∙◌, Option, none, some, Bytes, length, Result, ok, err,
  inl, inr, Option-cases, arith, [],
}
use egdod.Disk.{FilePath, File, Disk, store}
use egdod.Proto.{
  Request, push, pull, Ack, accepted, refused, PullStart, found, missing, failure, RouteReply,
}
use egdod.Proto.File.{FileError, Os, Reader, stat_and_hash, recv_file_body, mode_of}
use egdod.Proto.File.Taken.{delivered}
use egdod.Proto.File.Landing.{IsSpared, recv_file_body-eq-ok, recv_file_body-eq-err}
use egdod.Controller.Commands.{
  CommandError, route, push_file, pull_file, take_start, take_ack, with_pulled,
}
use egdod.Agent.{handle_push}
use egdod.Proto.File.RoundTrip.{send_file_body-stat_and_hash}

module _ (sha256 : Bytes → Bytes) where
  pulled-state :
      (len : ℕ) (digest : Bytes) (x : Disk × Result FileError (Unit {0}))
      → (with_pulled sha256 len digest x).0 ≡ x.0
  pulled-state len digest (d, ok _) = refl
  pulled-state len digest (d, err e) = refl

  module _ (reply : Option RouteReply) (os : Os) (r : Reader) (remote : Bytes) (path : FilePath)
      (max : ℕ) (d : Disk) (peer : Request → Option PullStart) where
    Result-cases :
        (x : Disk × Result FileError (Unit {0})) → ((e : FileError) × (x.1 ≡ err e)) ⊎ (x.1 ≡ ok tt)
    Result-cases (d', err e) = inl (e, refl)
    Result-cases (d', ok tt) = inr refl

    Route-cases :
        (x : Result CommandError (Unit {0})) → ((e : CommandError) × (x ≡ err e)) ⊎ (x ≡ ok tt)
    Route-cases (err e) = inl (e, refl)
    Route-cases (ok tt) = inr refl

    start-unchanged :
        (s : PullStart) (q : FilePath) (e : CommandError)
        → (take_start sha256 os r path max d s).1 ≡ err e
        → IsSpared os path d (take_start sha256 os r path max d s).0 q
    unfolding take_start
    start-unchanged missing q e h = inl refl
    start-unchanged (failure m) q e h = inl refl
    start-unchanged (found mode len digest) q e h =
        let x : Disk × Result FileError (Unit {0}) =
          recv_file_body sha256 os r path len digest mode max d in
        rw (pulled-state len digest x) (elim (Result-cases x) [
          | inl (e', bad) ↦ recv_file_body-eq-err sha256 os r path len digest mode max d e' q bad
          | inr good ↦ absurd (fetched-ne x good h)
        ])
      where
        fetched-ne :
            (x : Disk × Result FileError (Unit {0}))
            → x.1 ≡ ok tt
            → (with_pulled sha256 len digest x).1 ≡ err e
            → ⊥
        fetched-ne (d', ok _) good p = cc
        fetched-ne (d', err e') good p = cc

    -- A pull that fails, on the way or at the target or while the file lands, changes no local file,
    -- whatever the target answers, but for a staging file beside the destination, on a path that was
    -- free, where its removal failed.
    pub pull_file-eq-err :
        (q : FilePath) (e : CommandError)
        → (pull_file sha256 reply os r remote path max d peer).1 ≡ err e
        → IsSpared os path d (pull_file sha256 reply os r remote path max d peer).0 q
    unfolding pull_file
    pull_file-eq-err q e h = elim (Route-cases (route reply)) [
      | inl (e', off) ↦ inl (rw (off, pull_file))
      | inr on ↦ elim (Option-cases (peer (pull remote))) [
        | inl quiet ↦ inl (rw (on, pull_file, quiet))
        | inr (s, says) ↦
            rw (on, pull_file, says) (start-unchanged s q e (rw (on, pull_file, says) at h))
      ]
    ]

  module _ (show : FileError → Bytes) (os : Os) (r : Reader) (dest : FilePath) (target : Disk) where
    -- The agent at the other end, which lands the file at `dest`.
    abbrev pub agent : Request → Option Ack
    agent (push remote mode len digest) =
        some (handle_push sha256 show os r dest mode len digest target).1
    agent _ = none

    handle_push-accepted :
        (mode len : ℕ) (digest : Bytes)
        → (handle_push sha256 show os r dest mode len digest target).1 ≡ accepted
        → ((recv_file_body sha256 os r dest len digest mode (2 ^ 64 - 1) target).1 ≡ ok tt)
          × ((handle_push sha256 show os r dest mode len digest target).0
              ≡ (recv_file_body sha256 os r dest len digest mode (2 ^ 64 - 1) target).0)
    unfolding handle_push
    handle_push-accepted mode len digest h =
        taken (recv_file_body sha256 os r dest len digest mode (2 ^ 64 - 1) target) h
      where
        taken :
            (x : Disk × Result FileError (Unit {0}))
            → (elim x.1 [ ok _ ↦ accepted | err e ↦ refused (show e) ]) ≡ accepted
            → (x.1 ≡ ok tt) × (x.0 ≡ x.0)
        taken (d, ok tt) p = (refl, refl)
        taken (d, err e) p = cc

    push_file-asked :
        (reply : Option RouteReply) (d : Disk) (path : FilePath) (remote : Bytes)
        (mode len len' : ℕ) (digest digest' : Bytes)
        → stat_and_hash sha256 d path ≡ ok (mode, len, digest)
        → push_file sha256 reply d path remote agent ≡ ok (len', digest')
        → ((handle_push sha256 show os r dest mode len digest target).1 ≡ accepted)
          × (len' ≡ len)
          × (digest' ≡ digest)
    unfolding push_file
    push_file-asked reply d path remote mode len len' digest digest' e h =
        elim (Result-cases' (route reply)) [
          | inl (e', off) ↦ absurd (ground (arith, e, off))
          | inr on ↦
              answered (handle_push sha256 show os r dest mode len digest target).1
                (ground (arith, e, on))
        ]
      where
        Result-cases' :
            (x : Result CommandError (Unit {0})) → ((e : CommandError) × (x ≡ err e)) ⊎ (x ≡ ok tt)
        Result-cases' (err e) = inl (e, refl)
        Result-cases' (ok tt) = inr refl

        answered :
            (a : Ack)
            → take_ack sha256 len digest a ≡ ok (len', digest')
            → (a ≡ accepted) × (len' ≡ len) × (digest' ≡ digest)
        answered accepted p = (refl, cc, cc)
        answered (refused m) p = cc

    -- A push that reports success reports the local file's length and digest, and the target has at
    -- the destination a file of that length and digest, under the local file's mode, with no other
    -- file changed. This holds whatever came through in between; sizes fit a u64.
    push_file-eq-ok :
        (reply : Option RouteReply) (d : Disk) (path : FilePath) (f : File) (remote : Bytes)
        (len : ℕ) (digest : Bytes) (q : FilePath)
        → d path ≡ some f
        → length f.content < 2 ^ 64
        → os.disk_room < 2 ^ 64
        → push_file sha256 reply d path remote agent ≡ ok (len, digest)
        → let there = delivered r.chunks in
          (len ≡ length f.content)
          × (digest ≡ sha256 f.content)
          × (length there ≡ length f.content)
          × (sha256 there ≡ sha256 f.content)
          × ((handle_push sha256 show os r dest
                  (mode_of f.mode)
                  (length f.content)
                  (sha256 f.content)
                  target).0
                q
              ≡ store target dest (some (record { content = there; mode = mode_of f.mode })) q)
    push_file-eq-ok reply d path f remote len digest q here small room h =
        let (stat, sends) =
          send_file_body-stat_and_hash sha256 d path f
            (record { sent = []; room = length f.content }) here small (omega arith) in
        let (took, same_len, same_digest) =
          push_file-asked reply d path remote (mode_of f.mode) (length f.content) len
            (sha256 f.content) digest stat h in
        let (done, disk) =
          handle_push-accepted (mode_of f.mode) (length f.content) (sha256 f.content) took in
        let (landed, long, hash, below) =
          recv_file_body-eq-ok sha256 os r dest (length f.content) (sha256 f.content)
            (mode_of f.mode) (2 ^ 64 - 1) target room done in
        (same_len, same_digest, long, hash, ap (λ (d' : Disk). d' q) disk ∙ landed q)
