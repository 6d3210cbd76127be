-- ===== src/Remote/Fetch.antt =====
-- A file pulled from the target, from `pull_file` to the disk there and back.
use egdod.Prelude.{
  ℕ, ◌≡◌, ◌<◌, ◌^◌, refl, Option, none, some, [], Bytes, length, Result, ok, err, inl, inr,
  Result-cases, Option-cases,
}
use egdod.Io.{Stream, Ending, eof, Sink}
use egdod.Disk.{FilePath, File, Disk}
use egdod.Proto.{pull, PullStart, RouteReply}
use egdod.Proto.Frame.{MsgError, write_msg, read_msg}
use egdod.Proto.File.{FileError, Os, Reader}
use egdod.Agent.{handle_pull, start_for, stat_unless}
use egdod.Agent.Handle.{Machine, Wire, dispatch, run_pull, send_start}
use egdod.Controller.Commands.{Pulled, pull_file, route}
use egdod.Remote.{fresh, received, reply_to, handle-write_msg, read_start, start_only, usable}
use egdod.Remote.Starts.{send_start-Begins}
use egdod.Remote.Told.{Tells, take_start-Tells}

usable-some :
    (x : Result MsgError (PullStart × Stream)) (y : PullStart × Stream)
    → usable x ≡ some y
    → x ≡ ok y
usable-some (err e) y h = cc h
usable-some (ok x) y h = cc h

read_start-some :
    (c : Wire) (o : Option Stream) (start : PullStart) (rest : Stream)
    → read_start c.starts o ≡ some (start, rest)
    → (r : Stream) × (o ≡ some r) × (read_msg c.starts r ≡ ok (start, rest))
read_start-some c none start rest h = cc h
read_start-some c (some r) start rest h =
    (r, refl, usable-some (read_msg c.starts r) (start, rest) h)

module _ (c : Wire) (sha256 : Bytes → Bytes) (show : FileError → Bytes)
    (copy : Stream → Sink → Sink) (m : Machine) (d : Disk) where
  reply_to-pull :
      (room n : ℕ) (drop : Ending) (remote : Bytes) (start : PullStart) (rest : Stream)
      → read_start c.starts (reply_to c sha256 show copy m d room n drop (pull remote))
        ≡ some (start, rest)
      → start
        ≡ start_for sha256 show
            (stat_unless sha256 show (m.refuses (m.path remote)) d (m.path remote))
  unfolding reply_to dispatch run_pull handle_pull
  reply_to-pull room n drop remote start rest h =
      elim (Result-cases (write_msg c.requests (pull remote) (fresh room))) [
        | inl (e, bad) ↦ cc (rw (bad, reply_to) at h)
        | inr (w, good) ↦
            let src = m.path remote in
            let says = handle_pull sha256 show (m.refuses src) d src in
            let reply = (send_start c sha256 show (m.meanwhile d) src says (fresh n)).0 in
            let same : reply_to c sha256 show copy m d room n drop (pull remote)
                ≡ received drop reply =
              rw (
                good,
                reply_to,
                handle-write_msg c sha256 show copy m d (pull remote) (fresh room) w (fresh n) []
                    eof refl good,
              ) in
            let (r, is, reads) =
              read_start-some c (received drop reply) start rest (rw same at h) in
            send_start-Begins c sha256 show drop says n (m.meanwhile d) src r start rest is reads
      ]

  -- What a pull reports is so at the target: a file that it calls missing was not there when the
  -- target looked; of one that it fetched it reports the length and the digest, and the local file
  -- has that length and digest and the mode, with no other local file changed and the length within
  -- the ceiling. This holds whatever others do to the file once it was hashed, and whatever bytes
  -- come through. Sizes fit a u64.
  pub pull_file-Tells :
      (reply : Option RouteReply) (room n : ℕ) (drop : Ending) (os : Os) (r : Reader)
      (remote : Bytes) (path : FilePath) (max : ℕ) (disk : Disk) (p : Pulled)
      → ((f : File) → d (m.path remote) ≡ some f → length f.content < 2 ^ 64)
      → os.disk_room < 2 ^ 64
      → (pull_file sha256 reply os r remote path max disk (λ request.
          start_only (read_start c.starts (reply_to c sha256 show copy m d room n drop request)))).1
        ≡ ok p
      → Tells sha256 os r path max disk
          (m.refuses (m.path remote))
          d
          (m.path remote)
          p
          (pull_file sha256 reply os r remote path max disk (λ request.
            start_only
              (read_start c.starts (reply_to c sha256 show copy m d room n drop request)))).0
  unfolding pull_file
  pull_file-Tells reply room n drop os r remote path max disk p small fits h =
      let told = read_start c.starts (reply_to c sha256 show copy m d room n drop (pull remote)) in
      elim (Result-cases (route reply)) [
        | inl (e, off) ↦ cc (rw (off, pull_file) at h)
        | inr (u, on) ↦ elim (Option-cases told) [
          | inl quiet ↦ cc (rw (on, pull_file, quiet) at h)
          | inr ((start, rest), says) ↦
              rw (on, pull_file, says)
                (take_start-Tells sha256 os r path max disk show (m.refuses (m.path remote)) d
                  (m.path remote) small fits start p
                  (reply_to-pull room n drop remote start rest says)
                  (rw (on, pull_file, says) at h))
        ]
      ]
