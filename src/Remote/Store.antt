-- ===== src/Remote/Store.antt =====
-- A file pushed to the target, from the local disk to the target's.
use mathlib.Core.Path.{subst}
use mathlib.Core.List.{append-nil}
use egdod.Prelude.{
  ℕ, ◌-◌, ◌≡◌, ◌<◌, ◌≤◌, ◌^◌, refl, ap, ◌∙◌, Option, none, some, [], Bytes, length, Result, ok, err,
  inl, inr, Result-cases, Option-cases,
}
use egdod.Io.{Stream, stream, Ending, eof, Sink}
use egdod.Disk.{FilePath, File, Disk, store}
use egdod.Proto.{Request, push, Ack, accepted, refused, RouteReply}
use egdod.Proto.Frame.{MsgError, write_msg, read_msg}
use egdod.Proto.Frame.RoundTrip.{read_msg-write_msg}
use egdod.Proto.File.{FileError, stat_and_hash, send_file_body, recv_file_body, mode_of}
use egdod.Proto.File.Taken.{delivered}
use egdod.Proto.File.Landing.{recv_file_body-eq-ok}
use egdod.Proto.File.RoundTrip.{send_file_body-stat_and_hash}
use egdod.Agent.{ack_for}
use egdod.Agent.Handle.{Machine, Wire, Handled, dispatch, run_push, finish_after}
use egdod.Controller.Commands.{push_file, take_ack, route}
use egdod.Remote.{fresh, received, handled, reply_of, handle-write_msg}

-- The body that a command sends after its announcement, if the stream takes `room` bytes of it.
abbrev pub whole_body : Result FileError Sink → Option Bytes
whole_body (err e) = none
whole_body (ok w) = some w.sent

abbrev pub taken_ack : Result MsgError (Ack × Stream) → Option Ack
taken_ack (err e) = none
taken_ack (ok x) = some x.0

module _ (c : Wire) (sha256 : Bytes → Bytes) (show : FileError → Bytes)
    (copy : Stream → Sink → Sink) (m : Machine) (there : Disk) where
  abbrev pub ack_of : Option Stream → Option Ack
  ack_of none = none
  ack_of (some r) = taken_ack (read_msg c.acks r)

  -- The target, once it has the request and the body.
  abbrev pub at_target : ℕ → ℕ → Request → Option Bytes → Option Handled
  at_target room n request none = none
  at_target room n request (some body) =
      handled c sha256 show copy m there n body (write_msg c.requests request (fresh room))

  abbrev pub ack_to : ℕ → ℕ → Ending → Option Bytes → Request → Option Ack
  ack_to room n drop body request =
      ack_of (reply_of c sha256 show copy m there drop (at_target room n request body))

  -- The disk of the target after the push.
  abbrev pub disk_of : Option Handled → Disk
  disk_of none = there
  disk_of (some h) = h.disk

  -- The acknowledgement that arrives is the one that was written.
  arrives :
      (drop : Ending) (n : ℕ) (a b : Ack) (result : Result _ (Unit {0}))
      → ack_of (received drop (finish_after (write_msg c.acks a (fresh n)) result).0) ≡ some b
      → a ≡ b
  arrives drop n a b result h = elim (Result-cases (write_msg c.acks a (fresh n))) [
    | inl (e, bad) ↦ cc (rw bad at h)
    | inr (w, good) ↦
        let whole : read_msg c.acks (stream w.sent eof) ≡ ok (a, stream [] eof) =
          subst (λ (t : Bytes). read_msg c.acks (stream t eof) ≡ ok (a, stream [] eof))
            (append-nil w.sent) (read_msg-write_msg c.acks a (fresh n) w [] eof refl good) in
        cc (rw (good, whole) at h)
  ]

  accepts : (r : Result FileError (Unit {0})) → ack_for sha256 show r ≡ accepted → r ≡ ok tt
  accepts (ok tt) h = refl
  accepts (err e) h = cc h

  module _ (room n : ℕ) (drop : Ending) (body remote : Bytes) (mode len : ℕ) (digest : Bytes) where
    abbrev request : Request
    request = push remote mode len digest

    abbrev ran : Disk × Result FileError (Unit {0})
    ran =
        recv_file_body sha256 m.os (m.reads (stream body eof)) (m.path remote) len digest mode
          (2 ^ 64 - 1) there

    pushed :
        (w : Sink)
        → write_msg c.requests request (fresh room) ≡ ok w
        → at_target room n request (some body)
          ≡ some (run_push c sha256 show m remote mode len digest (stream body eof) (fresh n) there)
    unfolding dispatch
    pushed w good = rw (
      good,
      handle-write_msg c sha256 show copy m there request (fresh room) w (fresh n) body eof refl
          good,
    )

    push-lands :
        ack_to room n drop (some body) request ≡ some accepted
        → (ran.1 ≡ ok tt) × (disk_of (at_target room n request (some body)) ≡ ran.0)
    unfolding run_push
    push-lands h = elim (Result-cases (write_msg c.requests request (fresh room))) [
      | inl (e, bad) ↦ cc (rw bad at h)
      | inr (w, good) ↦
          let whole = pushed w good in
          (accepts ran.1 (arrives drop n _ accepted _ (rw whole at h)), ap disk_of whole)
    ]

  -- The target when the command is done.
  abbrev pub TargetHas : Disk → FilePath → File → Type 0
  TargetHas after dest f =
      (q : FilePath)
      → after q ≡ store there dest (some (record { content = f.content; mode = mode_of f.mode })) q

  -- The command, up to the acknowledgement.
  asked :
      (reply : Option RouteReply) (d : Disk) (path : FilePath) (remote : Bytes)
      (peer : Request → Option Ack) (mode len len' : ℕ) (digest digest' : Bytes)
      → stat_and_hash sha256 d path ≡ ok (mode, len, digest)
      → push_file sha256 reply d path remote peer ≡ ok (len', digest')
      → (peer (push remote mode len digest) ≡ some accepted) × (len' ≡ len) × (digest' ≡ digest)
  unfolding push_file
  asked reply d path remote peer mode len len' digest digest' e h =
      elim (Result-cases (route reply)) [
        | inl (x, off) ↦ cc (rw (e, push_file, off) at h)
        | inr (u, on) ↦ elim (Option-cases (peer (push remote mode len digest))) [
          | inl quiet ↦ cc (rw (e, push_file, on, quiet) at h)
          | inr (a, says) ↦
              let (is, l, dig) = acknowledged a (rw (e, push_file, on, says) at h) in
              (says ∙ ap some is, l, dig)
        ]
      ]
    where
      acknowledged :
          (a : Ack)
          → take_ack sha256 len digest a ≡ ok (len', digest')
          → (a ≡ accepted) × (len' ≡ len) × (digest' ≡ digest)
      acknowledged accepted p = (refl, cc, cc)
      acknowledged (refused x) p = cc

  -- A push that reports success reports the length and the digest of the local file, and has left the
  -- target with exactly that file at the destination, byte for byte and under its mode, and with no
  -- other file changed. The reads at the target give the bytes that came; sizes fit a u64.
  pub push_file-TargetHas :
      (reply : Option RouteReply) (room body_room n : ℕ) (drop : Ending) (d : Disk)
      (path : FilePath) (f : File) (remote : Bytes) (len : ℕ) (digest : Bytes)
      → ((r : Stream) → delivered (m.reads r).chunks ≡ r.bytes)
      → d path ≡ some f
      → length f.content ≤ body_room
      → length f.content < 2 ^ 64
      → m.os.disk_room < 2 ^ 64
      → push_file sha256 reply d path remote
          (ack_to room n drop (whole_body (send_file_body d path (fresh body_room))))
        ≡ ok (len, digest)
      → let body = whole_body (send_file_body d path (fresh body_room)) in
        let sends = push remote (mode_of f.mode) (length f.content) (sha256 f.content) in
        (len ≡ length f.content)
        × (digest ≡ sha256 f.content)
        × TargetHas (disk_of (at_target room n sends body)) (m.path remote) f
  push_file-TargetHas reply room body_room n drop d path f remote len digest honest here fits small
        disk_room h =
      let (stat, sent) =
        send_file_body-stat_and_hash sha256 d path f (fresh body_room) here small fits in
      let body : whole_body (send_file_body d path (fresh body_room)) ≡ some f.content =
        ap whole_body sent in
      let (says, same_len, same_digest) =
        asked reply d path remote _ (mode_of f.mode) (length f.content) len (sha256 f.content)
          digest stat h in
      let (good, state) =
        push-lands room n drop f.content remote (mode_of f.mode) (length f.content)
          (sha256 f.content) (rw body at says) in
      let (landed, long, hash, below) =
        recv_file_body-eq-ok sha256 m.os (m.reads (stream f.content eof)) (m.path remote)
          (length f.content) (sha256 f.content) (mode_of f.mode) (2 ^ 64 - 1) there disk_room
          good in
      (
        same_len,
        same_digest,
        rw body (λ q.
            ap (λ (d' : Disk). d' q) state
            ∙ landed q
            ∙ ap
                (λ (b : Bytes).
                  store there (m.path remote) (some (record { content = b; mode = mode_of f.mode }))
                    q)
                (honest (stream f.content eof))),
      )
