-- ===== src/Remote/Starts.antt =====
-- The reply to a `Request::Pull`, as the command reads its start.
use egdod.Prelude.{
  ℕ, ◌≡◌, refl, ◌∙◌, some, List, [], ◌∷◌, ◌++◌, Bytes, length, ok, inl, inr, Result-cases,
  Option-cases, arith,
}
use egdod.Io.{Stream, stream, Ending, eof, Sink, write_all}
use egdod.Disk.{FilePath, Disk}
use egdod.Proto.{PullStart, found, missing, failure}
use egdod.Proto.Frame.{write_msg, read_msg}
use egdod.Proto.Frame.RoundTrip.{read_msg-write_msg}
use egdod.Proto.File.{FileError, send_file_body, send_loop, read_chunks}
use egdod.Agent.Handle.{Wire, Reply, send_start, after_start, finish_after}
use egdod.Remote.{fresh, received}
use mathlib.Core.Path.{subst}
use mathlib.Core.List.{append_assoc, append-nil}

send_loop-appends :
    (cs : List Bytes) (w v : Sink) → send_loop cs w ≡ ok v → (b : Bytes) × (v.sent ≡ w.sent ++ b)
unfolding send_loop
send_loop-appends [] w v h = ([], ground (arith, append-nil w.sent))
send_loop-appends (c ∷ cs) w v h = elim (Result-cases (write_all c w)) [
  | inl (e, bad) ↦ cc (rw (bad, send_loop) at h)
  | inr (u, good) ↦
      let (b, sent) = send_loop-appends cs u v (rw (good, send_loop) at h) in
      (c ++ b, sent ∙ ground (arith, append_assoc w.sent c b))
]

send_file_body-appends :
    (d : Disk) (p : FilePath) (w v : Sink)
    → send_file_body d p w ≡ ok v
    → (b : Bytes) × (v.sent ≡ w.sent ++ b)
unfolding send_file_body
send_file_body-appends d p w v h = elim (Option-cases (d p)) [
  | inl gone ↦ cc (rw (gone, send_file_body) at h)
  | inr (f, here) ↦
      send_loop-appends (read_chunks (length f.content) f.content) w v
        (rw (here, send_file_body) at h)
]

module _ (c : Wire) (sha256 : Bytes → Bytes) (show : FileError → Bytes) where
  -- The stream of a reply begins with a message.
  abbrev pub Begins : Ending → Reply → PullStart → Type 0
  Begins drop reply start =
      (r : Stream) (start' : PullStart) (rest : Stream)
      → received drop reply ≡ some r
      → read_msg c.starts r ≡ ok (start', rest)
      → start' ≡ start

  alone-Begins :
      (drop : Ending) (start : PullStart) (n : ℕ)
      → Begins drop (finish_after (write_msg c.starts start (fresh n)) (ok tt)).0 start
  alone-Begins drop start n r start' rest is reads =
      elim (Result-cases (write_msg c.starts start (fresh n))) [
        | inl (e, bad) ↦ cc (rw bad at is)
        | inr (w, good) ↦
            let whole : read_msg c.starts (stream w.sent eof) ≡ ok (start, stream [] eof) =
              subst (λ (t : Bytes). read_msg c.starts (stream t eof) ≡ ok (start, stream [] eof))
                (append-nil w.sent)
                (read_msg-write_msg c.starts start (fresh n) w [] eof refl good) in
            cc (whole, rw good at is, reads)
      ]

  body-Begins :
      (drop : Ending) (start : PullStart) (n : ℕ) (d : Disk) (src : FilePath)
      → Begins drop (after_start c sha256 show d src (write_msg c.starts start (fresh n))).0 start
  body-Begins drop start n d src r start' rest is reads =
      elim (Result-cases (write_msg c.starts start (fresh n))) [
        | inl (e, bad) ↦ cc (rw bad at is)
        | inr (w, good) ↦ elim (Result-cases (send_file_body d src w)) [
          | inl (e, bad) ↦ cc (rw (good, bad) at is)
          | inr (v, sent) ↦
              let (b, more) = send_file_body-appends d src w v sent in
              let whole : read_msg c.starts (stream v.sent eof) ≡ ok (start, stream b eof) =
                rw more (read_msg-write_msg c.starts start (fresh n) w b eof refl good) in
              cc (whole, rw (good, sent) at is, reads)
        ]
      ]

  pub send_start-Begins :
      (drop : Ending) (start : PullStart) (n : ℕ) (d : Disk) (src : FilePath)
      → Begins drop (send_start c sha256 show d src start (fresh n)).0 start
  send_start-Begins drop (found mode len digest) n d src = body-Begins drop _ n d src
  send_start-Begins drop missing n d src = alone-Begins drop missing n
  send_start-Begins drop (failure e) n d src = alone-Begins drop (failure e) n
