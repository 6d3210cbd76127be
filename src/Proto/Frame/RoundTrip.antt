-- ===== src/Proto/Frame/RoundTrip.antt =====
-- What `write_msg` sends, `read_msg_opt` reads back; and no reader takes more than a frame.
use egdod.Prelude.{
  ℕ, ◌+◌, ◌≤◌, ◌<◌, ◌≡◌, refl, ap, ◌∙◌, ◌++◌, [], ◌∷◌, Option, none, some, Bytes, length, leb, ok,
  >>=-eq-ok, List, arith, take, drop, take-length, drop-length, length-append, length-drop,
  length-take, Option-cases, inl, inr, Bool-cases, ◌⊎◌,
}
use egdod.Io.{Stream, stream, Sink, Ending, eof, le32, from_le32, from_le32-le32}
use egdod.Proto.{Codec, max_msg}
use egdod.Proto.Frame.{write_msg, write_msgs, read_msg_opt, read_msg, read_body}
use mathlib.Core.List.{append_assoc, append-nil}

module _ {T : Type 0} (c : Codec T) where
  -- The bytes of one frame.
  abbrev pub frame : Bytes → Bytes
  frame body = le32 (length body) ++ body

  pub write_msg-frame :
      (m : T) (w w' : Sink)
      → write_msg c m w ≡ ok w'
      → (body : Bytes) × (c.encode m ≡ some body)
        × (length body ≤ max_msg)
        × (w'.sent ≡ w.sent ++ frame body)
  unfolding write_msg
  write_msg-frame m w w' h = elim (Option-cases (c.encode m)) [
    | inl e ↦ ground (arith, e)
    | inr (body, e) ↦ (
      body,
      e,
      ground (arith, e),
      ground (arith, e, append_assoc w.sent (le32 (length body)) body),
    )
  ]

  read_frame :
      (body rest : Bytes) (e : Ending) (m : T)
      → c.decode body ≡ some m
      → length body ≤ max_msg
      → read_msg_opt c (stream (frame body ++ rest) e) ≡ ok (some m, stream rest e)
  unfolding read_msg_opt le32
  read_frame body rest e m d h = ground (
    arith,
    from_le32-le32 (length body),
    length-append body rest,
    take-length body rest,
    drop-length body rest,
  )

  -- What was written is read back whole, whatever follows it, and what follows is left.
  pub read_msg_opt-write_msg :
      (m : T) (w w' : Sink)
      → write_msg c m w ≡ ok w'
      → (f : Bytes) × (w'.sent ≡ w.sent ++ f)
        × ((rest : Bytes) (e : Ending)
            → read_msg_opt c (stream (f ++ rest) e) ≡ ok (some m, stream rest e))
  read_msg_opt-write_msg m w w' h =
      let (body, encoded, fits, sent) = write_msg-frame m w w' h in
      (frame body, sent, λ rest e. read_frame body rest e m (c.decode-encode m body encoded) fits)

  read_msg-some :
      (r r' : Stream) (m : T) → read_msg_opt c r ≡ ok (some m, r') → read_msg c r ≡ ok (m, r')
  unfolding read_msg
  read_msg-some r r' m h = rw h

  -- The first message on a stream is the message that is read.
  pub read_msg-write_msg :
      (m : T) (w w' : Sink) (rest : Bytes) (e : Ending)
      → w.sent ≡ []
      → write_msg c m w ≡ ok w'
      → read_msg c (stream (w'.sent ++ rest) e) ≡ ok (m, stream rest e)
  read_msg-write_msg m w w' rest e empty h =
      let (f, sent, reads) = read_msg_opt-write_msg m w w' h in
      let same : w'.sent ≡ f = sent ∙ ap (λ (t : Bytes). t ++ f) empty in
      rw same (read_msg-some (stream (f ++ rest) e) (stream rest e) m (reads rest e))

  -- `b` reads as the messages `ms` one after the other, at least one byte for each.
  abbrev pub Reads : List T → Bytes → Type 0
  Reads [] b = b ≡ []
  Reads (m ∷ ms) b =
      (f : Bytes) × (rest : Bytes) × (b ≡ f ++ rest)
      × (1 ≤ length f)
      × ((more : Bytes) (e : Ending)
          → read_msg_opt c (stream (f ++ more) e) ≡ ok (some m, stream more e))
      × Reads ms rest

  pub length-Reads : (ms : List T) (b : Bytes) → Reads ms b → length ms ≤ length b
  length-Reads [] b h = omega arith
  length-Reads (m ∷ ms) b (f, rest, e, pos, read, more) =
      rw (e, length-append) (omega (arith, length-Reads ms rest more))

  frame-pos : (body : Bytes) → 1 ≤ length (frame body)
  unfolding le32
  frame-pos body = omega arith

  pub write_msgs-Reads :
      (ms : List T) (w w' : Sink)
      → write_msgs c ms w ≡ ok w'
      → (b : Bytes) × (w'.sent ≡ w.sent ++ b) × Reads ms b
  unfolding write_msgs
  write_msgs-Reads [] w w' h = ([], ground (arith, append-nil w.sent), refl)
  write_msgs-Reads (m ∷ ms) w w' h =
      let (u, first, others) = >>=-eq-ok (write_msg c m w) (write_msgs c ms) h in
      let (body, encoded, fits, sent) = write_msg-frame m w u first in
      let (b, sent', read) = write_msgs-Reads ms u w' others in
      (
        frame body ++ b,
        sent' ∙ rw sent (append_assoc w.sent (frame body) b),
        (
          frame body,
          b,
          refl,
          frame-pos body,
          (λ more e. read_frame body more e m (c.decode-encode m body encoded) fits),
          read,
        ),
      )

  read_body-takes :
      (len : ℕ) (r r' : Stream) (o : Option T)
      → read_body c len r ≡ ok (o, r')
      → (m : T) × (o ≡ some m)
        × (r'.ending ≡ r.ending)
        × (length r'.bytes + len ≡ length r.bytes)
        × (len ≤ max_msg)
  unfolding read_body
  read_body-takes len r r' o h = elim (Option-cases (c.decode (take len r.bytes))) [
    | inl e ↦ ground (arith, e)
    | inr (m, e) ↦ (
      m,
      ground (arith, e),
      ground (arith, e),
      ground (arith, e, length-drop len r.bytes),
      ground (arith, e),
    )
  ]

  pub read_msg_opt-takes :
      (r r' : Stream) (o : Option T)
      → read_msg_opt c r ≡ ok (o, r')
      → ((o ≡ none) × (r' ≡ r) × (length r.bytes < 4) × (r.ending ≡ eof))
        ⊎ ((m : T) × (o ≡ some m)
            × (r'.ending ≡ r.ending)
            × (length r'.bytes + 4 ≤ length r.bytes)
            × (length r.bytes ≤ length r'.bytes + 4 + max_msg))
  unfolding read_msg_opt
  read_msg_opt-takes r r' o h = elim (Bool-cases (leb 4 (length r.bytes))) [
    | inl long ↦
        let rest : Stream = record r { bytes = drop 4 r.bytes } in
        let read : read_body c (from_le32 (take 4 r.bytes)) rest ≡ ok (o, r') =
          ground (arith, long) in
        let (m, some_m, ends, used, bound) = read_body-takes _ rest r' o read in
        let left = length-drop 4 r.bytes in
        inr (m, some_m, ends, ground (arith, used, left), ground (arith, used, left, bound))
    | inr short ↦ inl (ground arith, ground arith, ground arith, ground arith)
  ]

  -- A message that was read is the decoding of at most 2 ^ 20 bytes.
  pub read_msg_opt-decodes :
      (r r' : Stream) (m : T)
      → read_msg_opt c r ≡ ok (some m, r')
      → (body : Bytes) × (c.decode body ≡ some m) × (length body ≤ max_msg)
  unfolding read_msg_opt read_body
  read_msg_opt-decodes r r' m h =
      let rest : Bytes = drop 4 r.bytes in
      let len : ℕ = from_le32 (take 4 r.bytes) in
      elim (Bool-cases (leb 4 (length r.bytes))) [
        | inr short ↦ ground arith
        | inl long ↦ elim (Option-cases (c.decode (take len rest))) [
          | inl e ↦ ground (arith, e, long)
          | inr (m', e) ↦ (
            take len rest,
            ground (arith, e, long),
            ground (arith, e, long, length-take len rest),
          )
        ]
      ]
