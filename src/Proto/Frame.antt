-- ===== src/Proto/Frame.antt =====
-- src/proto.rs, `write_msg`, `read_msg` and `read_msg_opt`: a message goes out as its length, four
-- bytes little-endian, and its encoding.
pub mod RoundTrip
use egdod.Prelude.{
  ℕ, List, [], ◌∷◌, Option, none, some, Bytes, length, leb, Result, ok, err, ◌>>=◌, ◌>>◌, ensure,
  or_fail, Bool, true, false, if◌then◌else◌,
}
use egdod.Io.{IoError, unexpected_eof, Stream, Sink, read_exact, write_all, le32, from_le32}
use egdod.Proto.{Codec, max_msg}

pub data MsgError : Type 0 where
  encoding too_large writing : MsgError
  reading_length oversized reading_message decoding closed_early : MsgError

abbrev pub map_err {ℓ κ μ} : {E : Type ℓ} {F : Type κ} {A : Type μ} → F → Result E A → Result F A
map_err f (ok a) = ok a
map_err f (err e) = err f

module _ {T : Type 0} (c : Codec T) where
  unfoldable pub write_msg : T → Sink → Result MsgError Sink
  write_msg m w = do
    body ← or_fail (c.encode m) encoding
    ensure (leb (length body) max_msg) too_large
    w' ← map_err writing (write_all (le32 (length body)) w)
    map_err writing (write_all body w')

  -- The writer task of agent.rs sends the frames in turn, and stops at the first failure.
  unfoldable pub write_msgs : List T → Sink → Result MsgError Sink
  write_msgs [] w = ok w
  write_msgs (m ∷ ms) w = do w' ← write_msg m w; write_msgs ms w'

  unfoldable pub read_body : ℕ → Stream → Result MsgError (Option T × Stream)
  read_body len r = do
    ensure (leb len max_msg) oversized
    (body, r') ← map_err reading_message (read_exact len r)
    m ← or_fail (c.decode body) decoding
    ok (some m, r')

  -- An end of stream inside the four length bytes is reported as a clean end, too.
  unfoldable pub after_length :
      Stream → Result IoError (Bytes × Stream) → Result MsgError (Option T × Stream)
  unfolding read_body
  after_length r (ok (len, r')) = read_body (from_le32 len) r'
  after_length r (err unexpected_eof) = ok (none, r)
  after_length r (err IoError.not_found) = err reading_length
  after_length r (err IoError.already_exists) = err reading_length
  after_length r (err IoError.other) = err reading_length

  unfoldable pub read_msg_opt : Stream → Result MsgError (Option T × Stream)
  unfolding after_length
  read_msg_opt r = after_length r (read_exact 4 r)

  unfoldable pub read_msg : Stream → Result MsgError (T × Stream)
  unfolding read_msg_opt
  read_msg r = do (m, r') ← read_msg_opt r; a ← or_fail m closed_early; ok (a, r')
