-- ===== src/Io.antt =====
-- The byte streams under every link: what `AsyncReadExt` and `AsyncWriteExt` of tokio give to
-- proto.rs and ble.rs. A reader is what is still to come and how it ends; a writer is what went out
-- and how much more the peer takes before it is gone.
use egdod.Prelude.{
  ℕ, ◌+◌, ◌-◌, ◌*◌, ◌/◌, ◌%◌, ◌<◌, ◌≡◌, [], ◌∷◌, ◌++◌, Bytes, length, take, drop, leb,
  if◌then◌else◌, Result, ok, err, arith, get_or, ◌^◌,
}

pub data Ending : Type 0 where
  eof broken : Ending

-- `std::io::ErrorKind`, as far as the program tells the kinds apart.
pub data IoError : Type 0 where
  unexpected_eof not_found already_exists other : IoError

pub record Stream : Type 0 where
  pub bytes : Bytes
  pub ending : Ending

abbrev pub stream : Bytes → Ending → Stream
stream b e = record { bytes = b; ending = e }

abbrev pub at_end : Ending → IoError
at_end eof = unexpected_eof
at_end broken = other

-- `read_exact`
abbrev pub read_exact : ℕ → Stream → Result IoError (Bytes × Stream)
read_exact n s =
    if leb n (length s.bytes)
    then ok (take n s.bytes, record s { bytes = drop n s.bytes })
    else err (at_end s.ending)

pub record Sink : Type 0 where
  pub sent : Bytes
  pub room : ℕ

-- `write_all`, and what a failed write leaves: the part that still went out.
abbrev pub write_all : Bytes → Sink → Result IoError Sink
write_all b s =
    if leb (length b) s.room
    then ok (record { sent = s.sent ++ b; room = s.room - length b })
    else err other

-- `u32::to_le_bytes` and `u32::from_le_bytes`.
unfoldable pub le32 : ℕ → Bytes
le32 n = (n % 256) ∷ (n / 256 % 256) ∷ (n / 65536 % 256) ∷ (n / 16777216 % 256) ∷ []

unfoldable pub from_le32 : Bytes → ℕ
from_le32 b = get_or b 0 0 + get_or b 1 0 * 256 + get_or b 2 0 * 65536 + get_or b 3 0 * 16777216

-- `u32::to_be_bytes` and `u32::from_be_bytes`.
unfoldable pub be32 : ℕ → Bytes
be32 n = (n / 16777216 % 256) ∷ (n / 65536 % 256) ∷ (n / 256 % 256) ∷ (n % 256) ∷ []

unfoldable pub from_be32 : Bytes → ℕ
from_be32 b = get_or b 0 0 * 16777216 + get_or b 1 0 * 65536 + get_or b 2 0 * 256 + get_or b 3 0

pub from_le32-le32 : (n : ℕ) → n < 2 ^ 32 → from_le32 (le32 n) ≡ n
unfolding le32 from_le32
from_le32-le32 n h = omega arith

pub from_be32-be32 : (n : ℕ) → n < 2 ^ 32 → from_be32 (be32 n) ≡ n
unfolding be32 from_be32
from_be32-be32 n h = omega arith
