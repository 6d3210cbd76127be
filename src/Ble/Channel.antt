-- ===== src/Ble/Channel.antt =====
-- The frames of the channel.
use egdod.Prelude.{
  ◌≤◌, ◌≡◌, ◌++◌, Bytes, length, ok, arith, take-length, drop-length, length-append,
}
use mathlib.Core.List.{append_assoc}
use egdod.Io.{stream, Sink, Ending, be32, from_be32-be32}
use egdod.Ble.{max_frame, frame_size, write_frame, read_frame}

abbrev pub framed : Bytes → Bytes
framed b = be32 (length b) ++ b

pub read_framed :
    (b rest : Bytes) (e : Ending)
    → length b ≤ max_frame
    → read_frame (stream (framed b ++ rest) e) ≡ ok (b, stream rest e)
unfolding read_frame frame_size be32
read_framed b rest e h =
    ground (
      arith,
      from_be32-be32 (length b),
      length-append b rest,
      take-length b rest,
      drop-length b rest,
    )

-- A frame that was written has at most 65,536 bytes of content, and is read back whole, whatever
-- follows it, and what follows is left.
read_frame-write_frame :
    (b : Bytes) (w w' : Sink)
    → write_frame b w ≡ ok w'
    → (length b ≤ max_frame)
      × ((f : Bytes) × (w'.sent ≡ w.sent ++ f)
          × ((rest : Bytes) (e : Ending)
              → read_frame (stream (f ++ rest) e) ≡ ok (b, stream rest e)))
unfolding write_frame frame_size
read_frame-write_frame b w w' h =
    let small : length b ≤ max_frame = ground arith in
    (
      small,
      (
        framed b,
        ground (arith, append_assoc w.sent (be32 (length b)) b),
        λ rest e. read_framed b rest e small,
      ),
    )
