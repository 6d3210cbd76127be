-- ===== src/Ble/Exchange/Said.antt =====
-- The single writes and reads of a provisioning attempt.
use egdod.Prelude.{◌+◌, ◌-◌, ◌≤◌, ◌≡◌, refl, ◌++◌, Bytes, length, le→leb, Result, ok, err, arith}
use mathlib.Core.List.{append_assoc}
use egdod.Io.{stream, Sink, Ending, be32, read_exact, write_all}
use egdod.Disk.{Disk}
use egdod.Ble.{BleError, channel, write_frame, frame_size, max_frame}
use egdod.Proto.Frame.{map_err}
use egdod.Ble.Channel.{framed}
use egdod.Ble.Exchange.{Crypto, Offer, start_marker, Cut, acknowledge, finish_offer}

-- A frame of a fitting size goes out whole to a peer that takes it.
pub write_framed :
    (b : Bytes) (w : Sink)
    → length b ≤ max_frame
    → length b + 4 ≤ w.room
    → write_frame b w ≡ ok (record { sent = w.sent ++ framed b; room = w.room - (length b + 4) })
unfolding write_frame frame_size be32
write_framed b w fits room = ground (arith, append_assoc w.sent (be32 (length b)) b)

pub read_marker :
    (b : Bytes) (e : Ending)
    → map_err channel (read_exact 1 (stream (start_marker ++ b) e)) ≡ ok (start_marker, stream b e)
read_marker b e = rw (le→leb 1 (length (start_marker ++ b)) (omega arith))

pub write_marker :
    (w : Sink)
    → 1 ≤ w.room
    → map_err channel (write_all start_marker w)
      ≡ ok (record { sent = w.sent ++ start_marker; room = w.room - 1 })
write_marker w room = rw (le→leb 1 w.room room)

pub finish_offer-ok :
    (c : Crypto) (cut : Cut) (o : Offer) (r : Disk × Result BleError (Unit {0}))
    → r.1 ≡ ok tt
    → finish_offer c cut o r ≡ acknowledge c cut o r.0
unfolding finish_offer
finish_offer-ok c cut o (d, err e) h = cc
finish_offer-ok c cut o (d, ok _) h = refl
