-- ===== src/Proto/File/RoundTrip.antt =====
-- The two sides together: what the sender announces and sends is what a willing receiver accepts.
use egdod.Prelude.{
  ℕ, zero, suc, ◌+◌, ◌-◌, ◌≤◌, ◌<◌, ◌≡◌, ◌^◌, ◌%◌, refl, sym, ap, ◌∙◌, ◌++◌, [], ◌∷◌, List, Option,
  none, some, Bytes, length, leb, ltb, ok, arith, true, false, bytes_eq_iff, length-append, take,
  drop, take-append-drop, length-drop, All,
}
use egdod.Io.{eof, Sink}
use egdod.Disk.{FilePath, File, Disk, store}
use egdod.Proto.{chunk}
use egdod.Proto.File.{
  Os, Body, FileError, part_path, create_part_file, body_loop, body_start, verdict, land, receive,
  admit, recv_file_body, ensure_free_space, read_chunks, hash_loop, stat_and_hash, mode_of,
  send_loop, send_file_body,
}
use egdod.Proto.File.Taken.{delivered}
use mathlib.Core.List.{append_assoc, append-nil}

abbrev joined : List Bytes → Bytes
joined [] = []
joined (c ∷ cs) = c ++ joined cs

joined-read_chunks : (fuel : ℕ) (b : Bytes) → length b ≤ fuel → joined (read_chunks fuel b) ≡ b
unfolding read_chunks
joined-read_chunks zero [] h = refl
joined-read_chunks zero (x ∷ b) h = elim h [ ]
joined-read_chunks (suc fuel) [] h = refl
joined-read_chunks (suc fuel) (x ∷ b) h =
    let rest =
      joined-read_chunks fuel (drop chunk (x ∷ b)) (omega (arith, length-drop chunk (x ∷ b))) in
    ap (λ (t : Bytes). take chunk (x ∷ b) ++ t) rest ∙ take-append-drop chunk (x ∷ b)

hash_loop-joined :
    (cs : List Bytes) (fed : Bytes) (len : ℕ)
    → len ≡ length fed % 2 ^ 64
    → hash_loop cs fed len ≡ (fed ++ joined cs, length (fed ++ joined cs) % 2 ^ 64)
unfolding hash_loop
hash_loop-joined [] fed len h = rw append-nil (ap (λ (n : ℕ). (fed, n)) h)
hash_loop-joined (c ∷ cs) fed len h = rw (← append_assoc) (
    hash_loop-joined cs (fed ++ c) ((len + length c) % 2 ^ 64)
      (omega (arith, h, length-append fed c)))

send_loop-joined :
    (cs : List Bytes) (w : Sink)
    → length (joined cs) ≤ w.room
    → send_loop cs w
      ≡ ok (record { sent = w.sent ++ joined cs; room = w.room - length (joined cs) })
unfolding send_loop
send_loop-joined [] w h = ground (arith, append-nil w.sent)
send_loop-joined (c ∷ cs) w h =
    let both = length-append c (joined cs) in
    let w' : Sink = record { sent = w.sent ++ c; room = w.room - length c } in
    ground (arith, both, send_loop-joined cs w', append_assoc w.sent c (joined cs))

-- The announcement of a regular file is its mode without the type bits, its length and the digest
-- of its content, and the body that is sent afterwards is that content.
pub send_file_body-stat_and_hash :
    (sha256 : Bytes → Bytes) (d : Disk) (p : FilePath) (f : File) (w : Sink)
    → d p ≡ some f
    → length f.content < 2 ^ 64
    → length f.content ≤ w.room
    → (stat_and_hash sha256 d p ≡ ok (mode_of f.mode, length f.content, sha256 f.content))
      × (send_file_body d p w
          ≡ ok (record { sent = w.sent ++ f.content; room = w.room - length f.content }))
unfolding stat_and_hash send_file_body
send_file_body-stat_and_hash sha256 d p f w here small fits =
    let whole = joined-read_chunks (length f.content) f.content (omega arith) in
    let cs : List Bytes = read_chunks (length f.content) f.content in
    (
      ground (arith, here, whole, hash_loop-joined cs [] 0 refl),
      ground (arith, here, whole, send_loop-joined cs w),
    )

-- The operating system of a receiver with nothing in the way: the first staging name is free.
pub record IsWilling (os : Os) (dest : FilePath) (d : Disk) (len : ℕ) : Type 0 where
  pub base : Bytes
  pub nonce : Bytes
  pub named : dest.name ≡ some base
  pub drawn : os.nonce 0 ≡ some nonce
  pub free : d (part_path dest base nonce) ≡ none
  pub makes_dir : os.mkdir_ok ≡ true
  pub has_space : ensure_free_space os.space len ≡ ok tt
  pub opens : os.open_ok ≡ true
  pub holds : len ≤ os.disk_room
  pub flushes : os.flush_ok ≡ true
  pub sets_mode : os.set_mode_ok ≡ true
  pub renames : os.rename_ok ≡ true

abbrev IsRead : Bytes → Type 0
IsRead c = 1 ≤ length c

body_loop-accepts :
    (len room : ℕ) (cs : List Bytes) (b : Body)
    → All IsRead cs
    → b.got ≡ length b.fed
    → b.landed ≡ b.fed
    → length b.fed + length (delivered cs) ≡ len
    → len ≤ room
    → len < 2 ^ 64
    → (body_loop len room eof cs b).1 ≡ none
      × ((body_loop len room eof cs b).0.fed ≡ b.fed ++ delivered cs)
      × ((body_loop len room eof cs b).0.got ≡ len)
unfolding body_loop
body_loop-accepts len room [] b read got landed total fits small =
    (refl, sym (append-nil b.fed), omega arith)
body_loop-accepts len room ([] ∷ cs) b read got landed total fits small = absurd (omega arith)
body_loop-accepts len room ((x ∷ c) ∷ cs) b read got landed total fits small =
    let piece : Bytes = x ∷ c in
    let got' : ℕ = (b.got + length piece) % 2 ^ 64 in
    let next : Body = record { fed = b.fed ++ piece; got = got'; landed = b.landed ++ piece } in
    let sum = length-append piece (delivered cs) in
    let sum' = length-append b.fed piece in
    let there = ap length landed in
    let short : ltb len got' ≡ false = ground (arith, sum) in
    let wide : leb (length b.landed + length piece) room ≡ true = ground (arith, sum, there) in
    let (go, fed, count) =
      body_loop-accepts len room cs next read.1 (omega (arith, sum, sum'))
        (ap (λ (l : Bytes). l ++ piece) landed) (omega (arith, sum, sum')) fits small in
    rw (short, wide) (go, fed ∙ append_assoc b.fed piece (delivered cs), count)

admit-accepts :
    (os : Os) (dest : FilePath) (len max : ℕ) (base : Bytes)
    → dest.name ≡ some base
    → len ≤ max
    → os.mkdir_ok ≡ true
    → ensure_free_space os.space len ≡ ok tt
    → admit os dest len max ≡ ok base
unfolding admit
admit-accepts os dest len max base named below makes space = ground arith

create_part_file-accepts :
    (os : Os) (dest : FilePath) (base : Bytes) (d : Disk) (n : Bytes)
    → os.nonce 0 ≡ some n
    → d (part_path dest base n) ≡ none
    → os.open_ok ≡ true
    → create_part_file os dest base 8 0 d
      ≡ ok (
        part_path dest base n,
        store d (part_path dest base n) (some (record { content = []; mode = 0o600 })),
      )
unfolding create_part_file
create_part_file-accepts os dest base d n drawn free opens =
    rw (drawn, create_part_file, free, opens)

land-accepts :
    (sha256 : Bytes → Bytes) (os : Os) (tmp dest : FilePath) (len : ℕ) (digest : Bytes) (mode : ℕ)
    (d : Disk) (x : Body × Option FileError)
    → os.flush_ok ≡ true
    → os.set_mode_ok ≡ true
    → os.rename_ok ≡ true
    → x.1 ≡ none
    → x.0.got ≡ len
    → sha256 x.0.fed ≡ digest
    → (land sha256 os tmp dest len digest mode d x).1 ≡ ok tt
unfolding land verdict
land-accepts sha256 os tmp dest len digest mode d (b, some e) fl sm rn go count hash = cc
land-accepts sha256 os tmp dest len digest mode d (b, none) fl sm rn go count hash =
    ground (arith, bytes_eq_iff (sha256 b.fed) digest)

-- A receiver with nothing in the way accepts a body that arrives whole, in pieces of any size, under
-- its own length and digest, if the length is within the ceiling and fits a u64.
pub recv_file_body-accepts :
    (sha256 : Bytes → Bytes) (os : Os) (cs : List Bytes) (dest : FilePath) (mode max : ℕ) (d : Disk)
    → IsWilling os dest d (length (delivered cs))
    → All IsRead cs
    → length (delivered cs) ≤ max
    → length (delivered cs) < 2 ^ 64
    → (recv_file_body sha256 os
        (record { chunks = cs; ending = eof })
        dest
        (length (delivered cs))
        (sha256 (delivered cs))
        mode
        max
        d).1
      ≡ ok tt
unfolding recv_file_body receive
recv_file_body-accepts sha256 os cs dest mode max d v read below small =
    let content : Bytes = delivered cs in
    let (go, fed, count) =
      body_loop-accepts (length content) os.disk_room cs body_start read refl refl (omega arith)
        v.holds small in
    ground (
      arith,
      admit-accepts os dest (length content) max v.base v.named below v.makes_dir v.has_space,
      create_part_file-accepts os dest v.base d v.nonce v.drawn v.free v.opens,
      land-accepts sha256 os (part_path dest v.base v.nonce) dest (length content) (sha256 content)
          mode
          (store d (part_path dest v.base v.nonce) (some (record { content = []; mode = 0o600 })))
          (body_loop (length content) os.disk_room eof cs body_start) v.flushes v.sets_mode
          v.renames go count (ap sha256 fed),
    )
