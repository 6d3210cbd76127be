-- ===== src/Tests/Files.antt =====
-- src/proto.rs, a file transfer of five bytes, taken and refused.
use egdod.Prelude.{
  ℕ, Option, ◌≤◌, ◌≡◌, refl, none, some, true, List, [], ◌∷◌, Bytes, length, ok, err, arith, codes,
}
use egdod.Io.{eof}
use egdod.Disk.{FilePath, File, Disk, store}
use egdod.Proto.{RouteReply, routed, relayed, Request, PullStart, found}
use egdod.Agent.{handle_push}
use egdod.Controller.Commands.{push_file, pull_file, route, take_start, local_file}
use egdod.Controller.Commands.Transfers.{agent, pull_file-eq-err}
use egdod.Proto.File.{
  read_chunks, hash_loop, FileError, Os, Reader, create_part_file, body_loop, verdict, land,
  receive, admit, ensure_free_space, recv_file_body, stat_and_hash, too_short,
}
use egdod.Proto.File.Landing.{IsSpared, recv_file_body-eq-ok, recv_file_body-eq-err}
use egdod.Proto.File.RoundTrip.{recv_file_body-accepts}

-- A stand-in for the digest.
abbrev checksum : Bytes → Bytes
checksum [] = 7 ∷ []
checksum (x ∷ b) = x ∷ checksum b

abbrev dest : FilePath
dest = record { dir = codes "/etc"; name = some (codes "motd") }

abbrev willing : Os
willing = record {
  mkdir_ok = true;
  space = some (record { blocks = 10; free_blocks = 5; fragment = 512 });
  nonce = λ i. some (i ∷ 171 ∷ []);
  open_ok = true;
  disk_room = 1000;
  flush_ok = true;
  set_mode_ok = true;
  rename_ok = true;
  remove_ok = true;
}

abbrev empty : Disk
empty p = none

abbrev pieces : List Bytes
pieces = (1 ∷ 2 ∷ []) ∷ (3 ∷ []) ∷ (4 ∷ 5 ∷ []) ∷ []

abbrev body : Bytes
body = 1 ∷ 2 ∷ 3 ∷ 4 ∷ 5 ∷ []

abbrev whole : Reader
whole = record { chunks = pieces; ending = eof }

takes_whole :
    (recv_file_body checksum willing whole dest 5 (checksum body) 0o644 100 empty).1 ≡ ok tt
unfolding recv_file_body receive admit ensure_free_space create_part_file body_loop land verdict
takes_whole = refl

too_few :
    (recv_file_body checksum willing whole dest 6 (checksum body) 0o644 100 empty).1 ≡ err too_short
unfolding recv_file_body receive admit ensure_free_space create_part_file body_loop land verdict
too_few = refl

recv_file_body-eq-ok_example :
    let d' = (recv_file_body checksum willing whole dest 5 (checksum body) 0o644 100 empty).0 in
    ((q : FilePath) → d' q ≡ store empty dest (some (record { content = body; mode = 0o644 })) q)
    × (length body ≡ 5)
    × (checksum body ≡ checksum body)
    × (5 ≤ 100)
recv_file_body-eq-ok_example =
    recv_file_body-eq-ok checksum willing whole dest 5 (checksum body) 0o644 100 empty (omega arith)
      takes_whole

recv_file_body-eq-err_example :
    IsSpared willing dest empty
      (recv_file_body checksum willing whole dest 6 (checksum body) 0o644 100 empty).0
      dest
recv_file_body-eq-err_example =
    recv_file_body-eq-err checksum willing whole dest 6 (checksum body) 0o644 100 empty too_short
      dest too_few

space_there : ensure_free_space willing.space 5 ≡ ok tt
unfolding ensure_free_space
space_there = refl

recv_file_body-accepts_example :
    (recv_file_body checksum willing whole dest 5 (checksum body) 0o644 100 empty).1 ≡ ok tt
recv_file_body-accepts_example =
    recv_file_body-accepts checksum willing pieces dest 0o644 100 empty
      (record {
        base = codes "motd";
        nonce = 0 ∷ 171 ∷ [];
        named = refl;
        drawn = refl;
        free = refl;
        makes_dir = refl;
        has_space = space_there;
        opens = refl;
        holds = omega arith;
        flushes = refl;
        sets_mode = refl;
        renames = refl;
      })
      (omega arith, (omega arith, (omega arith, tt))) (omega arith) (omega arith)

abbrev script : File
script = record { content = body; mode = 0o100755 }

abbrev with_script : Disk
with_script p = some script

abbrev local_disk : Disk
local_disk p = some (record { content = body; mode = 0o100644 })

abbrev reply : Option RouteReply
reply = some (routed (codes "a1") relayed (codes "relay"))

abbrev no_text : FileError → Bytes
no_text e = []

pushes :
    push_file checksum reply local_disk dest
      (codes "/etc/motd")
      (agent checksum no_text willing whole dest empty)
    ≡ ok (5, checksum body)
unfolding push_file route stat_and_hash read_chunks hash_loop handle_push recv_file_body receive
    admit ensure_free_space create_part_file body_loop land verdict
pushes = refl

abbrev five : ℕ
five = 5

abbrev lying : Request → Option PullStart
lying req = some (found 0o644 6 (checksum body))

pulls_too_few :
    (pull_file checksum reply willing whole (codes "/etc/motd") dest 100 empty lying).1
    ≡ err (local_file too_short)
unfolding pull_file route take_start recv_file_body receive admit ensure_free_space create_part_file
    body_loop land verdict
pulls_too_few = refl

pull_file-eq-err_example :
    IsSpared willing dest empty
      (pull_file checksum reply willing whole (codes "/etc/motd") dest 100 empty lying).0
      dest
pull_file-eq-err_example =
    pull_file-eq-err checksum reply willing whole (codes "/etc/motd") dest 100 empty lying dest
      (local_file too_short) pulls_too_few
