-- ===== src/Tests/Recipe.antt =====
-- src/ssh.rs.
use egdod.Ssh.Steps.{
  ensure_sshd, await_banner, fetch_host_key, generate_key, read_host_key, host_key, known_host,
}
use egdod.Prelude.{false, true, none, some, ok, ◌≡◌, ◌≢◌, refl, [], ◌∷◌, ◌++◌, Bytes, codes}
use egdod.Link.{digits, show_ipv4}
use egdod.State.Text.{trim_start, trim_end, take_field, first_field}
use egdod.Ssh.{
  pieces, fields, carries, merge_authorized_keys, copy_others, civil_from_days, utc_yyyymmddhhmm,
  authorized_line, key_blob, after_field,
}
use egdod.Ssh.Session.{
  Config, Meets, Site, acknowledged, session, prepare, ensure_local_key, install_authorized_key,
  stage, go_on, connect, banner,
}
use egdod.Ssh.Session.Lossless.{IsKept, session-IsKept}
use egdod.Ssh.Merge.{kept, pieces-merge_authorized_keys}
use egdod.Ssh.Calendar.{IsDateOf, civil_from_days-IsDateOf}

-- 2026-02-28, 23:59 UTC.
stamp : utc_yyyymmddhhmm 1772323140 ≡ codes "202602282359Z"
unfolding utc_yyyymmddhhmm civil_from_days digits
stamp = refl

blob_of_line : key_blob (codes "ssh-ed25519 AAAA egdod") ≡ some (codes "AAAA")
unfolding key_blob after_field trim_start take_field
blob_of_line = refl

line_of_key :
    authorized_line (codes "restrict") 0 (codes "k A")
    ≡ codes "restrict,expiry-time=\"197001010000Z\" k A"
unfolding authorized_line utc_yyyymmddhhmm civil_from_days digits
line_of_key = refl

abbrev file : Bytes
file = codes "k B\nold k A\nk C"

merged :
    merge_authorized_keys (some file) (codes "A") (codes "new k A") ≡ codes "k B\nk C\nnew k A\n"
unfolding merge_authorized_keys copy_others pieces carries fields
merged = refl

pieces-merge_authorized_keys_example :
    pieces (merge_authorized_keys (some file) (codes "A") (codes "k A"))
    ≡ kept (codes "A") (pieces file) ++ ((codes "k A" ++ (10 ∷ [])) ∷ [])
pieces-merge_authorized_keys_example =
    pieces-merge_authorized_keys file (codes "A") (codes "k A") (refl, (refl, (refl, tt)))

blob-ne : codes "A" ≢ []
blob-ne e = cc

has_blob : carries (codes "A") (codes "k A") ≡ true
unfolding carries fields
has_blob = refl

civil_from_days-IsDateOf_example : IsDateOf 20512 (civil_from_days 20512)
civil_from_days-IsDateOf_example = civil_from_days-IsDateOf 20512

answers_later : ensure_sshd false (ok 0) (false ∷ true ∷ []) ≡ ok tt
unfolding ensure_sshd await_banner
answers_later = refl

host_key_of_line :
    fetch_host_key (ok none) (ok 0) (ok (some (codes "ssh-rsa AB root@t\n")))
    ≡ ok (codes "ssh-rsa AB")
unfolding fetch_host_key generate_key read_host_key host_key first_field key_blob after_field pieces
    trim_start take_field
host_key_of_line = refl

bare_port :
    known_host (record { a = 127; b = 0; c = 0; d = 1 }) 22 (codes "k A") ≡ codes "127.0.0.1 k A\n"
unfolding known_host show_ipv4 digits
bare_port = refl

-- A session with a target that has one other key, whose push is acknowledged, and whose sshd answers.
abbrev config : Config
config = record { key_options = codes "no-pty"; key_ttl = 600 }

abbrev meets : Meets
meets = record {
  key_exists = true;
  keygen = ok true;
  public_key = some (codes "ssh-ed25519 AB egdod\n");
  now = 0;
  install = record {
    pull_ok = true;
    reopen_ok = true;
    create_ok = true;
    merge_ok = true;
    push = acknowledged;
  };
  before = ok (some (codes "ssh-rsa CD root@t\n"));
  host_keygen = ok 0;
  after = ok none;
  forward = ok (record { a = 127; b = 0; c = 0; d = 1 }, 2222);
  first_banner = some (codes "SSH-2.0-x\n");
  start = ok 0;
  banners = [];
  entry_ok = true;
  partial = 0;
  client = ok (some 3);
}

abbrev site : Site
site = record { authorized_keys = some (codes "ssh-rsa EF other"); known_hosts = none }

connects : (session config meets site).1 ≡ ok 3
unfolding session prepare ensure_local_key install_authorized_key stage go_on connect banner
    fetch_host_key generate_key read_host_key host_key first_field key_blob after_field pieces
    trim_start trim_end take_field ensure_sshd
connects = refl

session-IsKept_example :
    IsKept config meets site.authorized_keys (session config meets site).0.authorized_keys
session-IsKept_example = session-IsKept config meets site
