-- ===== src/Tests/Keys.antt =====
-- src/state.rs, the identity file; src/link.rs, a link derived from a node id.
use egdod.Prelude.{
  ℕ, ◌≤◌, ◌<◌, ◌≡◌, ◌≢◌, ◌⊎◌, refl, [], ◌∷◌, none, some, true, false, Bytes, length, Result, ok,
  err, is_ok, arith, codes, All, replicate,
}
use egdod.Disk.{FilePath, Disk}
use egdod.State.Text.{trim_start, trim_end}
use egdod.Link.{Link, derive, supplicant_conf}
use egdod.Link.Join.{
  JoinError, JoinCalls, Station, told, spawning, join, supplicate, await_carrier, carrier, clean_up,
}
use egdod.Link.Join.Leaving.{IsClean, join-leaves}
use egdod.Link.Addresses.{IsHost, derive_addresses}
use egdod.State.Key.{
  KeyCalls, replace, refuse, read_key, fill_private, write_private, create_key, load_or_create_key,
  flushing,
}
use egdod.State.Key.Identity.{load_or_create_key_stable}
use egdod.State.Key.Leftover.{tried_again, load_or_create_key_retry}

abbrev path : FilePath
path = record { dir = codes "/state"; name = some (codes "agent.key") }

abbrev key : Bytes
key = replicate 32 9

abbrev fine : KeyCalls
fine = record {
  readable = true;
  random = some key;
  dir_ok = true;
  open_ok = true;
  write_ok = true;
  partial = 0;
  sync_ok = true;
  rename_ok = true;
}

abbrev no_sync : KeyCalls
no_sync = record fine { sync_ok = false }

abbrev empty : Disk
empty p = none

creates : (load_or_create_key replace fine (codes "1") path empty).1 ≡ ok key
unfolding load_or_create_key read_key create_key write_private fill_private
creates = refl

fails : (load_or_create_key replace no_sync (codes "1") path empty).1 ≡ err flushing
unfolding load_or_create_key read_key create_key write_private fill_private
fails = refl

drawn : (b : Bytes) → fine.random ≡ some b → length b ≡ 32
drawn b e = ground (arith, e)

load_or_create_key_stable_example :
    load_or_create_key refuse fine
      (codes "2")
      path
      (load_or_create_key replace fine (codes "1") path empty).0
    ≡ ((load_or_create_key replace fine (codes "1") path empty).0, ok key)
load_or_create_key_stable_example =
    load_or_create_key_stable replace refuse fine fine (codes "1") (codes "2") path
      (codes "agent.key") key empty refl drawn refl creates

load_or_create_key_retry_example :
    is_ok
      (load_or_create_key replace fine (codes "1") path (
        tried_again
          (codes "1")
          path
          ((refuse, fine) ∷ [])
          (load_or_create_key replace no_sync (codes "1") path empty).0)).1
    ≡ false
load_or_create_key_retry_example =
    load_or_create_key_retry replace replace no_sync fine ((refuse, fine) ∷ []) (codes "1") path
      (codes "agent.key") empty flushing refl refl tt fails

-- A stand-in for the digest, of 32 bytes.
abbrev digest : Bytes → Bytes
digest b = replicate 32 200

digest-bytes : (b : Bytes) → All (λ (x : ℕ). x < 256) (digest b)
digest-bytes b = ground arith

derive_addresses_example :
    let l = derive digest (codes "node") in
    IsHost l.target
    × IsHost l.controller
    × (l.target.c ≡ l.controller.c)
    × (l.target.d ≢ l.controller.d)
    × (49152 ≤ l.port)
    × (l.port ≤ 65535)
derive_addresses_example = derive_addresses digest (codes "node")

-- A join that waits one round for the carrier, and is told to leave; and one without wpa_supplicant.
abbrev joins : JoinCalls
joins = record {
  up_ok = true;
  addr_ok = true;
  write_ok = true;
  partial = 0;
  spawn_ok = true;
  polls =
      record { carrier_file = some (codes "0\n"); late = false; gone = some false }
      ∷ record { carrier_file = some (codes "1\n"); late = false; gone = some false }
      ∷ [];
  left = told true;
  kill_ok = true;
  del_ok = true;
  remove_ok = true;
}

abbrev no_supplicant : JoinCalls
no_supplicant = record joins { spawn_ok = false }

abbrev link : Link
link = derive digest (codes "node")

abbrev apart_from : Station
apart_from = record { is_up = false; has_addr = false; conf = none; running = false }

abbrev left_clean : Station
left_clean = record apart_from { is_up = true }

abbrev well_left : Result JoinError (Unit {0})
well_left = ok tt

leaves : join joins (some link) apart_from ≡ some (left_clean, well_left)
unfolding join supplicate await_carrier carrier clean_up trim_start trim_end
leaves = refl

join-leaves_example :
    ((joins.spawn_ok ≡ true) × IsClean true left_clean)
    ⊎ ((joins.spawn_ok ≡ false)
        × (well_left ≡ err spawning)
        × (left_clean.conf ≡ some (supplicant_conf link))
        × (left_clean.has_addr ≡ true)
        × (left_clean.is_up ≡ true))
join-leaves_example =
    join-leaves joins link apart_from left_clean well_left refl refl refl refl refl refl leaves

passphrase_left :
    join no_supplicant (some link) apart_from
    ≡ some (
      record apart_from { is_up = true; has_addr = true; conf = some (supplicant_conf link) },
      err spawning,
    )
unfolding join supplicate
passphrase_left = refl
