-- ===== src/Tests/Channel.antt =====
-- src/ble.rs, with a stand-in for signatures: the key, then the message's length and zeros.
use egdod.Prelude.{
  ◌≡◌, refl, none, some, Bool, true, false, [], ◌∷◌, ◌++◌, Bytes, codes, length, ok, err, replicate,
  bytes_eq,
}
use egdod.Io.{Sink, be32}
use egdod.Disk.{FilePath, Disk}
use egdod.Hex.{hex}
use egdod.Ble.{
  ServerHello, identity_message, parse_server_hello, verify_server_hello, network_conf,
  InstallCalls, install, fill, flushing, write_frame, frame_size,
}

abbrev valid : Bytes → Bool
valid k = true

abbrev sign : Bytes → Bytes
sign m = replicate 63 0 ++ (length m ∷ [])

abbrev verify : Bytes → Bytes → Bytes → Bool
verify k m s = bytes_eq (sign m) s

abbrev agent : Bytes
agent = replicate 32 1

abbrev controller : Bytes
controller = replicate 32 2

abbrev ephemeral : Bytes
ephemeral = replicate 32 3

abbrev signature : Bytes
signature = sign (replicate 115 0)

abbrev hello : Bytes
hello = agent ++ (ephemeral ++ signature)

hello_made : ServerHello
hello_made = record { agent = agent; ephemeral = ephemeral; signature = signature }

hello_accepted : verify_server_hello valid verify hello controller agent ≡ ok hello_made
unfolding verify_server_hello parse_server_hello identity_message hello_made
hello_accepted = refl

abbrev home : Bytes
home = codes "home"

abbrev secret : Bytes
secret = codes "password"

abbrev conf : Bytes
conf = codes "network={\n\tssid=686f6d65\n\tpsk=\"password\"\n\tkey_mgmt=WPA-PSK\n}\n"

conf_made : network_conf home secret ≡ ok conf
unfolding network_conf hex
conf_made = refl

abbrev path : FilePath
path = record { dir = codes "/run"; name = some (codes "wifi.conf") }

abbrev calls : InstallCalls
calls = record {
  open_ok = true;
  write_ok = true;
  partial = 0;
  sync_ok = true;
  rename_ok = true;
  remove_ok = true;
}

abbrev no_sync : InstallCalls
no_sync = record calls { sync_ok = false }

abbrev empty : Disk
empty p = none

installs : (install calls (codes "9") path (codes "wifi.conf") conf empty).1 ≡ ok tt
unfolding install fill
installs = refl

fails : (install no_sync (codes "9") path (codes "wifi.conf") conf empty).1 ≡ err flushing
unfolding install fill
fails = refl

abbrev sink : Sink
sink = record { sent = []; room = 99 }

abbrev sent : Sink
sent = record { sent = 0 ∷ 0 ∷ 0 ∷ 2 ∷ 7 ∷ 8 ∷ []; room = 93 }

writes : write_frame (7 ∷ 8 ∷ []) sink ≡ ok sent
unfolding write_frame frame_size be32
writes = refl
