-- ===== src/Tests/Provisioning.antt =====
-- The provisioning of a target over BLE between the two parties of Parties: one attempt, the
-- service's whole session, and the search of the controller.
use egdod.Prelude.{
  replicate, ◌+◌, ◌-◌, ◌≡◌, refl, none, some, true, false, List, [], ◌∷◌, ◌++◌, Bytes, codes,
  bytes_eq_refl, length, take, ok, arith,
}
use egdod.Io.{stream, eof, Sink, Stream, be32, from_be32}
use egdod.Disk.{FilePath, store, rename}
use egdod.Ble.{
  install, fill, tmp_of, private_file, write_frame, read_frame, frame_size, server_hello,
  verify_client_hello, identity_message,
}
use egdod.Ble.Channel.{framed}
use egdod.Ble.Provision.{Provisioned, Device, Sighting, added, provision}
use egdod.Ble.Exchange.{
  never, start_marker, target_attempt, controller_attempt, take_offer, finish_offer, acknowledge,
  receive_offer, open_request,
}
use egdod.Ble.Exchange.Agreement.{attempts_agree}
use egdod.Ble.Serving.{
  Event, write, notify, Meeting, Served, on_adapter, serve_on_adapter, serve_loop, exchange,
  first_half, pair,
}
use egdod.State.Key.{KeyCalls}
use egdod.Tests.Parties.{
  tag, sign_length, toy, target, controller, secret, other_secret, conf, all_well, conf_path, out,
  empty, roomy, hello, head, installed,
}

abbrev request : Bytes
request = head ++ (conf ++ tag)

abbrev ack : Bytes
ack = codes "ok" ++ tag

abbrev says : Stream
says = stream (start_marker ++ (framed request ++ [])) eof

attempts_agree_example :
    (target_attempt toy target controller.id (some secret) never out says roomy empty ≡ record {
      disk = (install out.calls out.pid out.path out.name conf empty).0;
      writer = record {
        sent = framed hello ++ framed ack;
        room = 70000 - (length hello + 4) - (length ack + 4);
      };
      installed = true;
      outcome = some (ok tt);
    })
    × (controller_attempt toy controller target.id
          (some other_secret)
          conf
          (stream (framed hello ++ (framed ack ++ [])) eof)
          roomy
        ≡ ok (record {
          sent = start_marker ++ framed request;
          room = 70000 - 1 - (length request + 4);
        }))
attempts_agree_example =
    attempts_agree toy target controller refl refl (λ m. refl) (λ m. refl) refl refl
      (λ m. bytes_eq_refl (sign_length m)) (λ m. bytes_eq_refl (sign_length m)) secret other_secret
      refl refl conf (conf ++ tag) ack [] [] out empty roomy roomy eof eof refl (omega arith) refl
      refl (omega arith) (omega arith) installed

-- The same request, in a session.
abbrev meeting : Meeting
meeting = record { random = some secret; cut = never; calls = all_well; signal = false }

abbrev session : List Event
session = write (codes "AA") true says ∷ notify (codes "BB") roomy ∷ notify (codes "AA") roomy ∷ []

abbrev key_path : FilePath
key_path = record { dir = codes "/mnt"; name = some (codes "agent.key") }

-- A system that makes the key.
abbrev fine : KeyCalls
fine = record {
  readable = true;
  random = some (replicate 32 1);
  dir_ok = true;
  open_ok = true;
  write_ok = true;
  partial = 0;
  sync_ok = true;
  rename_ok = true;
}

-- The session from the adapter on installs the credentials.
abbrev served : Served
served = record {
  site = record {
    disk =
        store
          (store
            (store (store empty (tmp_of out.pid conf_path out.name) (private_file []))
              (tmp_of out.pid conf_path out.name) (private_file conf))
            conf_path (private_file conf))
          (tmp_of out.pid conf_path out.name) none;
    active = none;
    forgotten = codes "AA" ∷ [];
  };
  powered = some false;
  result = ok tt;
}

serves :
    on_adapter toy target controller.id out.pid conf_path out.name
      (λ k. meeting)
      false
      true
      true
      session
      empty
    ≡ some served
unfolding on_adapter serve_on_adapter serve_loop exchange first_half pair target_attempt take_offer
    finish_offer acknowledge receive_offer open_request install fill rename store write_frame
    read_frame frame_size be32 from_be32 server_hello verify_client_hello identity_message
serves = refl

-- The controller's search: a device of another name, and then the target.
abbrev seen : Device
seen = record {
  address = codes "D";
  legible = true;
  name = some (codes "egdod-" ++ take 8 target.id);
  serves = true;
  paired = false;
  late = false;
  signal = false;
  connects = true;
  in_time = true;
  random = some other_secret;
  reader = stream (framed hello ++ framed ack) eof;
  writer = roomy;
}

abbrev sightings : List Sighting
sightings = added (record seen { name = some (codes "lamp") }) ∷ added seen ∷ []

-- The credentials, their ciphertext and the request with them.
abbrev real_conf : Bytes
real_conf = codes "network={\n\tssid=6162\n\tpsk=\"12345678\"\n\tkey_mgmt=WPA-PSK\n}\n"

abbrev sent_all : Sink
sent_all = record {
  sent = start_marker ++ framed (head ++ (real_conf ++ tag));
  room = 70000 - 1 - (length (head ++ (real_conf ++ tag)) + 4);
}

abbrev provisioned : Provisioned
provisioned =
    provision toy controller target.id (λ k. k) (codes "ab") (codes "12345678") true (some false) []
      sightings
