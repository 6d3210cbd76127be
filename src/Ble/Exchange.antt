-- ===== src/Ble/Exchange.antt =====
-- src/ble.rs, one provisioning attempt from both ends: what the target does with a connected
-- controller in `serve_on_adapter`, and what the controller does with a connected target in
-- `provision`. X25519, ChaCha20-Poly1305, Ed25519 and SHA-256 are other crates': parameters, with
-- what is documented of them.
pub mod Said
pub mod Agreement
pub mod Vouched
pub mod Installed
use egdod.Prelude.{
  ℕ, ◌+◌, ◌≡◌, Option, none, some, Bool, true, false, not, [], ◌∷◌, ◌++◌, Bytes, codes, bytes_eq,
  length, take, drop, replicate, Result, ok, err, ◌>>=◌, ◌>>◌, ensure, or_fail,
}
use egdod.Io.{Stream, Sink, read_exact, write_all}
use egdod.Disk.{FilePath, Disk}
use egdod.Proto.Frame.{map_err}
use egdod.Ble.{
  BleError, channel, bad_start, no_randomness, encryption_failed, authentication_failed, empty_conf,
  bad_ack, identity_message, client_label, server_hello, verify_server_hello, verify_client_hello,
  InstallCalls, install, write_frame, read_frame,
}

pub record Crypto : Type 0 where
  pub valid : Bytes → Bool
  pub verify : Bytes → Bytes → Bytes → Bool
  pub sha256 : Bytes → Bytes
  pub public_of : Bytes → Bytes
  pub diffie_hellman : Bytes → Bytes → Bytes
  pub encrypt : Bytes → Bytes → Bytes → Bytes → Option Bytes
  pub decrypt : Bytes → Bytes → Bytes → Bytes → Option Bytes
  pub length-public_of : (s : Bytes) → length s ≡ 32 → length (public_of s) ≡ 32
  pub diffie_hellman_comm :
      (s t : Bytes) → diffie_hellman s (public_of t) ≡ diffie_hellman t (public_of s)
  pub length-encrypt :
      (k n aad clear cipher : Bytes)
      → encrypt k n aad clear ≡ some cipher
      → length cipher ≡ length clear + 16
  pub decrypt-encrypt :
      (k n aad clear cipher : Bytes)
      → encrypt k n aad clear ≡ some cipher
      → decrypt k n aad cipher ≡ some clear

-- One end's identity: its node id, and what it signs.
pub record Identity : Type 0 where
  pub id : Bytes
  pub sign : Bytes → Bytes

abbrev pub key_label : Bytes
key_label = codes "egdod-ble-key-v1"

abbrev pub start_marker : Bytes
start_marker = 1 ∷ []

abbrev pub nonce : ℕ → Bytes
nonce n = replicate 11 0 ++ (n ∷ [])

-- What both ends hold once the request was made or accepted.
pub record Offer : Type 0 where
  pub conf : Bytes
  pub key : Bytes
  pub transcript : Bytes
  pub writer : Sink

-- Where the time limit of the exchange struck, if it did. The installation is not interrupted.
pub data Cut : Type 0 where
  never before_install after_install : Cut

-- What an attempt leaves: an outcome of `none` is the time limit. The writer is followed from the
-- offer on; of an attempt without one it is given as it was at the start.
pub record Attempted : Type 0 where
  pub disk : Disk
  pub writer : Sink
  pub installed : Bool
  pub outcome : Option (Result BleError (Unit {0}))

-- Where the credentials go.
pub record Output : Type 0 where
  pub calls : InstallCalls
  pub pid : Bytes
  pub path : FilePath
  pub name : Bytes

abbrev pub sent_or : Sink → Result BleError Sink → Sink
sent_or w (ok w') = w'
sent_or w (err e) = w

module _ (c : Crypto) where
  abbrev pub session_key : Bytes → Bytes → Bytes
  session_key shared transcript = c.sha256 (key_label ++ (shared ++ transcript))

  abbrev pub crypt : Bytes → ℕ → Bytes → Bytes → Result BleError Bytes
  crypt key n aad clear = or_fail (c.encrypt key (nonce n) aad clear) encryption_failed

  abbrev pub decrypt : Bytes → ℕ → Bytes → Bytes → Result BleError Bytes
  decrypt key n aad cipher = or_fail (c.decrypt key (nonce n) aad cipher) authentication_failed

  -- The target's check of a request, and the credentials in it.
  unfoldable pub open_request : Bytes → Bytes → Bytes → Bytes → Bytes → Sink → Result BleError Offer
  open_request controller agent secret hello request w = do
    client_ephemeral ←
        verify_client_hello c.valid c.verify request controller agent (c.public_of secret)
    let transcript = hello ++ take 128 request
    let key = session_key (c.diffie_hellman secret client_ephemeral) transcript
    conf ← decrypt key 0 transcript (drop 128 request)
    ensure (not (bytes_eq conf [])) empty_conf
    ok (record { conf = conf; key = key; transcript = transcript; writer = w })

  abbrev pub hello_of : Identity → Bytes → Bytes → Bytes
  hello_of target controller secret =
      server_hello c.valid c.verify target.sign target.id controller (c.public_of secret)

  -- Up to the installation.
  unfoldable pub receive_offer :
      Identity → Bytes → Option Bytes → Stream → Sink → Result BleError Offer
  unfolding open_request
  receive_offer target controller random r w = do
    (start, r1) ← map_err channel (read_exact 1 r)
    ensure (bytes_eq start start_marker) bad_start
    secret ← or_fail random no_randomness
    w1 ← write_frame (hello_of target controller secret) w
    (request, r2) ← read_frame r1
    open_request controller target.id secret (hello_of target controller secret) request w1

  -- An acknowledgement that cannot be sent is no failure of the attempt.
  unfoldable pub acknowledge : Cut → Offer → Disk → Attempted
  acknowledge cut o d = elim (crypt o.key 1 o.transcript (codes "ok")) [
    | err e ↦ record { disk = d; writer = o.writer; installed = true; outcome = some (err e) }
    | ok ack ↦ elim cut [
      | after_install ↦ record { disk = d; writer = o.writer; installed = true; outcome = none }
      | _ ↦ record {
        disk = d;
        writer = sent_or o.writer (write_frame ack o.writer);
        installed = true;
        outcome = some (ok tt);
      }
    ]
  ]

  unfoldable pub finish_offer : Cut → Offer → Disk × Result BleError (Unit {0}) → Attempted
  unfolding acknowledge
  finish_offer cut o (d, err e) = record {
    disk = d;
    writer = o.writer;
    installed = false;
    outcome = some (err e);
  }
  finish_offer cut o (d, ok _) = acknowledge cut o d

  unfoldable pub take_offer : Cut → Output → Sink → Disk → Result BleError Offer → Attempted
  unfolding finish_offer
  take_offer before_install out w d r = record {
    disk = d;
    writer = w;
    installed = false;
    outcome = none;
  }
  take_offer cut out w d (err e) = record {
    disk = d;
    writer = w;
    installed = false;
    outcome = some (err e);
  }
  take_offer cut out w d (ok o) =
      finish_offer cut o (install out.calls out.pid out.path out.name o.conf d)

  -- The exchange of `serve_on_adapter`.
  unfoldable pub target_attempt :
      Identity → Bytes → Option Bytes → Cut → Output → Stream → Sink → Disk → Attempted
  unfolding take_offer receive_offer
  target_attempt target controller random cut out r w d =
      take_offer cut out w d (receive_offer target controller random r w)

  -- The controller's answer to a hello.
  abbrev pub request_head : Identity → Bytes → Bytes → Bytes → Bytes
  request_head controller agent server_ephemeral client_ephemeral =
      controller.id
      ++ (client_ephemeral
          ++ controller.sign (
              identity_message client_label controller.id agent
                (server_ephemeral ∷ client_ephemeral ∷ [])))

  unfoldable pub make_request :
      Identity → Bytes → Option Bytes → Bytes → Bytes → Result BleError (Bytes × (Bytes × Bytes))
  make_request controller agent random conf hello_bytes = do
    hello ← verify_server_hello c.valid c.verify hello_bytes controller.id agent
    secret ← or_fail random no_randomness
    let head = request_head controller agent hello.ephemeral (c.public_of secret)
    let transcript = hello_bytes ++ head
    let key = session_key (c.diffie_hellman secret hello.ephemeral) transcript
    cipher ← crypt key 0 transcript conf
    ok (head ++ cipher, (key, transcript))

  -- The exchange of `provision`, up to the bytes that it sent.
  unfoldable pub controller_attempt :
      Identity → Bytes → Option Bytes → Bytes → Stream → Sink → Result BleError Sink
  unfolding make_request
  controller_attempt controller agent random conf r w = do
    w1 ← map_err channel (write_all start_marker w)
    (hello_bytes, r1) ← read_frame r
    (request, (key, transcript)) ← make_request controller agent random conf hello_bytes
    w2 ← write_frame request w1
    (ack, r2) ← read_frame r1
    answer ← decrypt key 1 transcript ack
    ensure (bytes_eq answer (codes "ok")) bad_ack
    ok w2
