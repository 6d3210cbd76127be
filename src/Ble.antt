-- ===== src/Ble.antt =====
-- src/ble.rs: the hellos and their signatures, the text and the file of the credentials, and the
-- frames of the channel. Keys, signatures and ciphers are other crates': a node id is its 32 bytes,
-- a signature its 64, and what verifies is a parameter.
pub mod Hello
pub mod Credentials
pub mod Channel
pub mod Exchange
pub mod Serving
pub mod Provision
pub mod Discovery
use egdod.Prelude.{
  ℕ, ◌+◌, ◌≡◌, Option, none, some, Bool, true, false, not, ◌&&◌, ◌||◌, List, [], ◌∷◌, ◌++◌, Bytes,
  codes, ◌==◌, ltb, leb, if◌then◌else◌, bytes_eq, any_of, all_of, length, take, drop, Result, ok,
  err, ◌>>=◌, ◌>>◌, ensure,
}
use egdod.Io.{Stream, Sink, read_exact, write_all, be32, from_be32, IoError}
use egdod.Disk.{try_remove, FilePath, with_name, File, Disk, store, rename}
use egdod.Hex.{hex}
use egdod.Proto.Frame.{map_err}
use egdod.State.Key.{KeyError}

pub data BleError : Type 0 where
  wrong_size bad_node_id wrong_agent not_verified too_short wrong_controller : BleError
  bad_ssid bad_psk creating writing flushing renaming frame_too_large channel : BleError
  bad_start no_randomness encryption_failed authentication_failed empty_conf bad_ack : BleError
  service_stopped pairing_timed_out accepting advertising interrupted : BleError
  no_adapter not_found discovery_ended bonded no_connection exchange_timed_out : BleError
  no_key : KeyError → BleError

abbrev pub server_label : Bytes
server_label = codes "egdod-ble-server-v1"

abbrev pub client_label : Bytes
client_label = codes "egdod-ble-client-v1"

pub record ServerHello : Type 0 where
  pub agent : Bytes
  pub ephemeral : Bytes
  pub signature : Bytes

abbrev pub concat : List Bytes → Bytes
concat [] = []
concat (b ∷ bs) = b ++ concat bs

unfoldable pub identity_message : Bytes → Bytes → Bytes → List Bytes → Bytes
identity_message label controller agent keys = label ++ (controller ++ (agent ++ concat keys))

-- What node ids are well formed, and which signature a node id verifies for a message.
module _ (valid : Bytes → Bool) (verify : Bytes → Bytes → Bytes → Bool) where
  -- `sign` is the agent's, whose node id is `agent`.
  unfoldable pub server_hello : (Bytes → Bytes) → Bytes → Bytes → Bytes → Bytes
  unfolding identity_message
  server_hello sign agent controller ephemeral =
      agent ++ (ephemeral ++ sign (identity_message server_label controller agent (ephemeral ∷ [])))

  unfoldable pub parse_server_hello : Bytes → Result BleError ServerHello
  parse_server_hello bytes = do
    ensure (length bytes == 128) wrong_size
    ensure (valid (take 32 bytes)) bad_node_id
    ok (record {
      agent = take 32 bytes;
      ephemeral = take 32 (drop 32 bytes);
      signature = drop 64 bytes;
    })

  unfoldable pub verify_server_hello : Bytes → Bytes → Bytes → Result BleError ServerHello
  unfolding parse_server_hello identity_message
  verify_server_hello bytes controller expected_agent = do
    hello ← parse_server_hello bytes
    ensure (bytes_eq hello.agent expected_agent) wrong_agent
    ensure
        (verify expected_agent
          (identity_message server_label controller expected_agent (hello.ephemeral ∷ []))
          hello.signature)
        not_verified
    ok hello

  unfoldable pub verify_client_hello : Bytes → Bytes → Bytes → Bytes → Result BleError Bytes
  unfolding identity_message
  verify_client_hello bytes controller agent server_ephemeral = do
    ensure (leb 144 (length bytes)) too_short
    ensure (valid (take 32 bytes)) bad_node_id
    ensure (bytes_eq (take 32 bytes) controller) wrong_controller
    ensure
        (verify controller
          (identity_message client_label controller agent
            (server_ephemeral ∷ take 32 (drop 32 bytes) ∷ []))
          (take 64 (drop 64 bytes)))
        not_verified
    ok (take 32 (drop 32 bytes))

-- A line break, NUL, a quote or a backslash.
abbrev pub is_special : ℕ → Bool
is_special c = c == 10 || c == 13 || c == 0 || c == 34 || c == 92

abbrev pub is_hex_digit : ℕ → Bool
is_hex_digit c = (leb 48 c && leb c 57) || (leb 97 c && leb c 102) || (leb 65 c && leb c 70)

abbrev pub is_raw : Bytes → Bool
is_raw psk = (length psk == 64) && all_of is_hex_digit psk

abbrev pub psk_line : Bytes → Bytes
psk_line psk = if is_raw psk then codes "\tpsk=" ++ psk else codes "\tpsk=\"" ++ (psk ++ codes "\"")

unfoldable pub network_conf : Bytes → Bytes → Result BleError Bytes
network_conf ssid psk = do
  ensure (not (bytes_eq ssid [] || ltb 32 (length ssid) || any_of is_special ssid)) bad_ssid
  ensure
      (((leb 8 (length psk) && leb (length psk) 63) || is_raw psk) && not (any_of is_special psk))
      bad_psk
  ok (
      codes "network={\n"
      ++ ((codes "\tssid=" ++ hex ssid)
          ++ (10 ∷ (psk_line psk ++ codes "\n\tkey_mgmt=WPA-PSK\n}\n"))))

-- What the operating system answers to `install`. A write that fails puts `partial` bytes.
pub record InstallCalls : Type 0 where
  pub open_ok : Bool
  pub write_ok : Bool
  pub partial : ℕ
  pub sync_ok : Bool
  pub rename_ok : Bool
  -- Whether `remove_file` of the staging file succeeds.
  pub remove_ok : Bool

abbrev pub private_file : Bytes → Option File
private_file b = some (record { content = b; mode = 0o600 })

-- Whether the steps after the creation went well; after a failure the staging file's
-- removal is tried.
unfoldable pub fill :
    InstallCalls → FilePath → FilePath → Bytes → Disk → Disk × Result BleError (Unit {0})
fill c tmp path bytes d =
    if not c.write_ok
    then (
      try_remove c.remove_ok tmp (store d tmp (private_file (take c.partial bytes))),
      err writing,
    )
    else if not c.sync_ok
    then (try_remove c.remove_ok tmp (store d tmp (private_file bytes)), err flushing)
    else if not c.rename_ok
    then (try_remove c.remove_ok tmp (store d tmp (private_file bytes)), err renaming)
    else (rename (store d tmp (private_file bytes)) tmp path, ok tt)

abbrev pub tmp_of : Bytes → FilePath → Bytes → FilePath
tmp_of pid path name = with_name path (name ++ (codes ".ble.tmp." ++ pid))

-- The staging file has the path's name with more behind it.
unfoldable pub install :
    InstallCalls → Bytes → FilePath → Bytes → Bytes → Disk → Disk × Result BleError (Unit {0})
unfolding fill
install c pid path name bytes d = elim (d (tmp_of pid path name)) [
  | some f ↦ (d, err creating)
  | none ↦
      if not c.open_ok
      then (d, err creating)
      else fill c (tmp_of pid path name) path bytes
          (store d (tmp_of pid path name) (private_file []))
]

abbrev pub max_frame : ℕ
max_frame = 65536

unfoldable pub frame_size : ℕ → Result BleError ℕ
frame_size size = if ltb max_frame size then err frame_too_large else ok size

unfoldable pub write_frame : Bytes → Sink → Result BleError Sink
unfolding frame_size
write_frame bytes w = do
  n ← frame_size (length bytes)
  w' ← map_err channel (write_all (be32 (length bytes)) w)
  map_err channel (write_all bytes w')

unfoldable pub read_frame : Stream → Result BleError (Bytes × Stream)
unfolding frame_size
read_frame r = do
  (len, r') ← map_err channel (read_exact 4 r)
  size ← frame_size (from_be32 len)
  map_err channel (read_exact size r')
