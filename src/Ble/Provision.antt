-- ===== src/Ble/Provision.antt =====
-- src/ble.rs, `provision`: the controller scans for its target, tries each device that looks like it,
-- and cleans up. What the Bluetooth service reports, and what each attempt meets, is a sequence of
-- sightings; a discovery that cannot begin is one without any.
pub mod Answered
pub mod Found
use egdod.Prelude.{
  ℕ, ◌≡◌, Option, none, some, Bool, true, false, not, ◌&&◌, ◌||◌, List, [], ◌∷◌, ◌++◌, Bytes, codes,
  bytes_eq, any_of, take, if◌then◌else◌, Result, ok, err,
}
use egdod.Io.{Stream, Sink}
use egdod.Disk.{name_eq}
use egdod.Ble.{
  BleError, network_conf, interrupted, no_adapter, not_found, discovery_ended, bonded,
  no_connection, exchange_timed_out,
}
use egdod.Ble.Exchange.{Crypto, Identity, controller_attempt}

-- `print` is iroh's text of a node id.
abbrev pub local_name : (Bytes → Bytes) → Bytes → Bytes
local_name print id = codes "egdod-" ++ take 8 (print id)

-- A device that was seen, and what an attempt with it meets: whether the search was over when it
-- began, whether a signal ended it, whether the device could be connected to, whether it ended
-- in time, the system's random bytes, and the channel.
pub record Device : Type 0 where
  pub address : Bytes
  pub legible : Bool
  pub name : Option Bytes
  pub serves : Bool
  pub paired : Bool
  pub late : Bool
  pub signal : Bool
  pub connects : Bool
  pub in_time : Bool
  pub random : Option Bytes
  pub reader : Stream
  pub writer : Sink

pub data Sighting : Type 0 where
  added : Device → Sighting
  other over terminated : Sighting

-- The controller's Bluetooth: the devices known before, the device that is tried, with whether it was
-- known, those that were disconnected, and those that the adapter was told to forget.
pub record Radio : Type 0 where
  pub known : List Bytes
  pub active : Option (Bytes × Bool)
  pub disconnected : List Bytes
  pub forgotten : List Bytes

unfoldable pub forget : Bytes → Bool → Radio → Radio
forget address true s = record s { active = none; disconnected = address ∷ s.disconnected }
forget address false s = record s {
  active = none;
  disconnected = address ∷ s.disconnected;
  forgotten = address ∷ s.forgotten;
}

module _ (c : Crypto) (controller : Identity) (agent : Bytes) (expected_name : Bytes)
    (conf : Bytes) where
  abbrev pub looks_right : Device → Bool
  looks_right d = d.legible && (name_eq d.name (some expected_name) && d.serves)

  unfoldable pub attempt : Device → Result BleError Sink
  attempt d =
      if d.in_time
      then if d.connects
        then controller_attempt c controller agent d.random conf d.reader d.writer
        else err no_connection
      else err exchange_timed_out

  abbrev pub tried : Device → Bool → Radio → Radio
  tried d was_known s = record s { active = some (d.address, was_known) }

  -- Whether the search ends with this device, and how.
  abbrev pub judged :
      Device → Bool → Radio → Result BleError Sink → Radio × Option (Result BleError Sink)
  judged d was_known s (ok w) = (forget d.address was_known s, some (ok w))
  judged d was_known s (err e) = (forget d.address was_known s, none)

  unfoldable pub try_device : Device → Radio → Radio × Option (Result BleError Sink)
  unfolding attempt forget
  try_device d s =
      let was_known = any_of (bytes_eq d.address) s.known in
      if not (looks_right d)
      then (s, none)
      else if d.paired
      then (s, some (err bonded))
      else if d.late
      then (tried d was_known s, some (err not_found))
      else if d.signal
      then (tried d was_known s, some (err interrupted))
      else judged d was_known (tried d was_known s) (attempt d)

  abbrev pub or_next :
      Radio × Option (Result BleError Sink)
      → (Radio → Radio × Result BleError Sink)
      → Radio × Result BleError Sink
  or_next (s, some r) next = (s, r)
  or_next (s, none) next = next s

  -- The loop.
  unfoldable pub search : List Sighting → Radio → Radio × Result BleError Sink
  unfolding try_device
  search [] s = (s, err discovery_ended)
  search (over ∷ es) s = (s, err not_found)
  search (terminated ∷ es) s = (s, err interrupted)
  search (other ∷ es) s = search es s
  search (added d ∷ es) s = or_next (try_device d s) (search es)

-- What `provision` leaves.
pub record Provisioned : Type 0 where
  pub radio : Radio
  pub powered : Option Bool
  pub result : Result BleError Sink

abbrev pub let_go : Option (Bytes × Bool) → Radio → Radio
let_go (some (address, was_known)) s = forget address was_known s
let_go none s = s

-- `set_powered(false)` of an adapter that was off; a failure is passed over, and leaves it on.
abbrev pub closing : Bool → Bool → Radio × Result BleError Sink → Provisioned
closing off_ok was_powered (s, r) = record {
  radio = let_go s.active s;
  powered = some (was_powered || not off_ok);
  result = r;
}

abbrev pub idle_radio : List Bytes → Radio
idle_radio known = record { known = known; active = none; disconnected = []; forgotten = [] }

-- `adapter` is whether the adapter that was found was on, if one was found; one that was off is
-- turned on for the search.
unfoldable pub provision :
    Crypto
    → Identity
    → Bytes
    → (Bytes → Bytes)
    → Bytes
    → Bytes
    → Bool
    → Option Bool
    → List Bytes
    → List Sighting
    → Provisioned
unfolding search forget
provision c controller agent print ssid psk off_ok adapter known es = elim (network_conf ssid psk) [
  | err e ↦ record { radio = idle_radio known; powered = adapter; result = err e }
  | ok conf ↦ elim adapter [
    | none ↦ record { radio = idle_radio known; powered = none; result = err no_adapter }
    | some was_powered ↦
        closing off_ok was_powered
          (search c controller agent (local_name print agent) conf es (idle_radio known))
  ]
]
