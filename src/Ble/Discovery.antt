-- ===== src/Ble/Discovery.antt =====
-- src/ble.rs, what is asked of the Bluetooth service before an exchange: an adapter, the advertisement of
-- the target, and the characteristic of a device. What bluer answers, and the clock in milliseconds
-- since the waiting began, are values.
pub mod Polling
pub mod Patience
use egdod.Prelude.{
  ℕ, ◌≡◌, ◌*◌, Option, none, some, Bool, true, false, List, [], ◌∷◌, Bytes, bytes_eq, ltb, not,
  if◌then◌else◌, Result, ok, err,
}
use egdod.Ble.Provision.{local_name}

abbrev pub adapter_wait : ℕ
adapter_wait = 10 * 1000

abbrev pub service_wait : ℕ
service_wait = 10 * 1000

-- The shape of both loops: what is asked for answers at some time, an error that may pass is tried
-- again before the deadline, after a pause, and every other answer is the last.
unfoldable pub poll : {E A : Type 0} → (E → Bool) → ℕ → List (ℕ × Result E A) → Option (Result E A)
poll may_pass deadline [] = none
poll may_pass deadline ((now, ok a) ∷ rounds) = some (ok a)
poll may_pass deadline ((now, err e) ∷ rounds) =
    let rest = poll may_pass deadline rounds in
    if may_pass e then (if ltb now deadline then rest else some (err e)) else some (err e)

abbrev adapter_of : {E A : Type 0} → (Bytes → Result E A) → Result E A → Option Bytes → Result E A
adapter_of named usual none = usual
adapter_of named usual (some n) = named n

-- `probe_adapter`: the adapter of that name or the default one, and whether it is powered.
unfoldable pub probe_adapter :
    {E A : Type 0}
    → (Bytes → Result E A)
    → Result E A
    → (A → Result E Bool)
    → Option Bytes
    → Result E (A × Bool)
probe_adapter named usual is_powered name = elim (adapter_of named usual name) [
  | err e ↦ err e
  | ok a ↦ elim (is_powered a) [ err e ↦ err e | ok powered ↦ ok (a, powered) ]
]

-- What is made of the adapter that was found: one without power gets it. The second part is whether
-- it had power before.
unfoldable pub power_up :
    {E A : Type 0} → Result E (Unit {0}) → Result E (A × Bool) → Result E (A × Bool)
power_up set_powered (err e) = err e
power_up set_powered (ok (a, true)) = ok (a, true)
power_up set_powered (ok (a, false)) = elim set_powered [ err e ↦ err e | ok _ ↦ ok (a, false) ]

unfoldable pub adapter :
    {E A : Type 0}
    → Result E (Unit {0})
    → Result E (Unit {0})
    → List (ℕ × Result E (A × Bool))
    → Option (Result E (A × Bool))
unfolding poll power_up
adapter connected set_powered rounds = elim connected [
  | err e ↦ some (err e)
  | ok _ ↦ elim (poll (λ e. true) adapter_wait rounds) [
    | none ↦ none
    | some r ↦ some (power_up set_powered r)
  ]
]

pub record Advertisement : Type 0 where
  pub service_uuids : List Bytes
  pub local_name : Option Bytes
  pub discoverable : Option Bool

unfoldable pub advertisement : Bytes → (Bytes → Bytes) → Bytes → Advertisement
advertisement service_uuid print id = record {
  service_uuids = service_uuid ∷ [];
  local_name = some (local_name print id);
  discoverable = some true;
}

pub data BluerError : Type 0 where
  services_unresolved other : BluerError

pub record RemoteCharacteristic : Type 0 where
  pub handle : ℕ
  pub uuid : Result BluerError Bytes

pub record RemoteService : Type 0 where
  pub uuid : Result BluerError Bytes
  pub characteristics : Result BluerError (List RemoteCharacteristic)

abbrev pub or_else :
    Result BluerError (Option RemoteCharacteristic)
    → Result BluerError (Option RemoteCharacteristic)
    → Result BluerError (Option RemoteCharacteristic)
or_else (err e) rest = err e
or_else (ok (some c)) rest = ok (some c)
or_else (ok none) rest = rest

pub data DiscoveryError : Type 0 where
  no_characteristic : DiscoveryError
  discovery : BluerError → DiscoveryError

abbrev pub is_unresolved : BluerError → Bool
is_unresolved services_unresolved = true
is_unresolved other = false

abbrev pub required :
    Result BluerError (Option RemoteCharacteristic) → Result DiscoveryError RemoteCharacteristic
required (err e) = err (discovery e)
required (ok none) = err no_characteristic
required (ok (some c)) = ok c

-- `find_characteristic`: the first one of the UUID, of a service of the other UUID; the first error
-- on the way ends the search.
module _ (service_uuid characteristic_uuid : Bytes) where
  unfoldable pub in_service :
      List RemoteCharacteristic → Result BluerError (Option RemoteCharacteristic)
  in_service [] = ok none
  in_service (c ∷ cs) =
      let rest = in_service cs in
      elim c.uuid [
        | err e ↦ err e
        | ok u ↦ if bytes_eq u characteristic_uuid then ok (some c) else rest
      ]

  unfoldable pub of_service :
      Result BluerError (List RemoteCharacteristic)
      → Result BluerError (Option RemoteCharacteristic)
  unfolding in_service
  of_service (err e) = err e
  of_service (ok cs) = in_service cs

  unfoldable pub in_services : List RemoteService → Result BluerError (Option RemoteCharacteristic)
  unfolding of_service
  in_services [] = ok none
  in_services (s ∷ ss) =
      let rest = in_services ss in
      elim s.uuid [
        | err e ↦ err e
        | ok u ↦
            if not (bytes_eq u service_uuid)
            then rest
            else or_else (of_service s.characteristics) rest
      ]

  unfoldable pub find_characteristic :
      Result BluerError (List RemoteService) → Result BluerError (Option RemoteCharacteristic)
  unfolding in_services
  find_characteristic (err e) = err e
  find_characteristic (ok services) = in_services services

  -- What each look at the device gives, and when.
  abbrev pub looks :
      List (ℕ × Result BluerError (List RemoteService))
      → List (ℕ × Result BluerError (Option RemoteCharacteristic))
  looks [] = []
  looks ((now, services) ∷ more) = (now, find_characteristic services) ∷ looks more

  unfoldable pub characteristic :
      List (ℕ × Result BluerError (List RemoteService))
      → Option (Result DiscoveryError RemoteCharacteristic)
  unfolding poll find_characteristic
  characteristic rounds = elim (poll is_unresolved service_wait (looks rounds)) [
    | none ↦ none
    | some r ↦ some (required r)
  ]
