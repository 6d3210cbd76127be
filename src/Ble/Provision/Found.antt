-- ===== src/Ble/Provision/Found.antt =====
-- What a provisioning that ended well had found.
use egdod.Prelude.{◌≡◌, ◌⊎◌, none, true, false, List, [], ◌∷◌, Bytes, bytes_eq, any_of}
use egdod.Ble.Exchange.{Crypto, Identity}
use egdod.Ble.Provision.{Device, Sighting, added, other, over, terminated, Radio, looks_right}
use egdod.Ble.Provision.Answered.{IsAnswered}

-- The last device that was let go: it was disconnected, and the adapter was told to forget it, unless
-- it was known before.
abbrev pub LetGo : Bytes → Radio → Type 0
LetGo address s =
    (s.active ≡ none)
    × ((before : List Bytes) × (s.disconnected ≡ address ∷ before))
    × ((any_of (bytes_eq address) s.known ≡ true)
        ⊎ ((before : List Bytes) × (s.forgotten ≡ address ∷ before)))

module _ (c : Crypto) (controller : Identity) (agent name conf : Bytes) where
  -- A device that the search saw, with the target's name and service and no bond, and whose attempt
  -- the target answered.
  abbrev pub IsFound : Device → Type 0
  IsFound d =
      (looks_right c controller agent name conf d ≡ true)
      × (d.paired ≡ false)
      × (d.in_time ≡ true)
      × IsAnswered c controller agent d.random d.reader

  -- One of the sightings is such a device, and it was let go.
  abbrev pub Sees : List Sighting → Radio → Type 0
  Sees [] s = ⊥
  Sees (added d ∷ es) s = (IsFound d × LetGo d.address s) ⊎ Sees es s
  Sees (other ∷ es) s = Sees es s
  Sees (over ∷ es) s = ⊥
  Sees (terminated ∷ es) s = ⊥
