-- ===== src/Ble/Serving/Whole.antt =====
-- The target's service, from its key file to its end.
use egdod.Prelude.{ℕ, ◌≡◌, ◌⊎◌, Option, none, some, Bool, true, false, Bytes, Result, ok, err}
use egdod.Disk.{FilePath, Disk}
use egdod.State.Key.{KeyError}
use egdod.Ble.{no_key, no_adapter}
use egdod.Ble.Exchange.{Crypto, Identity}
use egdod.Ble.Serving.{Meeting, Served}
use egdod.Ble.Serving.Outcome.{Leaves}

-- The adapter's power is as it was found, or it was off and could not be turned off again.
abbrev pub IsRestored : Option Bool → Bool → Option Bool → Type 0
IsRestored adapter off_ok after =
    (after ≡ adapter) ⊎ ((adapter ≡ some false) × (off_ok ≡ false) × (after ≡ some true))

module _ (c : Crypto) (identity_of : Bytes → Identity) (controller pid : Bytes)
    (key_path path : FilePath) (name : Bytes) (meets : ℕ → Meeting)
    (named : path.name ≡ some name) where
  -- What becomes of the key that was loaded or made, on the disk that this left.
  abbrev pub Comes : Option Bool → Disk × Result KeyError Bytes → Served → Type 0
  Comes adapter (d, err e) o = (o.result ≡ err (no_key e)) × (o.site.disk ≡ d)
  Comes none (d, ok k) o = (o.result ≡ err no_adapter) × (o.site.disk ≡ d)
  Comes (some was_powered) (d, ok k) o =
      Leaves c (identity_of k) controller pid path name meets named d o

  abbrev pub Ends : Option Bool → Bool → Disk × Result KeyError Bytes → Option Served → Type 0
  Ends adapter off_ok key x =
      (o : Served) × (x ≡ some o)
      × Comes adapter key o
      × (o.site.active ≡ none)
      × IsRestored adapter off_ok o.powered
