-- ===== src/State/Status/Readers.antt =====
-- What a reader of status.json finds while `serve` and other commands write it.
use egdod.Prelude.{◌≡◌, ◌≢◌, ◌⊎◌, ◌∙◌, none, some, Bool, true, false, Bytes, err, inl, inr}
use egdod.Disk.{File, Disk}
use egdod.Proto.{Codec}
use egdod.State.Dir.{StateDir, status_path}
use egdod.State.Atomic.{System, Reach}
use egdod.State.Atomic.Whole.{Reach-IsWhole}
use egdod.State.Status.{Status, parsing, read_status}

module _ (json : Codec Status) (dir : StateDir) where
  -- The bytes of some status.
  abbrev pub IsStatus : Bytes → Type 0
  IsStatus b = (s : Status) × (json.encode s ≡ some b)

  read_found :
      (can_read : Bool) (d : Disk) (f : File) (s : Status)
      → d (status_path dir) ≡ some f
      → json.decode f.content ≡ some s
      → read_status json dir can_read d ≢ err parsing
  unfolding read_status
  read_found true d f s here whole e = cc (rw (read_status, here, whole) at e)
  read_found false d f s here whole e = cc (rw (read_status, here) at e)

  -- However the writers of status.json take turns, and wherever one is cut off, a reader never sees a
  -- file that does not parse, if there was none, or one that parses, when they began.
  pub Reach-read_status :
      (can_read : Bool) (d₀ : Disk) (s : System)
      → (d₀ (status_path dir) ≡ none)
        ⊎ ((f : File) × (st : Status) × (d₀ (status_path dir) ≡ some f)
            × (json.decode f.content ≡ some st))
      → Reach (status_path dir) IsStatus d₀ s
      → read_status json dir can_read s.disk ≢ err parsing
  unfolding read_status
  Reach-read_status can_read d₀ s begin r = elim (Reach-IsWhole (status_path dir) IsStatus d₀ s r) [
    | inr (body, (st, encoded), (mode, here)) ↦
        read_found can_read s.disk _ st here (json.decode-encode st body encoded)
    | inl same ↦ elim begin [
      | inl nothing ↦ λ e. cc (rw (read_status, same ∙ nothing) at e)
      | inr (f, st, here, whole) ↦ read_found can_read s.disk f st (same ∙ here) whole
    ]
  ]
