-- ===== src/State/Key/Private.antt =====
-- Who may read a key file.
use egdod.Prelude.{◌≡◌, none, some, Bytes, ok, inl, inr}
use egdod.Disk.{FilePath, Disk}
use egdod.State.Key.{
  OnUnusable, replace, refuse, KeyCalls, KeyError, read_key, create_key, on_unusable,
  load_or_create_key, warn_if_readable,
}
use egdod.State.Key.Identity.{create_key-made, Key-cases}

created-unwarned :
    (c : KeyCalls) (pid : Bytes) (path : FilePath) (n k : Bytes) (d : Disk)
    → path.name ≡ some n
    → (create_key c pid path d).1 ≡ ok k
    → warn_if_readable (create_key c pid path d).0 path ≡ none
unfolding warn_if_readable
created-unwarned c pid path n k d named h =
    let (made, drawn) = create_key-made c pid path n k d named h in rw (made, warn_if_readable)

-- A key that is loaded or made is in a file that nothing warns about, unless it was in one that was
-- warned about before.
warn_if_readable-load_or_create_key :
    (policy : OnUnusable) (c : KeyCalls) (pid : Bytes) (path : FilePath) (n k : Bytes) (d : Disk)
    → path.name ≡ some n
    → warn_if_readable d path ≡ none
    → (load_or_create_key policy c pid path d).1 ≡ ok k
    → warn_if_readable (load_or_create_key policy c pid path d).0 path ≡ none
unfolding load_or_create_key on_unusable
warn_if_readable-load_or_create_key policy c pid path n k d named before h =
    elim (Key-cases (read_key c path d)) [
      | inr (inl free) ↦
          rw (free, load_or_create_key)
            (created-unwarned c pid path n k d named (rw (free, load_or_create_key) at h))
      | inr (inr (held, there)) ↦ rw (there, load_or_create_key) before
      | inl (e, bad) ↦
          rw (bad, load_or_create_key) (unusable policy e (rw (bad, load_or_create_key) at h))
    ]
  where
    unusable :
        (policy : OnUnusable) (e : KeyError)
        → (on_unusable policy e d (create_key c pid path d)).1 ≡ ok k
        → warn_if_readable (on_unusable policy e d (create_key c pid path d)).0 path ≡ none
    unusable replace e h = created-unwarned c pid path n k d named h
    unusable refuse e h = before
