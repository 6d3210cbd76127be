-- ===== src/State/Dir/Lasting.antt =====
-- The key that `init` makes and `serve` loads.
use egdod.Prelude.{
  ◌≡◌, refl, ap, ◌∙◌, some, true, Bytes, length, ok, err, arith, inl, inr, Bool-cases, Result,
}
use egdod.Disk.{Disk}
use egdod.State.Key.{KeyError, KeyCalls, refuse, read_key, load_or_create_key}
use egdod.State.Key.Identity.{HasKey, load-HasKey}
use egdod.State.Dir.{
  StateDir, key_path, DirError, Held, EnsureCalls, ensure_root, with_disk, then_key, init_key,
  load_key,
}

HasKey-load_key :
    (c : KeyCalls) (s : StateDir) (k : Bytes) (d : Disk)
    → c.readable ≡ true
    → HasKey (key_path s) k d
    → load_key c s d ≡ ok k
unfolding load_key read_key
HasKey-load_key c s k d can (f, here, content, whole) =
    rw (load_key, read_key, here, can, content, whole) refl

with_disk-eq-ok :
    (h : Held) (x : Disk × Result KeyError Bytes) (k : Bytes)
    → (with_disk h x).1 ≡ ok k
    → (x.1 ≡ ok k) × ((with_disk h x).0 ≡ record h { disk = x.0 })
with_disk-eq-ok h (d, ok k') k e = (cc e, refl)
with_disk-eq-ok h (d, err e') k e = cc

then_key-eq-ok :
    (x : Held × Result DirError (Unit {0})) (next : Held → Held × Result DirError Bytes) (k : Bytes)
    → (then_key x next).1 ≡ ok k
    → (x.1 ≡ ok tt) × (then_key x next ≡ next x.0)
then_key-eq-ok (h, ok u) next k e = (refl, refl)
then_key-eq-ok (h, err e') next k e = cc

ensure_root-eq-ok :
    (c : EnsureCalls) (h : Held)
    → (ensure_root c h).1 ≡ ok tt
    → (ensure_root c h).0 ≡ record h { root_mode = some 0o700 }
unfolding ensure_root
ensure_root-eq-ok c h e = elim (Bool-cases c.mkdir_ok) [
  | inr m ↦ absurd (ground (arith, m))
  | inl m ↦ elim (Bool-cases c.chmod_ok) [
    | inr r ↦ absurd (ground (arith, m, r))
    | inl r ↦ rw (ensure_root, m, r) refl
  ]
]

-- After an `init` that printed a node id, the state directory is its owner's alone, and a `serve`
-- that can read the key file loads the very key that `init` returned. Random keys are 32 bytes.
load_key-init_key :
    (e : EnsureCalls) (c c' : KeyCalls) (pid : Bytes) (s : StateDir) (h : Held) (k : Bytes)
    → ((b : Bytes) → c.random ≡ some b → length b ≡ 32)
    → c'.readable ≡ true
    → (init_key e c pid s h).1 ≡ ok k
    → (load_key c' s (init_key e c pid s h).0.disk ≡ ok k)
      × ((init_key e c pid s h).0.root_mode ≡ some 0o700)
unfolding init_key
load_key-init_key e c c' pid s h k long can done =
    let next : Held → Held × Result DirError Bytes =
      λ h'. with_disk h' (load_or_create_key refuse c pid (key_path s) h'.disk) in
    let (root, goes) = then_key-eq-ok (ensure_root e h) next k done in
    let h' : Held = (ensure_root e h).0 in
    let created = load_or_create_key refuse c pid (key_path s) h'.disk in
    let (key, kept) = with_disk-eq-ok h' created k (rw goes at done) in
    let after : (init_key e c pid s h).0 ≡ record h' { disk = created.0 } =
      ap (λ (x : Held × Result DirError Bytes). x.0) goes ∙ kept in
    let has = load-HasKey refuse c pid (key_path s) _ k h'.disk refl long key in
    (
      rw after (HasKey-load_key c' s k created.0 can has),
      rw after (ap (λ (x : Held). x.root_mode) (ensure_root-eq-ok e h root)),
    )
