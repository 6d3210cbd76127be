-- ===== src/State/Key/Identity.antt =====
-- An identity that exists is never replaced where that is refused, and stays once it was created.
use egdod.Prelude.{
  ◌≡◌, ◌≢◌, refl, ap, ◌∙◌, Option, none, some, true, not, ◌++◌, Bytes, ◌==◌, codes, if◌then◌else◌,
  length, length-append, Result, ok, err, arith, inl, inr, ◌⊎◌, Bool-cases, Option-cases,
}
use egdod.Disk.{FilePath, File, Disk, rename, store_same, store_other}
use egdod.State.Key.{
  KeyError, OnUnusable, replace, refuse, KeyCalls, read_key, unique_tmp, private_file, fill_private,
  write_private, with_key, create_key, on_unusable, load_or_create_key, unreadable, not_32_bytes,
}

-- A key file that cannot be used stops a controller, and nothing is written.
load_or_create_key_refuse :
    (c : KeyCalls) (pid : Bytes) (path : FilePath) (d : Disk) (f : File)
    → d path ≡ some f
    → ((load_or_create_key refuse c pid path d).0 ≡ d)
      × ((load_or_create_key refuse c pid path d).1 ≡ (
          if not c.readable
          then err unreadable
          else if length f.content == 32
          then ok f.content
          else err not_32_bytes))
unfolding load_or_create_key read_key on_unusable
load_or_create_key_refuse c pid path d f here = ground (arith, here)

pub tmp-ne :
    (pid : Bytes) (path : FilePath) (n : Bytes) → path.name ≡ some n → unique_tmp pid path ≢ path
tmp-ne pid path n named e =
    let longer : n ++ (codes ".tmp." ++ pid) ≡ n = cc (e, named) in
    omega (arith, ap length longer, length-append n (codes ".tmp." ++ pid))

Made : FilePath → Bytes → Disk → Type 0
Made path k d = (f : File) × (d path ≡ some f) × (f.content ≡ k)

fill_private-made :
    (c : KeyCalls) (tmp path : FilePath) (k : Bytes) (d : Disk)
    → tmp ≢ path
    → (fill_private c tmp path k d).1 ≡ ok tt
    → (fill_private c tmp path k d).0 path ≡ private_file k
unfolding fill_private rename
fill_private-made c tmp path k d ne h = elim (Bool-cases c.write_ok) [
  | inr a ↦ absurd (ground (arith, a))
  | inl a ↦ elim (Bool-cases c.sync_ok) [
    | inr b ↦ absurd (ground (arith, a, b))
    | inl b ↦ elim (Bool-cases c.rename_ok) [
      | inr e ↦ absurd (ground (arith, a, b, e))
      | inl e ↦
          simp (a, b, e, fill_private)
            (store_other _ tmp path none ne
              ∙ store_same _ path _
              ∙ store_same d tmp (private_file k))
    ]
  ]
]

write_private-made :
    (c : KeyCalls) (pid : Bytes) (path : FilePath) (n k : Bytes) (d : Disk)
    → path.name ≡ some n
    → (write_private c pid path k d).1 ≡ ok tt
    → (write_private c pid path k d).0 path ≡ private_file k
unfolding write_private
write_private-made c pid path n k d named h = elim (Option-cases (d (unique_tmp pid path))) [
  | inr (f, e) ↦ absurd (ground (arith, e))
  | inl e ↦ elim (Bool-cases c.open_ok) [
    | inr o ↦ absurd (ground (arith, e, o))
    | inl o ↦
        rw (e, write_private)
          (simp o (
            fill_private-made c (unique_tmp pid path) path k d (tmp-ne pid path n named)
              (ground (arith, e, o))))
  ]
]

with_key-eq-ok :
    (k k' : Bytes) (x : Disk × Result KeyError (Unit {0}))
    → (with_key k x).1 ≡ ok k'
    → (x.1 ≡ ok tt) × (k ≡ k') × ((with_key k x).0 ≡ x.0)
with_key-eq-ok k k' (d, ok tt) h = (refl, cc, refl)
with_key-eq-ok k k' (d, err e) h = cc

pub create_key-made :
    (c : KeyCalls) (pid : Bytes) (path : FilePath) (n k : Bytes) (d : Disk)
    → path.name ≡ some n
    → (create_key c pid path d).1 ≡ ok k
    → ((create_key c pid path d).0 path ≡ private_file k) × (c.random ≡ some k)
unfolding create_key
create_key-made c pid path n k d named h = elim (Option-cases c.random) [
  | inl e ↦ absurd (ground (arith, e))
  | inr (b, e) ↦ elim (Bool-cases c.dir_ok) [
    | inr o ↦ absurd (ground (arith, e, o))
    | inl o ↦
        let x = write_private c pid path b d in
        let whole : create_key c pid path d ≡ with_key b x = simp (e, create_key, o) refl in
        let (done, same, disk) = with_key-eq-ok b k x (rw whole at h) in
        (
          rw (whole, disk) (write_private-made c pid path n b d named done ∙ ap private_file same),
          e ∙ ap some same,
        )
  ]
]

-- A file of 32 bytes that can be read is the key, under either policy.
pub load_or_create_key_found :
    (policy : OnUnusable) (c : KeyCalls) (pid : Bytes) (path : FilePath) (d : Disk) (f : File)
    → d path ≡ some f
    → length f.content ≡ 32
    → c.readable ≡ true
    → load_or_create_key policy c pid path d ≡ (d, ok f.content)
unfolding load_or_create_key read_key
load_or_create_key_found policy c pid path d f here long can_read =
    ground (arith, here, long, can_read)

pub Key-cases :
    (r : Result KeyError (Option Bytes))
    → ((e : KeyError) × (r ≡ err e)) ⊎ ((r ≡ ok none) ⊎ ((k : Bytes) × (r ≡ ok (some k))))
Key-cases (err e) = inl (e, refl)
Key-cases (ok none) = inr (inl refl)
Key-cases (ok (some k)) = inr (inr (k, refl))

read_key-eq-some :
    (c : KeyCalls) (path : FilePath) (d : Disk) (k : Bytes)
    → read_key c path d ≡ ok (some k)
    → (f : File) × (d path ≡ some f) × (f.content ≡ k) × (length k ≡ 32)
unfolding read_key
read_key-eq-some c path d k h = elim (Option-cases (d path)) [
  | inl e ↦ absurd (ground (arith, e))
  | inr (f, e) ↦ (f, e, ground (arith, e), ground (arith, e))
]

-- The disk holds the key, whole.
abbrev pub HasKey : FilePath → Bytes → Disk → Type 0
HasKey path k d = (f : File) × (d path ≡ some f) × (f.content ≡ k) × (length k ≡ 32)

pub load-HasKey :
    (policy : OnUnusable) (c : KeyCalls) (pid : Bytes) (path : FilePath) (n k : Bytes) (d : Disk)
    → path.name ≡ some n
    → ((b : Bytes) → c.random ≡ some b → length b ≡ 32)
    → (load_or_create_key policy c pid path d).1 ≡ ok k
    → HasKey path k (load_or_create_key policy c pid path d).0
unfolding load_or_create_key
load-HasKey policy c pid path n k d named long h = elim (Key-cases (read_key c path d)) [
  | inl (e, bad) ↦
      rw (bad, load_or_create_key) (unusable policy e (rw (bad, load_or_create_key) at h))
  | inr (inl nothing) ↦
      rw (nothing, load_or_create_key) (made (rw (nothing, load_or_create_key) at h))
  | inr (inr (k', found)) ↦
      let (f, here, content, whole) = read_key-eq-some c path d k' found in
      let same : k' ≡ k = ground (arith, found) in
      rw (found, load_or_create_key) (f, here, content ∙ same, rw (← same) whole)
]
  where
    made : (create_key c pid path d).1 ≡ ok k → HasKey path k (create_key c pid path d).0
    made done =
        let (here, drawn) = create_key-made c pid path n k d named done in
        (record { content = k; mode = 0o600 }, here, refl, long k drawn)

    refused : (e : KeyError) → (on_unusable refuse e d (create_key c pid path d)).1 ≢ ok k
    refused e done = unfold on_unusable in cc done

    unusable :
        (policy : OnUnusable) (e : KeyError)
        → (on_unusable policy e d (create_key c pid path d)).1 ≡ ok k
        → HasKey path k (on_unusable policy e d (create_key c pid path d)).0
    unusable replace e done = unfold on_unusable in made done
    unusable refuse e done = absurd (refused e done)

-- An identity lasts: once a call returned a key, found or created, every later call that can read
-- the file returns the same key and writes nothing, in any process and under either policy. Random
-- keys are 32 bytes.
pub load_or_create_key_stable :
    (policy policy' : OnUnusable) (c c' : KeyCalls) (pid pid' : Bytes) (path : FilePath)
    (n k : Bytes) (d : Disk)
    → path.name ≡ some n
    → ((b : Bytes) → c.random ≡ some b → length b ≡ 32)
    → c'.readable ≡ true
    → (load_or_create_key policy c pid path d).1 ≡ ok k
    → load_or_create_key policy' c' pid' path (load_or_create_key policy c pid path d).0
      ≡ ((load_or_create_key policy c pid path d).0, ok k)
load_or_create_key_stable policy policy' c c' pid pid' path n k d named long can_read h =
    let d' : Disk = (load_or_create_key policy c pid path d).0 in
    let (f, here, content, whole) = load-HasKey policy c pid path n k d named long h in
    load_or_create_key_found policy' c' pid' path d' f here (ap length content ∙ whole) can_read
    ∙ ap (λ (b : Bytes). (d', ok b)) content
