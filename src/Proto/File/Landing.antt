-- ===== src/Proto/File/Landing.antt =====
-- The receiver's promise: the destination appears whole and verified, or nothing changes but for a
-- staging file that may be left.
use egdod.Prelude.{
  false, ℕ, ◌≤◌, ◌<◌, ◌≡◌, ◌≢◌, ◌^◌, refl, sym, ap, ◌∙◌, [], Option, none, some, Bytes, length,
  Result, ok, err, arith, inl, inr, Bool-cases, ◌⊎◌, bytes_eq_iff,
}
use egdod.Disk.{try_remove-cases, FilePath, File, Disk, store, rename, rename-store}
use egdod.Proto.File.{
  part_path, cleaned, Os, Reader, Body, FileError, create_part_file, body_loop, body_start, verdict,
  land, receive, admit, recv_file_body, ensure_free_space,
}
use egdod.Proto.File.Taken.{part_path-ne, create_part_file-fresh, delivered, body_loop-Took}

-- A staging name of a destination.
abbrev pub IsPart : FilePath → FilePath → Type 0
IsPart dest q = (base : Bytes) × (n : Bytes) × (dest.name ≡ some base) × (q ≡ part_path dest base n)

-- A file as it was, or a staging file that could not be removed.
abbrev pub IsSpared : Os → FilePath → Disk → Disk → FilePath → Type 0
IsSpared os dest d d' q =
    (d' q ≡ d q) ⊎ ((os.remove_ok ≡ false) × (d q ≡ none) × IsPart dest q × (q ≢ dest))

cleaned-IsSpared :
    (os : Os) (dest tmp q : FilePath) (f : File) (d : Disk)
    → IsPart dest tmp
    → d tmp ≡ none
    → IsSpared os dest d
        (cleaned os tmp
          (store (store d tmp (some (record { content = []; mode = 0o600 }))) tmp (some f)))
        q
cleaned-IsSpared os dest tmp q f d (base, n, named, part) free =
    let empty : Option File = some (record { content = []; mode = 0o600 }) in
    elim (try_remove-cases os.remove_ok d tmp q empty (some f) free) [
      | inl same ↦ inl same
      | inr (stays, at) ↦ inr (
        stays,
        ap d at ∙ free,
        (base, n, named, at ∙ part),
        λ e. part_path-ne dest base n named (sym part ∙ sym at ∙ e),
      )
    ]

module _ (sha256 : Bytes → Bytes) where
  verdict-eq-ok :
      (os : Os) (len : ℕ) (digest : Bytes) (x : Body × Option FileError) (u : Unit {0})
      → verdict sha256 os len digest x ≡ ok u
      → (x.1 ≡ none) × (x.0.got ≡ len) × (sha256 x.0.fed ≡ digest)
  unfolding verdict
  verdict-eq-ok os len digest (b, some e) u h = cc
  verdict-eq-ok os len digest (b, none) u h =
      (refl, ground arith, ground (arith, bytes_eq_iff (sha256 b.fed) digest))

  Verdict-cases : (r : Result FileError (Unit {0})) → ((e : FileError) × (r ≡ err e)) ⊎ (r ≡ ok tt)
  Verdict-cases (err e) = inl (e, refl)
  Verdict-cases (ok tt) = inr refl

  module _ (os : Os) (tmp dest : FilePath) (len : ℕ) (digest : Bytes) (mode : ℕ) (d : Disk) where
    -- A failed landing tries to remove the staging file; a successful one passed every check.
    land-eq-err :
        (x : Body × Option FileError) (e : FileError)
        → (land sha256 os tmp dest len digest mode d x).1 ≡ err e
        → (f : File) × ((land sha256 os tmp dest len digest mode d x).0
            ≡ cleaned os tmp (store d tmp (some f)))
    unfolding land
    land-eq-err x e h = elim (Verdict-cases (verdict sha256 os len digest x)) [
      | inl (e', bad) ↦ (record { content = x.0.landed; mode = 0o600 }, rw (bad, land))
      | inr good ↦ elim (Bool-cases os.set_mode_ok) [
        | inr no_mode ↦ (record { content = x.0.landed; mode = 0o600 }, rw (good, no_mode, land))
        | inl has_mode ↦ elim (Bool-cases os.rename_ok) [
          | inr stays ↦
              (record { content = x.0.landed; mode = mode }, rw (good, has_mode, stays, land))
          | inl moves ↦ absurd (ground (arith, good, has_mode, moves))
        ]
      ]
    ]

    land-eq-ok :
        (x : Body × Option FileError)
        → (land sha256 os tmp dest len digest mode d x).1 ≡ ok tt
        → (x.1 ≡ none)
          × (x.0.got ≡ len)
          × (sha256 x.0.fed ≡ digest)
          × ((land sha256 os tmp dest len digest mode d x).0
              ≡ rename (store d tmp (some (record { content = x.0.landed; mode = mode }))) tmp dest)
    unfolding land
    land-eq-ok x h = elim (Verdict-cases (verdict sha256 os len digest x)) [
      | inl (e', bad) ↦ absurd (ground (arith, bad))
      | inr good ↦
          let (done, count, hash) = verdict-eq-ok os len digest x tt good in
          (done, count, hash, ground (arith, good))
    ]

Made-cases :
    (r : Result FileError (FilePath × Disk))
    → ((e : FileError) × (r ≡ err e)) ⊎ ((tmp : FilePath) × (d : Disk) × (r ≡ ok (tmp, d)))
Made-cases (err e) = inl (e, refl)
Made-cases (ok (tmp, d)) = inr (tmp, d, refl)

Admit-cases :
    (r : Result FileError Bytes)
    → ((e : FileError) × (r ≡ err e)) ⊎ ((base : Bytes) × (r ≡ ok base))
Admit-cases (err e) = inl (e, refl)
Admit-cases (ok base) = inr (base, refl)

admit-eq-ok :
    (os : Os) (dest : FilePath) (len max : ℕ) (base : Bytes)
    → admit os dest len max ≡ ok base
    → (len ≤ max) × (dest.name ≡ some base)
unfolding admit ensure_free_space
admit-eq-ok os dest len max base h = (ground arith, ground arith)

module _ (sha256 : Bytes → Bytes) (os : Os) (r : Reader) (dest : FilePath) (len : ℕ)
    (digest : Bytes) (mode max : ℕ) (d : Disk) where
  abbrev read_all : Body × Option FileError
  read_all = body_loop len os.disk_room r.ending r.chunks body_start

  abbrev Refuses : Type 0
  Refuses = (e : FileError) × (recv_file_body sha256 os r dest len digest mode max d ≡ (d, err e))

  abbrev empty_part : Option File
  empty_part = some (record { content = []; mode = 0o600 })

  -- The staging file stood on a free path, and the rest is `land`.
  record Lands (tmp : FilePath) : Type 0 where
    below : len ≤ max
    free : d tmp ≡ none
    part : IsPart dest tmp
    beside : tmp ≢ dest
    runs :
        recv_file_body sha256 os r dest len digest mode max d
        ≡ land sha256 os tmp dest len digest mode (store d tmp empty_part) read_all

  recv_file_body-cases : Refuses ⊎ ((tmp : FilePath) × Lands tmp)
  unfolding recv_file_body receive
  recv_file_body-cases = elim (Admit-cases (admit os dest len max)) [
    | inl (e, refused) ↦ inl (e, rw (refused, recv_file_body))
    | inr (base, fine) ↦ elim (Made-cases (create_part_file os dest base 8 0 d)) [
      | inl (e, none_made) ↦ inl (e, rw (fine, recv_file_body, none_made, receive))
      | inr (tmp, d', made) ↦
          let (below, named) = admit-eq-ok os dest len max base fine in
          let (n, part, free, created) = create_part_file-fresh os dest base 8 0 d d' tmp made in
          inr (
            tmp,
            record {
              below = below;
              free = free;
              part = (base, n, named, part);
              beside = λ e. part_path-ne dest base n named (sym part ∙ e);
              runs = rw (fine, recv_file_body, made, receive, created);
            },
          )
    ]
  ]

  -- A transfer that fails, for whatever reason and at whatever point, leaves each file of the disk as
  -- it was, the destination among them. The one exception is a staging file whose removal failed:
  -- its path was free, and it stands beside the destination under a staging name.
  pub recv_file_body-eq-err :
      (e : FileError) (q : FilePath)
      → (recv_file_body sha256 os r dest len digest mode max d).1 ≡ err e
      → IsSpared os dest d (recv_file_body sha256 os r dest len digest mode max d).0 q
  recv_file_body-eq-err e q h = elim recv_file_body-cases [
    | inl (e', refused) ↦ inl (rw refused)
    | inr (tmp, v) ↦
        let (f, undone) =
          land-eq-err sha256 os tmp dest len digest mode (store d tmp empty_part) read_all e
            (rw v.runs at h) in
        rw (v.runs, undone) (cleaned-IsSpared os dest tmp q f d v.part v.free)
  ]

  -- A transfer that succeeds puts exactly the bytes delivered at the destination, under the mode
  -- given; they are as many as announced and have the digest announced, the announced length is
  -- within the ceiling, and no other file changed. The disk takes less than 2 ^ 64 bytes.
  pub recv_file_body-eq-ok :
      os.disk_room < 2 ^ 64
      → (recv_file_body sha256 os r dest len digest mode max d).1 ≡ ok tt
      → let d' = (recv_file_body sha256 os r dest len digest mode max d).0 in
        let content = delivered r.chunks in
        ((q : FilePath) → d' q ≡ store d dest (some (record { content = content; mode = mode })) q)
        × (length content ≡ len)
        × (sha256 content ≡ digest)
        × (len ≤ max)
  recv_file_body-eq-ok room h = elim recv_file_body-cases [
    | inl (e', refused) ↦ absurd (ground (arith, refused))
    | inr (tmp, v) ↦
        let (done, count, hash, landed) =
          land-eq-ok sha256 os tmp dest len digest mode (store d tmp empty_part) read_all
            (rw v.runs at h) in
        let took =
          body_loop-Took len os.disk_room r.ending r.chunks body_start done
            (record { same = refl; fits = omega arith; counted = refl }) in
        rw (v.runs, landed, ← took.all_fed)
          (
            (λ q.
                rename-store d tmp dest q empty_part _ v.beside v.free
                ∙ ap (λ (b : Bytes). store d dest (some (record { content = b; mode = mode })) q)
                    took.all_landed),
            omega (arith, count, took.counted, took.fits, ap length took.all_landed),
            hash,
            v.below,
          )
  ]
