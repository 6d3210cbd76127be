-- ===== src/State/Key/Leftover.antt =====
-- A failed write of a key leaves its staging file, and that stops every later try of the process.
use egdod.Prelude.{
  List, [], ◌∷◌, ap, ◌≡◌, ◌≢◌, refl, sym, ◌∙◌, none, some, false, Bytes, Result, ok, err, is_ok,
  arith, inl, inr, Bool-cases, Option-cases,
}
use mathlib.Core.Path.{subst}
use egdod.State.Key.Identity.{tmp-ne}
use egdod.Disk.{FilePath, File, Disk, store_same, store_other}
use egdod.State.Key.{
  KeyError, OnUnusable, KeyCalls, read_key, unique_tmp, fill_private, write_private, with_key,
  create_key, load_or_create_key, creating, writing, flushing, renaming, no_randomness,
  creating_dir,
}

-- A write that went wrong after the staging file was created.
abbrev pub IsPartWay : KeyError → Type 0
IsPartWay writing = Unit {0}
IsPartWay flushing = Unit {0}
IsPartWay renaming = Unit {0}
IsPartWay _ = ⊥

abbrev Blocked : Bytes → FilePath → Disk → Type 0
Blocked pid path d = (f : File) × (d (unique_tmp pid path) ≡ some f)

fill_private-leaves :
    (c : KeyCalls) (tmp path : FilePath) (k : Bytes) (d : Disk) (e : KeyError)
    → (fill_private c tmp path k d).1 ≡ err e
    → ((f : File) × ((fill_private c tmp path k d).0 tmp ≡ some f))
      × ((q : FilePath) → q ≢ tmp → (fill_private c tmp path k d).0 q ≡ d q)
unfolding fill_private
fill_private-leaves c tmp path k d e h = elim (Bool-cases c.write_ok) [
  | inr a ↦
      simp (a, fill_private)
        ((_, store_same d tmp _), (λ q ne. store_other d tmp q _ (λ s. ne (sym s))))
  | inl a ↦ elim (Bool-cases c.sync_ok) [
    | inr b ↦
        simp (a, b, fill_private)
          ((_, store_same d tmp _), (λ q ne. store_other d tmp q _ (λ s. ne (sym s))))
    | inl b ↦ elim (Bool-cases c.rename_ok) [
      | inr r ↦
          simp (a, b, r, fill_private)
            ((_, store_same d tmp _), (λ q ne. store_other d tmp q _ (λ s. ne (sym s))))
      | inl r ↦ absurd (ground (arith, a, b, r))
    ]
  ]
]

write_private-Blocked :
    (c : KeyCalls) (pid : Bytes) (path : FilePath) (k : Bytes) (d : Disk)
    → Blocked pid path d
    → write_private c pid path k d ≡ (d, err creating)
unfolding write_private
write_private-Blocked c pid path k d (f, e) = ground (arith, e)

-- Where the staging file of this process is left over, no key can be created: every call fails
-- unless the key file itself can be used.
pub create_key_blocked :
    (c : KeyCalls) (pid : Bytes) (path : FilePath) (d : Disk) (f : File)
    → d (unique_tmp pid path) ≡ some f
    → is_ok (create_key c pid path d).1 ≡ false
unfolding create_key
create_key_blocked c pid path d f e = elim (Option-cases c.random) [
  | inl r ↦ ground (arith, r)
  | inr (b, r) ↦ ground (arith, r, write_private-Blocked c pid path b d (f, e))
]

write_private-leaves :
    (c : KeyCalls) (pid : Bytes) (path : FilePath) (k : Bytes) (d : Disk) (e : KeyError)
    → IsPartWay e
    → (write_private c pid path k d).1 ≡ err e
    → Blocked pid path (write_private c pid path k d).0
unfolding write_private
write_private-leaves c pid path k d e part h = elim (Option-cases (d (unique_tmp pid path))) [
  | inr (f, taken) ↦ ground (arith, taken)
  | inl free ↦ elim (Bool-cases c.open_ok) [
    | inr o ↦ let s : e ≡ creating = ground (arith, free, o) in absurd (subst IsPartWay s part)
    | inl o ↦
        simp (free, write_private, o)
          (fill_private-leaves c (unique_tmp pid path) path k d e (ground (arith, free, o))).0
  ]
]

write_private-path :
    (c : KeyCalls) (pid : Bytes) (path : FilePath) (k : Bytes) (d : Disk) (e : KeyError)
    → path ≢ unique_tmp pid path
    → (write_private c pid path k d).1 ≡ err e
    → (write_private c pid path k d).0 path ≡ d path
unfolding write_private
write_private-path c pid path k d e ne h = elim (Option-cases (d (unique_tmp pid path))) [
  | inr (f, taken) ↦ ground (arith, taken)
  | inl free ↦ elim (Bool-cases c.open_ok) [
    | inr o ↦ ground (arith, free, o)
    | inl o ↦
        simp (free, write_private, o)
          ((fill_private-leaves c (unique_tmp pid path) path k d e (ground (arith, free, o))).1 path
            ne)
  ]
]

with_key-eq-err :
    (k : Bytes) (e : KeyError) (x : Disk × Result KeyError (Unit {0}))
    → (with_key k x).1 ≡ err e
    → (x.1 ≡ err e) × ((with_key k x).0 ≡ x.0)
with_key-eq-err k e (d, ok tt) h = cc
with_key-eq-err k e (d, err e') h = (cc, refl)

create_key-leaves :
    (c : KeyCalls) (pid : Bytes) (path : FilePath) (d : Disk) (e : KeyError)
    → path ≢ unique_tmp pid path
    → IsPartWay e
    → (create_key c pid path d).1 ≡ err e
    → Blocked pid path (create_key c pid path d).0 × ((create_key c pid path d).0 path ≡ d path)
unfolding create_key
create_key-leaves c pid path d e ne part h = elim (Option-cases c.random) [
  | inl r ↦ absurd (subst IsPartWay (no_random r) part)
  | inr (b, r) ↦ elim (Bool-cases c.dir_ok) [
    | inr o ↦ absurd (subst IsPartWay (no_dir b r o) part)
    | inl o ↦
        let x : Disk × Result KeyError (Unit {0}) = write_private c pid path b d in
        let whole : create_key c pid path d ≡ with_key b x = simp (r, create_key, o) refl in
        let (failed, same) = with_key-eq-err b e x (rw whole at h) in
        rw (whole, same)
          (
            write_private-leaves c pid path b d e part failed,
            write_private-path c pid path b d e ne failed,
          )
  ]
]
  where
    no_random : c.random ≡ none → e ≡ no_randomness
    no_random r = ground (arith, r)

    no_dir : (b : Bytes) → c.random ≡ some b → c.dir_ok ≡ false → e ≡ creating_dir
    no_dir b r o = ground (arith, r, o)

without_key :
    (policy : OnUnusable) (c : KeyCalls) (pid : Bytes) (path : FilePath) (d : Disk)
    → d path ≡ none
    → load_or_create_key policy c pid path d ≡ create_key c pid path d
unfolding load_or_create_key read_key
without_key policy c pid path d nothing = ground (arith, nothing)

create_key-Blocked :
    (c : KeyCalls) (pid : Bytes) (path : FilePath) (d : Disk)
    → Blocked pid path d
    → (create_key c pid path d).0 ≡ d
unfolding create_key
create_key-Blocked c pid path d blocked = elim (Option-cases c.random) [
  | inl r ↦ ground (arith, r)
  | inr (b, r) ↦ ground (arith, r, write_private-Blocked c pid path b d blocked)
]

-- The disk after some more tries of the process, each with its policy and what the system answers.
abbrev pub tried_again : Bytes → FilePath → List (OnUnusable × KeyCalls) → Disk → Disk
tried_again pid path [] d = d
tried_again pid path ((policy, c) ∷ more) d =
    tried_again pid path more (load_or_create_key policy c pid path d).0

tried_again_same :
    (pid : Bytes) (path : FilePath) (tries : List (OnUnusable × KeyCalls)) (d : Disk)
    → Blocked pid path d
    → d path ≡ none
    → tried_again pid path tries d ≡ d
tried_again_same pid path [] d blocked nothing = refl
tried_again_same pid path ((policy, c) ∷ more) d blocked nothing =
    let same : (load_or_create_key policy c pid path d).0 ≡ d =
      ap (λ (x : Disk × Result KeyError Bytes). x.0) (without_key policy c pid path d nothing)
      ∙ create_key-Blocked c pid path d blocked in
    ap (tried_again pid path more) same ∙ tried_again_same pid path more d blocked nothing

-- Where there is no key yet and a first try fails while it writes, flushes or renames the new key,
-- every later try of the same process fails too, after any number of others in between, whatever the
-- system answers and under either policy: the staging file is in the way, and no try removes it.
pub load_or_create_key_retry :
    (policy policy' : OnUnusable) (c c' : KeyCalls) (tries : List (OnUnusable × KeyCalls))
    (pid : Bytes) (path : FilePath) (n : Bytes) (d : Disk) (e : KeyError)
    → path.name ≡ some n
    → d path ≡ none
    → IsPartWay e
    → (load_or_create_key policy c pid path d).1 ≡ err e
    → is_ok
        (load_or_create_key policy' c' pid path
          (tried_again pid path tries (load_or_create_key policy c pid path d).0)).1
      ≡ false
load_or_create_key_retry policy policy' c c' tries pid path n d e named nothing part h =
    let first = without_key policy c pid path d nothing in
    let (blocked, same) =
      create_key-leaves c pid path d e (λ s. tmp-ne pid path n named (sym s)) part
        (rw first at h) in
    let none_there = same ∙ nothing in
    rw
      (
        first,
        tried_again_same pid path tries _ blocked none_there,
        without_key policy' c' pid path _ none_there,
      )
      (create_key_blocked c' pid path _ blocked.0 blocked.1)
