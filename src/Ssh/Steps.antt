-- ===== src/Ssh/Steps.antt =====
-- src/ssh.rs, the steps that ask the target: `fetch_host_key`, `read_host_key` and `ensure_sshd`, and
-- the entry of known_hosts. What each pull, command and connection gives is chosen from outside.
use egdod.Prelude.{
  ℕ, zero, suc, ◌≡◌, refl, Option, none, some, Bool, true, false, ◌&&◌, ◌||◌, List, [], ◌∷◌, ◌++◌,
  Bytes, codes, ◌==◌, if◌then◌else◌, take, any_of, Result, ok, err, is_ok, Bool-cases, inl, inr,
}
use egdod.State.Text.{first_field}
use egdod.Link.{decimal, digits, Ipv4, show_ipv4}
use egdod.Ssh.{pieces, key_blob, non_empty}

pub data SshError : Type 0 where
  pulling running : SshError
  not_a_key keygen_failed still_absent sshd_failed never_answered : SshError
  no_local_key no_public_key opening creating merging pushing forwarding writing no_client :
      SshError
  creating_scratch : SshError

abbrev pub first_line : Bytes → Bytes
first_line s = elim (pieces s) [ [] ↦ [] | l ∷ ls ↦ l ]

-- The key of a pulled file: the first two fields of its first line. The comment is dropped.
unfoldable pub host_key : Bytes → Result SshError Bytes
unfolding first_field key_blob
host_key s = elim (non_empty (first_field (first_line s))) [
  | none ↦ err not_a_key
  | some kind ↦ elim (key_blob (first_line s)) [
    | none ↦ err not_a_key
    | some blob ↦ ok (kind ++ (32 ∷ blob))
  ]
]

-- A file that is not there is no key; any other failure of the pull is an error.
unfoldable pub read_host_key : Result SshError (Option Bytes) → Result SshError (Option Bytes)
unfolding host_key
read_host_key (err e) = err e
read_host_key (ok none) = ok none
read_host_key (ok (some s)) = elim (host_key s) [ err e ↦ err e | ok k ↦ ok (some k) ]

-- `before` and `after` are the two pulls, and `keygen` the exit status of the command in between.
unfoldable pub generate_key :
    Result SshError ℕ → Result SshError (Option Bytes) → Result SshError Bytes
unfolding read_host_key
generate_key (err e) after = err e
generate_key (ok code) after =
    if code == 0
    then elim (read_host_key after) [
      | err e ↦ err e
      | ok none ↦ err still_absent
      | ok (some k) ↦ ok k
    ]
    else err keygen_failed

unfoldable pub fetch_host_key :
    Result SshError (Option Bytes)
    → Result SshError ℕ
    → Result SshError (Option Bytes)
    → Result SshError Bytes
unfolding read_host_key generate_key
fetch_host_key before keygen after = elim (read_host_key before) [
  | err e ↦ err e
  | ok (some k) ↦ ok k
  | ok none ↦ generate_key keygen after
]

-- The banners of up to twenty connections after sshd was started.
unfoldable pub await_banner : ℕ → List Bool → Result SshError (Unit {0})
await_banner zero bs = err never_answered
await_banner (suc left) [] = err never_answered
await_banner (suc left) (b ∷ bs) = let again = await_banner left bs in if b then ok tt else again

unfoldable pub ensure_sshd : Bool → Result SshError ℕ → List Bool → Result SshError (Unit {0})
unfolding await_banner
ensure_sshd answers start banners = if answers then ok tt else elim start [
  | err e ↦ err e
  | ok code ↦ if code == 0 then await_banner 20 banners else err sshd_failed
]

-- Port 22 is written bare.
unfoldable pub known_host : Ipv4 → ℕ → Bytes → Bytes
unfolding show_ipv4 digits
known_host ip port key =
    (if port == 22
      then show_ipv4 ip
      else codes "[" ++ (show_ipv4 ip ++ (codes "]:" ++ decimal port)))
    ++ (32 ∷ (key ++ (10 ∷ [])))

abbrev pub started : Result SshError ℕ → Bool
started (ok code) = code == 0
started (err e) = false

is_ok-await_banner :
    (left : ℕ) (bs : List Bool) → is_ok (await_banner left bs) ≡ any_of (λ b. b) (take left bs)
unfolding await_banner
is_ok-await_banner zero bs = refl
is_ok-await_banner (suc left) [] = refl
is_ok-await_banner (suc left) (true ∷ bs) = refl
is_ok-await_banner (suc left) (false ∷ bs) = is_ok-await_banner left bs

-- The step ends well exactly if an sshd answered: at once, or in one of twenty tries after it was
-- started with exit status 0.
is_ok-ensure_sshd :
    (answers : Bool) (start : Result SshError ℕ) (banners : List Bool)
    → is_ok (ensure_sshd answers start banners)
      ≡ (answers || (started start && any_of (λ b. b) (take 20 banners)))
unfolding ensure_sshd
is_ok-ensure_sshd true start banners = refl
is_ok-ensure_sshd false (err e) banners = refl
is_ok-ensure_sshd false (ok code) banners = elim (Bool-cases (code == 0)) [
  | inl e ↦ rw e (is_ok-await_banner 20 banners)
  | inr e ↦ rw e
]
