-- ===== src/Ssh/Session.antt =====
-- src/ssh.rs, the recipe as a whole: `ensure_local_key`, `install_authorized_key`, `session`, `run`
-- and `banner`. The target's file and known_hosts are the state; what each call meets is chosen from
-- outside.
pub mod Lossless
pub mod Connected
use egdod.Prelude.{
  ℕ, ◌≡◌, Option, none, some, Bool, true, false, not, List, [], ◌∷◌, ◌++◌, Bytes, codes, ◌==◌, ◌+◌,
  if◌then◌else◌, starts_with, take, Result, ok, err, ensure, or_fail, ◌>>=◌, ◌>>◌,
}
use egdod.State.Text.{trim_start, trim_end}
use egdod.Link.{Ipv4}
use egdod.Ssh.{key_blob, authorized_line, merge_authorized_keys}
use egdod.Ssh.Steps.{
  SshError, pulling, not_a_key, no_local_key, no_public_key, opening, creating, merging, pushing,
  writing, no_client, creating_scratch, keygen_failed, fetch_host_key, ensure_sshd, known_host,
}

-- The target's authorized_keys and the controller's known_hosts.
pub record Site : Type 0 where
  pub authorized_keys : Option Bytes
  pub known_hosts : Option Bytes

-- An acknowledgement of a push may get lost after the file has landed.
pub data Pushed : Type 0 where
  acknowledged not_landed lost_after : Pushed

pub record InstallCalls : Type 0 where
  pub pull_ok : Bool
  pub reopen_ok : Bool
  pub create_ok : Bool
  pub merge_ok : Bool
  pub push : Pushed

-- What a push leaves of the target's file.
abbrev pub push_onto : Pushed → Bytes → Site → Site × Result SshError (Unit {0})
push_onto acknowledged merged s = (record s { authorized_keys = some merged }, ok tt)
push_onto not_landed merged s = (s, err pushing)
push_onto lost_after merged s = (record s { authorized_keys = some merged }, err pushing)

-- Up to the push. A target without the file starts with none; a pulled one is opened again.
unfoldable pub stage : InstallCalls → Bytes → Bytes → Option Bytes → Result SshError Bytes
stage c blob line existing = do
  ensure c.pull_ok pulling
  ensure (elim existing [ none ↦ true | some b ↦ c.reopen_ok ]) opening
  ensure c.create_ok creating
  ensure c.merge_ok merging
  ok (merge_authorized_keys existing blob line)

abbrev pub push_staged : Pushed → Result SshError Bytes → Site → Site × Result SshError (Unit {0})
push_staged p (err e) s = (s, err e)
push_staged p (ok merged) s = push_onto p merged s

unfoldable pub install_authorized_key :
    InstallCalls → Bytes → Bytes → Site → Site × Result SshError (Unit {0})
unfolding stage
install_authorized_key c blob line s = push_staged c.push (stage c blob line s.authorized_keys) s

-- `ssh-keygen` runs only without a key.
unfoldable pub ensure_local_key : Bool → Result SshError Bool → Result SshError (Unit {0})
ensure_local_key true keygen = ok tt
ensure_local_key false (err e) = err e
ensure_local_key false (ok success) = ensure success keygen_failed

-- What an sshd says when it is connected to; `none` is a connection, or a read, that fails or takes
-- three seconds.
unfoldable pub banner : Option Bytes → Option Bytes
banner none = none
banner (some said) =
    let text = trim_end (trim_start (take 64 said)) in
    if starts_with text (codes "SSH-") then some text else none

abbrev pub answers : Option Bytes → Bool
answers said = elim (banner said) [ none ↦ false | some text ↦ true ]

abbrev pub all_answers : List (Option Bytes) → List Bool
all_answers [] = []
all_answers (b ∷ bs) = answers b ∷ all_answers bs

pub record Config : Type 0 where
  pub key_options : Bytes
  pub key_ttl : ℕ

-- What a session meets, in the order of its steps.
pub record Meets : Type 0 where
  pub key_exists : Bool
  pub keygen : Result SshError Bool
  pub public_key : Option Bytes
  pub now : ℕ
  pub install : InstallCalls
  pub before : Result SshError (Option Bytes)
  pub host_keygen : Result SshError ℕ
  pub after : Result SshError (Option Bytes)
  pub forward : Result SshError (Ipv4 × ℕ)
  pub first_banner : Option Bytes
  pub start : Result SshError ℕ
  pub banners : List (Option Bytes)
  pub entry_ok : Bool
  pub partial : ℕ
  pub client : Result SshError (Option ℕ)

-- The key's blob and the line for it.
unfoldable pub prepare : Config → Meets → Result SshError (Bytes × Bytes)
unfolding ensure_local_key
prepare cfg m = do
  u ← ensure_local_key m.key_exists m.keygen
  read ← or_fail m.public_key no_public_key
  let pubkey_line = trim_end (trim_start read)
  blob ← or_fail (key_blob pubkey_line) not_a_key
  ok (blob, authorized_line cfg.key_options (m.now + cfg.key_ttl) pubkey_line)

abbrev pub status_code : Option ℕ → ℕ
status_code (some n) = n
status_code none = 255

abbrev pub with_ok {ℓ} :
    {A : Type ℓ}
    → Result SshError A
    → Site
    → (A → Site × Result SshError ℕ)
    → Site × Result SshError ℕ
with_ok (err e) s next = (s, err e)
with_ok (ok a) s next = next a

abbrev pub then_ok :
    Site × Result SshError (Unit {0}) → (Site → Site × Result SshError ℕ) → Site × Result SshError ℕ
then_ok (s, err e) next = (s, err e)
then_ok (s, ok u) next = next s

-- The entry of known_hosts, and ssh.
unfoldable pub connect : Meets → Bytes → Ipv4 × ℕ → Site → Site × Result SshError ℕ
connect m host (ip, port) s =
    let entry = known_host ip port host in
    if m.entry_ok
    then with_ok m.client (record s { known_hosts = some entry })
        (λ code. (record s { known_hosts = some entry }, ok (status_code code)))
    else (record s { known_hosts = some (take m.partial entry) }, err writing)

-- After the key is installed.
unfoldable pub go_on : Meets → Site → Site × Result SshError ℕ
unfolding connect
go_on m s = with_ok (fetch_host_key m.before m.host_keygen m.after) s (λ host.
    with_ok m.forward s (λ bound.
      with_ok (ensure_sshd (answers m.first_banner) m.start (all_answers m.banners)) s
        (λ up. connect m host bound s)))

unfoldable pub session : Config → Meets → Site → Site × Result SshError ℕ
unfolding prepare install_authorized_key go_on
session cfg m s =
    with_ok (prepare cfg m) s
      (λ key. then_ok (install_authorized_key m.install key.0 key.1 s) (go_on m))

-- `run`: whether the scratch directory is there afterwards. Its removal may fail unnoticed.
unfoldable pub run : Bool → Bool → Config → Meets → Site → Bool × (Site × Result SshError ℕ)
unfolding session
run false removed cfg m s = (false, (s, err creating_scratch))
run true removed cfg m s = (not removed, session cfg m s)
