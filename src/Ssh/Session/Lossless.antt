-- ===== src/Ssh/Session/Lossless.antt =====
-- What a session leaves on the target.
use egdod.Prelude.{
  ℕ, ◌≡◌, ◌⊎◌, inl, inr, refl, ap, Option, none, some, true, Bytes, Result, ok, err, ensure,
  >>-eq-ok, Bool-cases,
}
use egdod.Link.{Ipv4}
use egdod.Ssh.{merge_authorized_keys}
use egdod.Ssh.Steps.{
  SshError, pulling, opening, creating, merging, fetch_host_key, ensure_sshd, known_host,
}
use egdod.Ssh.Session.{
  Site, Pushed, acknowledged, not_landed, lost_after, InstallCalls, stage, push_staged,
  install_authorized_key, Config, Meets, prepare, answers, all_answers, with_ok, then_ok, connect,
  go_on, session,
}

-- The file is as it was, or it is the merge of what it was.
abbrev pub IsMerged : Bytes → Bytes → Option Bytes → Option Bytes → Type 0
IsMerged blob line before after =
    (after ≡ before) ⊎ (after ≡ some (merge_authorized_keys before blob line))

stage-eq-ok :
    (c : InstallCalls) (blob line : Bytes) (existing : Option Bytes) (merged : Bytes)
    → stage c blob line existing ≡ ok merged
    → merged ≡ merge_authorized_keys existing blob line
unfolding stage
stage-eq-ok c blob line existing merged h =
    let h1 = >>-eq-ok (ensure c.pull_ok pulling) _ h in
    let h2 =
      >>-eq-ok (ensure (elim existing [ none ↦ true | some b ↦ c.reopen_ok ]) opening) _ h1 in
    let h3 = >>-eq-ok (ensure c.create_ok creating) _ h2 in
    let h4 = >>-eq-ok (ensure c.merge_ok merging) _ h3 in cc h4

push_staged-IsMerged :
    (p : Pushed) (r : Result SshError Bytes) (blob line : Bytes) (s : Site)
    → ((merged : Bytes)
        → r ≡ ok merged
        → merged ≡ merge_authorized_keys s.authorized_keys blob line)
    → IsMerged blob line s.authorized_keys (push_staged p r s).0.authorized_keys
      × ((push_staged p r s).1 ≡ ok tt
          → (push_staged p r s).0.authorized_keys
            ≡ some (merge_authorized_keys s.authorized_keys blob line))
push_staged-IsMerged p (err e) blob line s whole = (inl refl, λ bad. cc)
push_staged-IsMerged acknowledged (ok merged) blob line s whole =
    let same = ap (λ (b : Bytes). some b) (whole merged refl) in (inr same, λ well. same)
push_staged-IsMerged not_landed (ok merged) blob line s whole = (inl refl, λ bad. cc)
push_staged-IsMerged lost_after (ok merged) blob line s whole =
    (inr (ap (λ (b : Bytes). some b) (whole merged refl)), λ bad. cc)

pub install-IsMerged :
    (c : InstallCalls) (blob line : Bytes) (s : Site)
    → IsMerged blob line s.authorized_keys (install_authorized_key c blob line s).0.authorized_keys
      × ((install_authorized_key c blob line s).1 ≡ ok tt
          → (install_authorized_key c blob line s).0.authorized_keys
            ≡ some (merge_authorized_keys s.authorized_keys blob line))
unfolding install_authorized_key
install-IsMerged c blob line s =
    push_staged-IsMerged c.push (stage c blob line s.authorized_keys) blob line s
      (λ merged h. stage-eq-ok c blob line s.authorized_keys merged h)

-- A step that only goes on with the state as it is.
with_ok-keeps {ℓ} :
    {A : Type ℓ} (P : Option Bytes → Type 0) (r : Result SshError A) (s : Site)
    (next : A → Site × Result SshError ℕ)
    → P s.authorized_keys
    → ((a : A) → r ≡ ok a → P (next a).0.authorized_keys)
    → P (with_ok r s next).0.authorized_keys
with_ok-keeps P (err e) s next h more = h
with_ok-keeps P (ok a) s next h more = more a refl

then_ok-keeps :
    (P : Option Bytes → Type 0) (x : Site × Result SshError (Unit {0}))
    (next : Site → Site × Result SshError ℕ)
    → P x.0.authorized_keys
    → ((s : Site) → P s.authorized_keys → P (next s).0.authorized_keys)
    → P (then_ok x next).0.authorized_keys
then_ok-keeps P (s, err e) next h more = h
then_ok-keeps P (s, ok u) next h more = more s h

connect-keeps :
    (P : Option Bytes → Type 0) (m : Meets) (host : Bytes) (bound : Ipv4 × ℕ) (s : Site)
    → P s.authorized_keys
    → P (connect m host bound s).0.authorized_keys
unfolding connect
connect-keeps P m host (ip, port) s h = elim (Bool-cases m.entry_ok) [
  | inr e ↦ rw (connect, e) h
  | inl e ↦
      rw (connect, e)
        (with_ok-keeps P m.client (record s { known_hosts = some (known_host ip port host) }) _ h
          (λ code at. h))
]

go_on-keeps :
    (P : Option Bytes → Type 0) (m : Meets) (s : Site)
    → P s.authorized_keys
    → P (go_on m s).0.authorized_keys
unfolding go_on
go_on-keeps P m s h =
    with_ok-keeps P (fetch_host_key m.before m.host_keygen m.after) s _ h (λ host at_host.
      with_ok-keeps P m.forward s _ h (λ bound at_bound.
        with_ok-keeps P (ensure_sshd (answers m.first_banner) m.start (all_answers m.banners)) s _ h
          (λ up at_up. connect-keeps P m host bound s h)))

abbrev pub IsKept : Config → Meets → Option Bytes → Option Bytes → Type 0
IsKept cfg m before after =
    (after ≡ before)
    ⊎ ((blob : Bytes) × (line : Bytes) × (prepare cfg m ≡ ok (blob, line))
        × (after ≡ some (merge_authorized_keys before blob line)))

kept :
    (cfg : Config) (m : Meets) (blob line : Bytes) (before after : Option Bytes)
    → prepare cfg m ≡ ok (blob, line)
    → IsMerged blob line before after
    → IsKept cfg m before after
kept cfg m blob line before after prepared (inl same) = inl same
kept cfg m blob line before after prepared (inr merged) = inr (blob, line, prepared, merged)

-- However a session ends, the target's authorized_keys is as it was, or it is the merge of what it
-- was with the line of this controller's key: no other key is lost to a failure.
pub session-IsKept :
    (cfg : Config) (m : Meets) (s : Site)
    → IsKept cfg m s.authorized_keys (session cfg m s).0.authorized_keys
unfolding session
session-IsKept cfg m s =
    let P : Option Bytes → Type 0 = IsKept cfg m s.authorized_keys in
    with_ok-keeps P (prepare cfg m) s _ (inl refl) (λ key prepared.
      then_ok-keeps P (install_authorized_key m.install key.0 key.1 s) (go_on m)
        (kept cfg m key.0 key.1 s.authorized_keys _ prepared
          (install-IsMerged m.install key.0 key.1 s).0)
        (λ s1 h. go_on-keeps P m s1 h))
