-- ===== src/Ssh/Session/Connected.antt =====
-- What has happened when ssh ran to its end.
use egdod.Prelude.{ℕ, ◌≡◌, inl, inr, refl, ◌∙◌, some, Bytes, Result, ok, err, Bool-cases}
use egdod.Link.{Ipv4}
use egdod.Ssh.{merge_authorized_keys}
use egdod.Ssh.Steps.{SshError, fetch_host_key, ensure_sshd, known_host}
use egdod.Ssh.Session.{
  Site, install_authorized_key, Config, Meets, prepare, answers, all_answers, status_code, with_ok,
  then_ok, connect, go_on, session,
}
use egdod.Ssh.Session.Lossless.{install-IsMerged}

-- A step that ends well has gone on.
with_ok-goes {ℓ} :
    {A : Type ℓ} (Q : Site → Type 0) (r : Result SshError A) (s : Site)
    (next : A → Site × Result SshError ℕ) (n : ℕ)
    → (with_ok r s next).1 ≡ ok n
    → ((a : A) → r ≡ ok a → (next a).1 ≡ ok n → Q (next a).0)
    → Q (with_ok r s next).0
with_ok-goes Q (err e) s next n h more = cc
with_ok-goes Q (ok a) s next n h more = more a refl h

then_ok-goes :
    (Q : Site → Type 0) (x : Site × Result SshError (Unit {0}))
    (next : Site → Site × Result SshError ℕ) (n : ℕ)
    → (then_ok x next).1 ≡ ok n
    → (x.1 ≡ ok tt → (next x.0).1 ≡ ok n → Q (next x.0).0)
    → Q (then_ok x next).0
then_ok-goes Q (s, err e) next n h more = cc
then_ok-goes Q (s, ok u) next n h more = more refl h

-- What has happened when ssh ran to its end.
abbrev IsConnected : Meets → Site → Site → Type 0
IsConnected m s s' =
    (host : Bytes) × (ip : Ipv4) × (port : ℕ) × (fetch_host_key m.before m.host_keygen m.after
      ≡ ok host)
    × (m.forward ≡ ok (ip, port))
    × (ensure_sshd (answers m.first_banner) m.start (all_answers m.banners) ≡ ok tt)
    × (s'.known_hosts ≡ some (known_host ip port host))
    × (s'.authorized_keys ≡ s.authorized_keys)

connect-eq-ok :
    (m : Meets) (host : Bytes) (ip : Ipv4) (port : ℕ) (s : Site) (n : ℕ)
    → (connect m host (ip, port) s).1 ≡ ok n
    → ((connect m host (ip, port) s).0.known_hosts ≡ some (known_host ip port host))
      × ((connect m host (ip, port) s).0.authorized_keys ≡ s.authorized_keys)
unfolding connect
connect-eq-ok m host ip port s n h = elim (Bool-cases m.entry_ok) [
  | inr e ↦ absurd (cc (rw (connect, e) at h))
  | inl e ↦
      let there : Site = record s { known_hosts = some (known_host ip port host) } in
      rw (connect, e)
        (with_ok-goes
          (λ s'.
            (s'.known_hosts ≡ some (known_host ip port host))
            × (s'.authorized_keys ≡ s.authorized_keys))
          m.client there (λ code. (there, ok (status_code code))) n (rw (connect, e) at h)
          (λ code at_code done. (refl, refl)))
]

go_on-eq-ok : (m : Meets) (s : Site) (n : ℕ) → (go_on m s).1 ≡ ok n → IsConnected m s (go_on m s).0
unfolding go_on
go_on-eq-ok m s n h =
    with_ok-goes (IsConnected m s) (fetch_host_key m.before m.host_keygen m.after) s _ n h
      (λ host at_host h1. with_ok-goes (IsConnected m s) m.forward s _ n h1 (λ bound at_bound h2.
        with_ok-goes (IsConnected m s)
          (ensure_sshd (answers m.first_banner) m.start (all_answers m.banners)) s _ n h2
          (λ up at_up h3.
            let (known, same) = connect-eq-ok m host bound.0 bound.1 s n h3 in
            (host, bound.0, bound.1, at_host, at_bound, at_up, known, same))))

-- The file merged, and the rest done.
abbrev IsEnded : Config → Meets → Site → Site → Type 0
IsEnded cfg m s s' =
    (blob : Bytes) × (line : Bytes) × (host : Bytes) × (ip : Ipv4) × (port : ℕ) × (prepare cfg m
      ≡ ok (blob, line))
    × (s'.authorized_keys ≡ some (merge_authorized_keys s.authorized_keys blob line))
    × (fetch_host_key m.before m.host_keygen m.after ≡ ok host)
    × (m.forward ≡ ok (ip, port))
    × (ensure_sshd (answers m.first_banner) m.start (all_answers m.banners) ≡ ok tt)
    × (s'.known_hosts ≡ some (known_host ip port host))

-- When ssh ran to its end, an sshd had answered behind the forward, known_hosts was the one entry for
-- the forwarded port and the key that came over the authenticated channel, and the target's
-- authorized_keys was its old text merged with the line of this controller's key.
session-eq-ok :
    (cfg : Config) (m : Meets) (s : Site) (n : ℕ)
    → (session cfg m s).1 ≡ ok n
    → IsEnded cfg m s (session cfg m s).0
unfolding session
session-eq-ok cfg m s n h =
    let Ended : Site → Type 0 = IsEnded cfg m s in
    with_ok-goes Ended (prepare cfg m) s _ n h (λ key prepared h1.
      then_ok-goes Ended (install_authorized_key m.install key.0 key.1 s) (go_on m) n h1
        (λ installed h2.
          let (host, ip, port, at_host, at_bound, at_up, known, same) =
            go_on-eq-ok m (install_authorized_key m.install key.0 key.1 s).0 n h2 in
          let merged = (install-IsMerged m.install key.0 key.1 s).1 installed in
          (key.0, key.1, host, ip, port, prepared, same ∙ merged, at_host, at_bound, at_up, known)))
