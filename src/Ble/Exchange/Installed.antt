-- ===== src/Ble/Exchange/Installed.antt =====
-- What an installation at the target proves, and what it leaves without one.
use egdod.Prelude.{
  ◌≡◌, ◌≢◌, ◌⊎◌, inl, inr, refl, sym, ap, ◌∙◌, Option, some, true, false, Bytes, codes, Result, ok,
  err, Option-cases,
}
use egdod.Io.{Stream, Sink}
use egdod.Disk.{FilePath, Disk, store}
use egdod.Ble.{tmp_of, BleError, private_file, install}
use egdod.Ble.Credentials.{install-eq-ok, install-eq-err}
use egdod.Ble.Exchange.{
  Crypto, Identity, Offer, nonce, receive_offer, Cut, never, before_install, after_install, Output,
  Attempted, acknowledge, finish_offer, take_offer, target_attempt,
}
use egdod.Ble.Exchange.Vouched.{IsVouched, receive_offer-IsVouched}

module _ (c : Crypto) where
  acknowledge-installed :
      (cut : Cut) (o : Offer) (d : Disk)
      → ((acknowledge c cut o d).installed ≡ true) × ((acknowledge c cut o d).disk ≡ d)
  unfolding acknowledge
  acknowledge-installed cut o d =
      elim (Option-cases (c.encrypt o.key (nonce 1) o.transcript (codes "ok"))) [
        | inl e ↦ rw (acknowledge, e) (refl, refl)
        | inr (cipher, e) ↦
            elim cut
              as (λ k.
                ((acknowledge c k o d).installed ≡ true) × ((acknowledge c k o d).disk ≡ d)) [
                  | never ↦ rw (acknowledge, e) (refl, refl)
                  | before_install ↦ rw (acknowledge, e) (refl, refl)
                  | after_install ↦ rw (acknowledge, e) (refl, refl)
                ]
      ]

  -- No installation: every file is as it was.
  finish_offer-cases :
      (cut : Cut) (o : Offer) (r : Disk × Result BleError (Unit {0}))
      → ((r.1 ≡ ok tt)
          × ((finish_offer c cut o r).installed ≡ true)
          × ((finish_offer c cut o r).disk ≡ r.0))
        ⊎ ((e : BleError) × (r.1 ≡ err e)
            × ((finish_offer c cut o r).installed ≡ false)
            × ((finish_offer c cut o r).disk ≡ r.0)
            × ((finish_offer c cut o r).outcome ≢ some (ok tt)))
  unfolding finish_offer
  finish_offer-cases cut o (d, err e) = inr (e, refl, refl, refl, λ h. cc)
  finish_offer-cases cut o (d, ok _) =
      let (installs, same) = acknowledge-installed cut o d in inl (refl, installs, same)

  module _ (target : Identity) (controller : Bytes) (random : Option Bytes) (out : Output)
      (r : Stream) (w : Sink) (d : Disk) where
    abbrev attempt : Cut → Attempted
    attempt cut = target_attempt c target controller random cut out r w d

    -- What an attempt did, by where it got.
    take_offer-cases :
        (cut : Cut) (offer : Result BleError Offer)
        → (((take_offer c cut out w d offer).installed ≡ false)
            × ((take_offer c cut out w d offer).disk ≡ d)
            × ((take_offer c cut out w d offer).outcome ≢ some (ok tt)))
          ⊎ ((o : Offer) × (offer ≡ ok o)
              × (take_offer c cut out w d offer
                  ≡ finish_offer c cut o (install out.calls out.pid out.path out.name o.conf d)))
    unfolding take_offer
    take_offer-cases never (err e) = inl (refl, refl, λ h. cc)
    take_offer-cases never (ok o) = inr (o, refl, refl)
    take_offer-cases before_install offer = inl (refl, refl, λ h. cc)
    take_offer-cases after_install (err e) = inl (refl, refl, λ h. cc)
    take_offer-cases after_install (ok o) = inr (o, refl, refl)

    -- An attempt that says that it installed credentials put them at its path, whole and private,
    -- and changed no other file; and the controller's signature vouches for them, over the ephemeral
    -- key of this attempt and this target's id.
    pub target_attempt-IsVouched :
        (cut : Cut)
        → out.path.name ≡ some out.name
        → (attempt cut).installed ≡ true
        → (secret : Bytes) × (conf : Bytes) × (random ≡ some secret)
          × IsVouched c controller target.id secret conf
          × ((q : FilePath) → (attempt cut).disk q ≡ store d out.path (private_file conf) q)
    unfolding target_attempt
    target_attempt-IsVouched cut named h =
        elim (take_offer-cases cut (receive_offer c target controller random r w)) [
          | inl (not_yet, same, bad) ↦ absurd (cc (h, not_yet))
          | inr (o, offers, finishes) ↦
              elim (finish_offer-cases cut o
                (install out.calls out.pid out.path out.name o.conf d)) [
                  | inr (e, fails, not_yet, same, bad) ↦ absurd (cc (h, not_yet, finishes))
                  | inl (installs, yet, same) ↦
                      let (secret, drawn, vouched) =
                        receive_offer-IsVouched c target controller random r w o offers in
                      (
                        secret,
                        o.conf,
                        drawn,
                        vouched,
                        λ q.
                            ap (λ (a : Attempted). a.disk q) finishes
                            ∙ ap (λ (f : Disk). f q) same
                            ∙ install-eq-ok out.calls out.pid out.path out.name o.conf d q named
                                installs,
                      )
                ]
        ]

    -- An attempt that installed nothing, wherever it stopped, leaves every file as it was, but for the
    -- staging file where its removal failed.
    pub target_attempt-unchanged :
        (cut : Cut) (q : FilePath)
        → out.path.name ≡ some out.name
        → (attempt cut).installed ≡ false
        → ((attempt cut).disk q ≡ d q)
          ⊎ ((out.calls.remove_ok ≡ false) × (q ≡ tmp_of out.pid out.path out.name))
    unfolding target_attempt
    target_attempt-unchanged cut q named h =
        elim (take_offer-cases cut (receive_offer c target controller random r w)) [
          | inl (not_yet, same, bad) ↦ inl (ap (λ (f : Disk). f q) same)
          | inr (o, offers, finishes) ↦
              elim (finish_offer-cases cut o
                (install out.calls out.pid out.path out.name o.conf d)) [
                  | inr (e, fails, not_yet, same, bad) ↦
                      let after =
                        ap (λ (a : Attempted). a.disk q) finishes ∙ ap (λ (f : Disk). f q) same in
                      elim (install-eq-err out.calls out.pid out.path out.name o.conf d q named e
                        fails) [ inl kept ↦ inl (after ∙ kept) | inr stays ↦ inr stays ]
                  | inl (installs, yet, same) ↦ absurd (cc (h, yet, finishes))
                ]
        ]

    -- An attempt that ends well has installed.
    pub target_attempt-installed :
        (cut : Cut) → (attempt cut).outcome ≡ some (ok tt) → (attempt cut).installed ≡ true
    unfolding target_attempt
    target_attempt-installed cut h =
        elim (take_offer-cases cut (receive_offer c target controller random r w)) [
          | inl (not_yet, same, bad) ↦ absurd (bad h)
          | inr (o, offers, finishes) ↦
              let back = ap (λ (a : Attempted). a.outcome) finishes in
              elim (finish_offer-cases cut o
                (install out.calls out.pid out.path out.name o.conf d)) [
                  | inr (e, fails, not_yet, same, bad) ↦ absurd (bad (sym back ∙ h))
                  | inl (installs, yet, same) ↦ ap (λ (a : Attempted). a.installed) finishes ∙ yet
                ]
        ]
