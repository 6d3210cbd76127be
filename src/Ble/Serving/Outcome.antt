-- ===== src/Ble/Serving/Outcome.antt =====
-- What the target's service leaves: the credentials at their path, and the Bluetooth adapter.
use egdod.Prelude.{
  not, ◌||◌, ℕ, zero, suc, ◌≡◌, ◌≢◌, ◌⊎◌, inl, inr, refl, sym, ◌∙◌, Option, none, some, Bool, true,
  false, List, [], Bytes, length, Result, ok, err, Bool-cases,
}
use mathlib.Core.Path.{subst}
use egdod.Io.{Stream, Sink}
use egdod.Disk.{FilePath, Disk, store_same, store_other}
use egdod.Ble.{tmp_of, BleError, advertising, private_file}
use egdod.Ble.Credentials.{tmp_of-ne}
use egdod.Ble.Exchange.{Crypto, Identity, Attempted}
use egdod.Ble.Exchange.Vouched.{IsVouched}
use egdod.Ble.Exchange.Installed.{
  target_attempt-IsVouched, target_attempt-unchanged, target_attempt-installed,
}
use egdod.Ble.Serving.{
  Event, Found, first_half, Waited, joined, refused, signalled, pair, Meeting, Site, is_last,
  after_attempt, Turn, Turn-cases, done, next, try_channel, output, exchange, waited, found, Served,
  clean, shut, serve_loop, serve_on_adapter, on_adapter,
}

ended :
    (r : Result BleError (Unit {0})) (P : Type 0)
    → (r ≡ ok tt → P)
    → ((r ≡ ok tt) × P) ⊎ ((e : BleError) × (r ≡ err e))
ended (err e) P h = inr (e, refl)
ended (ok u) P h = inl (refl, h refl)

last-installed :
    (o : Option (Result BleError (Unit {0}))) (installed : Bool)
    → is_last o installed ≡ true
    → (o ≡ some (ok tt) → installed ≡ true)
    → installed ≡ true
last-installed (some (ok u)) installed h well = well refl
last-installed (some (err e)) installed h well = cc
last-installed none installed h well = h

module _ (c : Crypto) (target : Identity) (controller : Bytes) (pid : Bytes) (path : FilePath)
    (name : Bytes) (meets : ℕ → Meeting) (named : path.name ≡ some name) where
  -- The path has credentials that one of the attempts vouched for.
  abbrev pub HasVouched : Disk → Type 0
  HasVouched d =
      (k : ℕ) × (secret : Bytes) × (conf : Bytes) × ((meets k).random ≡ some secret)
      × IsVouched c controller target.id secret conf
      × (d path ≡ private_file conf)

  -- A staging file of the credentials, which an attempt could not remove.
  abbrev pub IsLeftover : FilePath → Type 0
  IsLeftover q = (k : ℕ) × ((meets k).calls.remove_ok ≡ false) × (q ≡ tmp_of pid path name)

  abbrev pub IsSame : Disk → Disk → FilePath → Type 0
  IsSame d d' q = (d' q ≡ d q) ⊎ IsLeftover q

  IsSame-trans : (d d₁ d' : Disk) (q : FilePath) → IsSame d d₁ q → IsSame d₁ d' q → IsSame d d' q
  IsSame-trans d d₁ d' q h (inr left) = inr left
  IsSame-trans d d₁ d' q (inl h) (inl k) = inl (k ∙ h)
  IsSame-trans d d₁ d' q (inr left) (inl k) = inr left

  -- From one disk to another only the path changed, if anything did, and then to such credentials; or
  -- a staging file is left.
  abbrev pub IsServed : Disk → Disk → Type 0
  IsServed d d' = ((q : FilePath) → path ≢ q → IsSame d d' q) × ((d' path ≡ d path) ⊎ HasVouched d')

  module _ (k : ℕ) (r : Stream) (w : Sink) (d : Disk) where
    abbrev tried : Attempted
    tried = try_channel c target controller pid path name meets k r w d

    tried-HasVouched :
        tried.installed ≡ true
        → ((q : FilePath) → path ≢ q → tried.disk q ≡ d q) × HasVouched tried.disk
    tried-HasVouched yet =
        let out = output c target controller pid path name meets k in
        let (secret, conf, drawn, vouched, put) =
          target_attempt-IsVouched c target controller (meets k).random out r w d (meets k).cut
            named yet in
        (
          λ q off. put q ∙ store_other d path q (private_file conf) off,
          (k, secret, conf, drawn, vouched, put path ∙ store_same d path (private_file conf)),
        )

    tried-IsSame : tried.installed ≡ false → (q : FilePath) → IsSame d tried.disk q
    tried-IsSame not_yet q =
        elim (target_attempt-unchanged c target controller (meets k).random
          (output c target controller pid path name meets k) r w d (meets k).cut q named not_yet) [
            | inl same ↦ inl same
            | inr (stays, at) ↦ inr (k, stays, at)
          ]

    tried-path : tried.installed ≡ false → tried.disk path ≡ d path
    tried-path not_yet = elim (tried-IsSame not_yet path) [
      | inl same ↦ same
      | inr (j, stays, at) ↦ absurd (tmp_of-ne pid path name named (sym at))
    ]

    tried-last : is_last tried.outcome tried.installed ≡ true → HasVouched tried.disk
    tried-last h =
        let out = output c target controller pid path name meets k in
        let yet =
          last-installed tried.outcome tried.installed h (
            target_attempt-installed c target controller (meets k).random out r w d
              (meets k).cut) in
        (tried-HasVouched yet).1

    tried-IsServed : (d₀ : Disk) → IsServed d₀ d → IsServed d₀ tried.disk
    tried-IsServed d₀ h = elim (Bool-cases tried.installed) [
      | inr not_yet ↦
          let same = tried-path not_yet in
          (
            λ q off. IsSame-trans d₀ d tried.disk q (h.0 q off) (tried-IsSame not_yet q),
            elim h.1 [
              | inl old ↦ inl (same ∙ old)
              | inr (j, secret, conf, drawn, vouched, put) ↦
                  inr (j, secret, conf, drawn, vouched, same ∙ put)
            ],
          )
      | inl yet ↦
          let (others, vouched) = tried-HasVouched yet in
          (λ q off. IsSame-trans d₀ d tried.disk q (h.0 q off) (inl (others q off)), inr vouched)
    ]

  -- A turn keeps it, and ends well only with credentials.
  abbrev Serves : Disk → Turn → Type 0
  Serves d₀ (done s r) = IsServed d₀ s.disk × (r ≡ ok tt → HasVouched s.disk)
  Serves d₀ (next k es s) = IsServed d₀ s.disk

  after_attempt-Serves :
      (signal ends : Bool) (k : ℕ) (peer : Bytes) (es : List Event) (d₀ : Disk) (left : Site)
      → IsServed d₀ left.disk
      → (ends ≡ true → HasVouched left.disk)
      → Serves d₀ (after_attempt signal ends k peer es left)
  after_attempt-Serves true ends k peer es d₀ left h last = (h, λ bad. cc)
  after_attempt-Serves false true k peer es d₀ left h last = (h, λ well. last refl)
  after_attempt-Serves false false k peer es d₀ left h last = h

  exchange-Serves :
      (k : ℕ) (peer : Bytes) (r : Stream) (w : Sink) (es : List Event) (d₀ : Disk) (s : Site)
      → IsServed d₀ s.disk
      → Serves d₀ (exchange c target controller pid path name meets k peer r w es s)
  unfolding exchange
  exchange-Serves k peer r w es d₀ s h =
      let a = tried k r w s.disk in
      after_attempt-Serves (meets k).signal (is_last a.outcome a.installed) k peer es d₀
        (record s { disk = a.disk; active = some peer }) (tried-IsServed k r w s.disk d₀ h)
        (tried-last k r w s.disk)

  waited-Serves :
      (k : ℕ) (peer : Bytes) (o : Waited × List Event) (d₀ : Disk) (s : Site)
      → IsServed d₀ s.disk
      → Serves d₀ (waited c target controller pid path name meets k peer o s)
  waited-Serves k peer (signalled, es) d₀ s h = (h, λ bad. cc)
  waited-Serves k peer (refused e, es) d₀ s h = h
  waited-Serves k peer (joined r w, es) d₀ s h = exchange-Serves k peer r w es d₀ s h

  found-Serves :
      (k : ℕ) (o : Result BleError Found) (d₀ : Disk) (s : Site)
      → IsServed d₀ s.disk
      → Serves d₀ (found c target controller pid path name meets k o s)
  found-Serves k (err e) d₀ s h = (h, λ bad. cc)
  found-Serves k (ok f) d₀ s h = waited-Serves k f.peer (pair f.peer f.halves f.rest) d₀ s h

  serve_loop-IsServed :
      (fuel k : ℕ) (es : List Event) (d₀ : Disk) (s s' : Site) (r : Result BleError (Unit {0}))
      → IsServed d₀ s.disk
      → serve_loop c target controller pid path name meets fuel k es s ≡ some (s', r)
      → IsServed d₀ s'.disk × (r ≡ ok tt → HasVouched s'.disk)
  unfolding serve_loop
  serve_loop-IsServed zero k es d₀ s s' r h e = cc
  serve_loop-IsServed (suc fuel) k es d₀ s s' r h e =
      let t = found c target controller pid path name meets k (first_half es) s in
      let kept = found-Serves k (first_half es) d₀ s h in
      elim (Turn-cases t) [
        | inl (s₁, r₁, stops) ↦
            let e' : some (s₁, r₁) ≡ some (s', r) = rw (serve_loop, stops) at e in
            let site : s₁ ≡ s' = cc e' in
            let result : r₁ ≡ r = cc e' in
            subst
              (λ (q : Result BleError (Unit {0})).
                IsServed d₀ s'.disk × (q ≡ ok tt → HasVouched s'.disk))
              result
              (subst (λ (q : Site). IsServed d₀ q.disk × (r₁ ≡ ok tt → HasVouched q.disk)) site
                (subst (λ (u : Turn). Serves d₀ u) stops kept))
        | inr (k₁, es₁, s₁, goes) ↦
            serve_loop-IsServed fuel k₁ es₁ d₀ s₁ s' r (subst (λ (u : Turn). Serves d₀ u) goes kept)
              (rw (serve_loop, goes) at e)
      ]

  serve_on_adapter-IsServed :
      (advertises : Bool) (es : List Event) (d : Disk) (s : Site) (r : Result BleError (Unit {0}))
      → serve_on_adapter c target controller pid path name meets advertises es d ≡ some (s, r)
      → IsServed d s.disk × (r ≡ ok tt → HasVouched s.disk)
  unfolding serve_on_adapter
  serve_on_adapter-IsServed false es d s r h =
      let site : record { disk = d; active = none; forgotten = [] } ≡ s = cc h in
      let result : err advertising ≡ r = cc h in
      rw (sym site) ((λ q off. inl refl, inl refl), λ well. cc)
  serve_on_adapter-IsServed true es d s r h =
      serve_loop-IsServed (suc (length es)) 0 es d
        (record { disk = d; active = none; forgotten = [] }) s r (λ q off. inl refl, inl refl) h

  clean-disk : (a : Option Bytes) (s : Site) → (clean a s).disk ≡ s.disk
  clean-disk (some peer) s = refl
  clean-disk none s = refl

  clean-active : (a : Option Bytes) (s : Site) → a ≡ s.active → (clean a s).active ≡ none
  clean-active (some peer) s h = refl
  clean-active none s h = sym h

  shut-IsServed :
      (was_powered off_ok : Bool) (d : Disk) (x : Option (Site × Result BleError (Unit {0})))
      (o : Served)
      → ((s : Site) (r : Result BleError (Unit {0}))
          → x ≡ some (s, r)
          → IsServed d s.disk × (r ≡ ok tt → HasVouched s.disk))
      → shut was_powered off_ok x ≡ some o
      → IsServed d o.site.disk
        × (o.result ≡ ok tt → HasVouched o.site.disk)
        × (o.site.active ≡ none)
        × (o.powered ≡ some (was_powered || not off_ok))
  shut-IsServed was_powered off_ok d none o good h = cc
  shut-IsServed was_powered off_ok d (some (s, r)) o good h =
      let (kept, well) = good s r refl in
      let same : record {
        site = clean s.active s;
        powered = some (was_powered || not off_ok);
        result = r;
      }
          ≡ o =
        cc h in
      rw (sym same, clean-disk s.active s) (kept, well, clean-active s.active s refl, refl)

  -- What the service leaves once its adapter is there.
  abbrev pub Leaves : Disk → Served → Type 0
  Leaves d o =
      IsServed d o.site.disk
      × (((o.result ≡ ok tt) × HasVouched o.site.disk) ⊎ ((e : BleError) × (o.result ≡ err e)))

  pub on_adapter-Leaves :
      (was_powered off_ok advertises : Bool) (es : List Event) (d : Disk) (o : Served)
      → on_adapter c target controller pid path name meets was_powered off_ok advertises es d
        ≡ some o
      → Leaves d o × (o.site.active ≡ none) × (o.powered ≡ some (was_powered || not off_ok))
  unfolding on_adapter serve_on_adapter
  on_adapter-Leaves was_powered off_ok advertises es d o h =
      let (kept, well, inactive, power) =
        shut-IsServed was_powered off_ok d
          (serve_on_adapter c target controller pid path name meets advertises es d) o
          (λ s r e. serve_on_adapter-IsServed advertises es d s r e) h in
      ((kept, ended o.result (HasVouched o.site.disk) well), inactive, power)
