-- ===== src/Ble/Serving.antt =====
-- src/ble.rs, `serve` and the loop of `serve_on_adapter`: the two halves of a connection are matched
-- by the peer's address, an attempt is made, and the loop ends once credentials are in. What the
-- Bluetooth service reports is a sequence of events; what each attempt meets is a function of its
-- number.
pub mod Ends
pub mod Outcome
pub mod Whole
use egdod.Prelude.{
  not, ◌||◌, ℕ, zero, suc, ◌≡◌, refl, ◌⊎◌, inl, inr, Option, none, some, Bool, true, false, List,
  [], ◌∷◌, ◌++◌, Bytes, bytes_eq, length, if◌then◌else◌, Result, ok, err,
}
use egdod.Io.{Stream, Sink}
use egdod.Disk.{FilePath, Disk}
use egdod.Ble.{
  BleError, no_key, no_adapter, InstallCalls, service_stopped, pairing_timed_out, accepting,
  advertising, interrupted,
}
use egdod.State.Key.{KeyError, KeyCalls, load_or_create_key, replace}
use egdod.Ble.Exchange.{Crypto, Identity, Cut, Output, Attempted, target_attempt}

-- What `control.next` gives, and what the loop may meet while it waits for it: the end of
-- `CHANNEL_WAIT`, or a signal. A list that is at its end is the end of the service.
pub data Event : Type 0 where
  write : Bytes → Bool → Stream → Event
  notify : Bytes → Sink → Event
  wait_over terminate : Event

-- The two ends of a channel, as far as they are there.
pub record Halves : Type 0 where
  pub reader : Option Stream
  pub writer : Option Sink

pub record Found : Type 0 where
  pub peer : Bytes
  pub halves : Halves
  pub rest : List Event

-- The first event of an attempt.
unfoldable pub first_half : List Event → Result BleError Found
first_half [] = err service_stopped
first_half (write peer true r ∷ es) =
    ok (record { peer = peer; halves = record { reader = some r; writer = none }; rest = es })
first_half (write peer false r ∷ es) = err accepting
first_half (notify peer w ∷ es) =
    ok (record { peer = peer; halves = record { reader = none; writer = some w }; rest = es })
first_half (wait_over ∷ es) = first_half es
first_half (terminate ∷ es) = err interrupted

-- How the wait for the other half ended.
pub data Waited : Type 0 where
  joined : Stream → Sink → Waited
  refused : BleError → Waited
  signalled : Waited

abbrev pub joined_by : Option Stream → Option Sink → Option Waited
joined_by (some r) (some w) = some (joined r w)
joined_by none w = none
joined_by (some r) none = none

abbrev pub joined_halves : Halves → Option Waited
joined_halves h = joined_by h.reader h.writer

abbrev pub or_wait : Option Waited → List Event → Waited × List Event → Waited × List Event
or_wait (some j) es later = (j, es)
or_wait none es later = later

abbrev pub with_reader : Bool → Halves → Stream → Halves
with_reader same h r = if same then record h { reader = some r } else h

abbrev pub with_writer : Bool → Halves → Sink → Halves
with_writer same h w = if same then record h { writer = some w } else h

-- The other half, of the same peer: those of other peers are passed over.
unfoldable pub pair : Bytes → Halves → List Event → Waited × List Event
pair peer h [] = (refused service_stopped, [])
pair peer h (write address false r ∷ es) = (refused accepting, es)
pair peer h (write address true r ∷ es) =
    let h' = with_reader (bytes_eq peer address) h r in
    or_wait (joined_halves h') es (pair peer h' es)
pair peer h (notify address w ∷ es) =
    let h' = with_writer (bytes_eq peer address) h w in
    or_wait (joined_halves h') es (pair peer h' es)
pair peer h (wait_over ∷ es) = (refused pairing_timed_out, es)
pair peer h (terminate ∷ es) = (signalled, es)

-- What an attempt meets: the operating system's random bytes, the time limit, the calls of the
-- installation, and whether a signal ends it.
pub record Meeting : Type 0 where
  pub random : Option Bytes
  pub cut : Cut
  pub calls : InstallCalls
  pub signal : Bool

-- The loop's state: the disk, the peer that is being served, and the peers that the adapter was
-- told to forget.
pub record Site : Type 0 where
  pub disk : Disk
  pub active : Option Bytes
  pub forgotten : List Bytes

abbrev pub forget : Site → Bytes → Site
forget s peer = record s { active = none; forgotten = peer ∷ s.forgotten }

-- Whether the loop ends after an attempt.
abbrev pub is_last : Option (Result BleError (Unit {0})) → Bool → Bool
is_last (some (ok u)) installed = true
is_last (some (err e)) installed = false
is_last none installed = installed

-- What `serve` leaves, with whether the adapter is on, if there is one.
pub record Served : Type 0 where
  pub site : Site
  pub powered : Option Bool
  pub result : Result BleError (Unit {0})

-- The peer that is still in service when it ends.
abbrev pub clean : Option Bytes → Site → Site
clean (some peer) s = forget s peer
clean none s = s

-- `set_powered(false)` of an adapter that was off; a failure is passed over, and leaves it on.
abbrev pub shut : Bool → Bool → Option (Site × Result BleError (Unit {0})) → Option Served
shut was_powered off_ok none = none
shut was_powered off_ok (some (s, r)) =
    some
      (record { site = clean s.active s; powered = some (was_powered || not off_ok); result = r })

-- What one turn of the loop leaves.
pub data Turn : Type 0 where
  done : Site → Result BleError (Unit {0}) → Turn
  next : ℕ → List Event → Site → Turn

pub Turn-cases :
    (t : Turn)
    → ((s : Site) × (r : Result BleError (Unit {0})) × (t ≡ done s r))
      ⊎ ((k : ℕ) × (es : List Event) × (s : Site) × (t ≡ next k es s))
Turn-cases (done s r) = inl (s, r, refl)
Turn-cases (next k es s) = inr (k, es, s, refl)

-- A signal during an attempt, and the end of the loop.
abbrev pub after_attempt : Bool → Bool → ℕ → Bytes → List Event → Site → Turn
after_attempt true ends k peer es left = done left (err interrupted)
after_attempt false true k peer es left = done (forget left peer) (ok tt)
after_attempt false false k peer es left = next (suc k) es (forget left peer)

module _ (c : Crypto) (target : Identity) (controller : Bytes) (pid : Bytes) (path : FilePath)
    (name : Bytes) (meets : ℕ → Meeting) where
  abbrev pub output : ℕ → Output
  output k = record { calls = (meets k).calls; pid = pid; path = path; name = name }

  abbrev pub try_channel : ℕ → Stream → Sink → Disk → Attempted
  try_channel k r w d =
      target_attempt c target controller (meets k).random (meets k).cut (output k) r w d

  -- After both halves are there.
  unfoldable pub exchange : ℕ → Bytes → Stream → Sink → List Event → Site → Turn
  exchange k peer r w es s =
      let a = try_channel k r w s.disk in
      let left : Site = record s { disk = a.disk; active = some peer } in
      after_attempt (meets k).signal (is_last a.outcome a.installed) k peer es left

  abbrev pub waited : ℕ → Bytes → Waited × List Event → Site → Turn
  waited k peer (signalled, es) s = done (record s { active = some peer }) (err interrupted)
  waited k peer (refused e, es) s = next k es (forget s peer)
  waited k peer (joined r w, es) s = exchange k peer r w es s

  abbrev pub found : ℕ → Result BleError Found → Site → Turn
  found k (err e) s = done s (err e)
  found k (ok f) s = waited k f.peer (pair f.peer f.halves f.rest) s

  -- The loop, on fuel: `k` counts the attempts.
  unfoldable pub serve_loop : ℕ → ℕ → List Event → Site → Option (Site × Result BleError (Unit {0}))
  unfolding first_half pair exchange
  serve_loop zero k es s = none
  serve_loop (suc fuel) k es s = elim (found k (first_half es) s) [
    | done s' r ↦ some (s', r)
    | next k' es' s' ↦ serve_loop fuel k' es' s'
  ]

  -- `serve_on_adapter`: every event of the sequence is met at most once.
  unfoldable pub serve_on_adapter :
      Bool → List Event → Disk → Option (Site × Result BleError (Unit {0}))
  unfolding serve_loop
  serve_on_adapter advertises es d = elim advertises [
    | false ↦ some (record { disk = d; active = none; forgotten = [] }, err advertising)
    | true ↦ serve_loop (suc (length es)) 0 es (record { disk = d; active = none; forgotten = [] })
  ]

  -- `serve` from the adapter on, which is there and turned on.
  unfoldable pub on_adapter : Bool → Bool → Bool → List Event → Disk → Option Served
  unfolding serve_on_adapter
  on_adapter was_powered off_ok advertises es d =
      shut was_powered off_ok (serve_on_adapter advertises es d)

abbrev pub stopped : Disk → Option Bool → BleError → Option Served
stopped d adapter e = some (record {
  site = record { disk = d; active = none; forgotten = [] };
  powered = adapter;
  result = err e;
})

-- `identity_of` is iroh's: the node id of a key, and what it signs. `adapter` is whether the adapter
-- that was found was on, if one was found.
module _ (c : Crypto) (identity_of : Bytes → Identity) (controller pid : Bytes)
    (key_path path : FilePath) (name : Bytes) (meets : ℕ → Meeting) where
  abbrev pub with_key :
      Option Bool → Bool → Bool → List Event → Disk × Result KeyError Bytes → Option Served
  with_key adapter off_ok advertises es (d, err e) = stopped d adapter (no_key e)
  with_key none off_ok advertises es (d, ok k) = stopped d none no_adapter
  with_key (some was_powered) off_ok advertises es (d, ok k) =
      on_adapter c (identity_of k) controller pid path name meets was_powered off_ok advertises es d

  unfoldable pub serve : KeyCalls → Option Bool → Bool → Bool → List Event → Disk → Option Served
  unfolding on_adapter
  serve calls adapter off_ok advertises es d =
      with_key adapter off_ok advertises es (load_or_create_key replace calls pid key_path d)
