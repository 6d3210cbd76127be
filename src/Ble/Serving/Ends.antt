-- ===== src/Ble/Serving/Ends.antt =====
-- Turns and events of the target's loop, for its end.
use egdod.Prelude.{
  not, ◌||◌, ℕ, zero, suc, ◌≤◌, ◌<◌, ◌≡◌, refl, ap, Option, none, some, Bool, true, false, List, [],
  ◌∷◌, Bytes, bytes_eq, length, Result, ok, err, arith, inl, inr,
}
use egdod.Io.{Stream, Sink}
use egdod.Disk.{FilePath, Disk}
use egdod.Ble.{BleError}
use egdod.Ble.Exchange.{Crypto, Identity}
use egdod.Ble.Serving.{
  Event, write, notify, wait_over, terminate, Halves, Found, first_half, Waited, joined, refused,
  signalled, joined_halves, with_reader, with_writer, or_wait, pair, Meeting, Site, Turn-cases,
  next, exchange, waited, found, Served, clean, on_adapter, serve_loop, serve_on_adapter,
}

first_half-takes : (es : List Event) (f : Found) → first_half es ≡ ok f → length f.rest < length es
unfolding first_half
first_half-takes [] f h = cc
first_half-takes (write peer true r ∷ es) f h = ground arith
first_half-takes (write peer false r ∷ es) f h = cc
first_half-takes (notify peer w ∷ es) f h = ground arith
first_half-takes (wait_over ∷ es) f h = omega (arith, first_half-takes es f h)
first_half-takes (terminate ∷ es) f h = cc

or_wait-takes :
    (o : Option Waited) (es : List Event) (later : Waited × List Event) (n : ℕ)
    → length es ≤ n
    → length later.1 ≤ n
    → length (or_wait o es later).1 ≤ n
or_wait-takes (some j) es later n now others = now
or_wait-takes none es later n now others = others

pair-takes : (peer : Bytes) (h : Halves) (es : List Event) → length (pair peer h es).1 ≤ length es
unfolding pair
pair-takes peer h [] = omega arith
pair-takes peer h (write address false r ∷ es) = omega arith
pair-takes peer h (write address true r ∷ es) =
    let h' = with_reader (bytes_eq peer address) h r in
    or_wait-takes (joined_halves h') es (pair peer h' es) (suc (length es)) (omega arith)
      (omega (arith, pair-takes peer h' es))
pair-takes peer h (notify address w ∷ es) =
    let h' = with_writer (bytes_eq peer address) h w in
    or_wait-takes (joined_halves h') es (pair peer h' es) (suc (length es)) (omega arith)
      (omega (arith, pair-takes peer h' es))
pair-takes peer h (wait_over ∷ es) = omega arith
pair-takes peer h (terminate ∷ es) = omega arith

module _ (c : Crypto) (target : Identity) (controller : Bytes) (pid : Bytes) (path : FilePath)
    (name : Bytes) (meets : ℕ → Meeting) where
  -- A turn that is followed by another has taken an event.
  exchange-takes :
      (k : ℕ) (peer : Bytes) (r : Stream) (w : Sink) (es : List Event) (s : Site) (k' : ℕ)
      (es' : List Event) (s' : Site)
      → exchange c target controller pid path name meets k peer r w es s ≡ next k' es' s'
      → es' ≡ es
  unfolding exchange
  exchange-takes k peer r w es s k' es' s' h = ground arith

  waited-takes :
      (k : ℕ) (peer : Bytes) (o : Waited × List Event) (s : Site) (k' : ℕ) (es' : List Event)
      (s' : Site)
      → waited c target controller pid path name meets k peer o s ≡ next k' es' s'
      → es' ≡ o.1
  waited-takes k peer (signalled, es) s k' es' s' h = cc
  waited-takes k peer (refused e, es) s k' es' s' h = cc
  waited-takes k peer (joined r w, es) s k' es' s' h = exchange-takes k peer r w es s k' es' s' h

  found-takes :
      (k : ℕ) (es : List Event) (s : Site) (k' : ℕ) (es' : List Event) (s' : Site)
      → (o : Result BleError Found) → first_half es ≡ o
      → found c target controller pid path name meets k o s ≡ next k' es' s'
      → length es' < length es
  found-takes k es s k' es' s' (err e) at h = cc
  found-takes k es s k' es' s' (ok f) at h =
      let rest = waited-takes k f.peer (pair f.peer f.halves f.rest) s k' es' s' h in
      omega (arith, ap length rest, pair-takes f.peer f.halves f.rest, first_half-takes es f at)

  serve_loop-some :
      (fuel k : ℕ) (es : List Event) (s : Site)
      → length es < fuel
      → (o : Site × Result BleError (Unit {0})) × (serve_loop c target controller pid path name
            meets fuel k es s
          ≡ some o)
  unfolding serve_loop
  serve_loop-some zero k es s h = absurd (omega (arith, h))
  serve_loop-some (suc fuel) k es s h =
      elim (Turn-cases (found c target controller pid path name meets k (first_half es) s)) [
        | inl (s', r, e) ↦ ((s', r), rw (serve_loop, e) refl)
        | inr (k', es', s', e) ↦
            let shorter = found-takes k es s k' es' s' (first_half es) refl e in
            let (o, ends) = serve_loop-some fuel k' es' s' (omega (arith, h, shorter)) in
            (o, rw (serve_loop, e) ends)
      ]

  -- The loop's fuel is enough for every list of events; one that is at its end is the end of the
  -- service, which waits for the next event without a limit while it runs.
  pub on_adapter-some :
      (was_powered off_ok advertises : Bool) (es : List Event) (d : Disk)
      → (o : Served) × (on_adapter c target controller pid path name meets was_powered off_ok
            advertises es d
          ≡ some o)
  unfolding on_adapter serve_on_adapter
  on_adapter-some was_powered off_ok false es d = (_, refl)
  on_adapter-some was_powered off_ok true es d =
      let start : Site = record { disk = d; active = none; forgotten = [] } in
      let (o, ends) = serve_loop-some (suc (length es)) 0 es start (omega arith) in
      (
        record {
          site = clean o.0.active o.0;
          powered = some (was_powered || not off_ok);
          result = o.1;
        },
        rw (on_adapter, serve_on_adapter, ends) refl,
      )
