-- ===== src/Controller/Startup.antt =====
-- src/controller.rs, the start of `serve`, and `accept_local`: the control socket of a state directory, which
-- several processes may try to hold. Each asks whether another answers, removes the socket, and binds
-- it; a process that ends leaves the socket behind.
pub mod Alone
use egdod.Prelude.{ℕ, ◌≡◌, ◌≢◌, Option, none, some, Bool, true, false, ◌==◌, if◌then◌else◌}

pub data Phase : Type 0 where
  -- Not started, asked without an answer, removed the socket, bound it.
  away asked removed serving : Phase
  -- Another one answered, or the socket was there again when it was bound.
  turned_away bind_failed : Phase

-- The path of the socket: nothing, or the process that bound it, alive or not.
pub record Place : Type 0 where
  pub socket : Option ℕ
  pub phase : ℕ → Phase

abbrev pub with_phase : Place → ℕ → Phase → ℕ → Phase
with_phase w p ph q = if p == q then ph else w.phase q

abbrev pub is_serving : Phase → Bool
is_serving serving = true
is_serving _ = false

-- Whether the process that bound the socket is still there, which a connection that meets no error of
-- its own finds out.
unfoldable pub answers : Place → Bool
answers w = elim w.socket [ none ↦ false | some p ↦ is_serving (w.phase p) ]

-- A process goes on with its start, goes on after a connection that was not made although the
-- controller that serves is there (its backlog is full, or no descriptor is free), or ends.
pub data Act : Type 0 where
  goes_on misses stops : ℕ → Act

pub data Step : Act → Place → Place → Type 0 where
  asks :
      (w : Place) (p : ℕ)
      → w.phase p ≡ away
      → Step
          (goes_on p)
          w
          (record w { phase = with_phase w p (if answers w then turned_away else asked) })
  -- `connect(..).is_ok()` takes every error for nobody there.
  overlooks :
      (w : Place) (p : ℕ)
      → w.phase p ≡ away
      → Step (misses p) w (record w { phase = with_phase w p asked })
  removes :
      (w : Place) (p : ℕ)
      → w.phase p ≡ asked
      → Step (goes_on p) w (record { socket = none; phase = with_phase w p removed })
  -- A removal that fails is passed over.
  keeps :
      (w : Place) (p : ℕ)
      → w.phase p ≡ asked
      → Step (goes_on p) w (record w { phase = with_phase w p removed })
  binds :
      (w : Place) (p : ℕ)
      → w.phase p ≡ removed
      → w.socket ≡ none
      → Step (goes_on p) w (record { socket = some p; phase = with_phase w p serving })
  fails :
      (w : Place) (p q : ℕ)
      → w.phase p ≡ removed
      → w.socket ≡ some q
      → Step (goes_on p) w (record w { phase = with_phase w p bind_failed })
  ends : (w : Place) (p : ℕ) → Step (stops p) w (record w { phase = with_phase w p away })

-- Some steps, none of which is the end of `p` or a connection missed.
pub data StepsUnder (p : ℕ) (w : Place) : Place → Type 0 where
  none_yet : StepsUnder p w w
  later :
      {v u : Place}
      → StepsUnder p w v
      → (a : Act) → a ≢ stops p
      → ((q : ℕ) → a ≢ misses q)
      → Step a v u
      → StepsUnder p w u
