-- ===== src/Agent/Backoff.antt =====
-- The delays between dials.
use egdod.Prelude.{ℕ, suc, ◌*◌, ◌^◌, ◌≡◌, refl, ap, List, [], ◌∷◌, arith}
use egdod.Agent.{Outcome, pending, ended, dial_failed, next_dial, delays, at_most, short_retry}
use native.Mathlib.Numerals.{unary_clauses}

-- The delays by the count of dials that failed in a row: 1, 2, 4, 8, 16, then 30 seconds.
abbrev pub schedule : ℕ → List Outcome → List ℕ
schedule fails [] = []
schedule fails (pending ∷ os) = 5 ∷ schedule 0 os
schedule fails (ended ∷ os) = 1 ∷ schedule 0 os
schedule fails (dial_failed ∷ os) = at_most (2 ^ fails) 30 ∷ schedule (suc fails) os

doubled : (fails : ℕ) → at_most (at_most (2 ^ fails) 30 * 2) 30 ≡ at_most (2 ^ suc fails) 30
doubled fails = simp unary_clauses (ground arith)

delays-schedule_from :
    (fails : ℕ) (os : List Outcome) → delays (at_most (2 ^ fails) 30) os ≡ schedule fails os
unfolding delays next_dial
delays-schedule_from fails [] = refl
delays-schedule_from fails (pending ∷ os) = ap (λ (l : List ℕ). 5 ∷ l) (delays-schedule_from 0 os)
delays-schedule_from fails (ended ∷ os) = ap (λ (l : List ℕ). 1 ∷ l) (delays-schedule_from 0 os)
delays-schedule_from fails (dial_failed ∷ os) =
    rw doubled
      (ap (λ (l : List ℕ). at_most (2 ^ fails) 30 ∷ l) (delays-schedule_from (suc fails) os))

-- Whatever the dials give, the delay after the n-th failure in a row is 2 ^ (n - 1) seconds or 30,
-- whichever is less; a connection that came about, approved or not, starts the count anew.
delays-schedule : (os : List Outcome) → delays short_retry os ≡ schedule 0 os
delays-schedule os = delays-schedule_from 0 os
