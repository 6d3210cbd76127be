-- ===== src/Controller/Canary.antt =====
-- When the canary asks for a restart, and what status.json says.
use egdod.Prelude.{
  ℕ, ◌+◌, ◌%◌, ◌^◌, ◌≤◌, ◌<◌, ◌≡◌, refl, Bytes, Option, none, some, Bool, true, false, ◌||◌, List,
  [], ◌∷◌, leb, arith, Bool-cases, inl, inr,
}
use egdod.Controller.{Probe, reached, unreachable, Watch, round, canary}

-- As many failures in a row, after some before, reach the limit.
abbrev pub has_row : ℕ → ℕ → List Probe → Bool
has_row limit so_far [] = false
has_row limit so_far (reached now path ∷ ps) = has_row limit 0 ps
has_row limit so_far (unreachable msg ∷ ps) =
    leb limit (so_far + 1) || has_row limit (so_far + 1) ps

-- The canary asks for a restart exactly if so many probes fail in a row, and its u32 does not wrap
-- before that: the count before is below a limit that a u32 holds.
pub canary-has_row :
    (restart_after : ℕ) (ps : List Probe) (w : Watch)
    → restart_after < 2 ^ 32
    → 0 < restart_after
    → w.failures < restart_after
    → (canary restart_after ps w).1 ≡ has_row restart_after w.failures ps
unfolding canary round
canary-has_row restart_after [] w h pos below = refl
canary-has_row restart_after (reached now path ∷ ps) w h pos below =
    canary-has_row restart_after ps _ h pos pos
canary-has_row restart_after (unreachable msg ∷ ps) w h pos below =
    elim (Bool-cases (leb restart_after (w.failures + 1))) [
      | inl e ↦ ground (arith, e)
      | inr e ↦
          let small : (w.failures + 1) % 4294967296 ≡ w.failures + 1 = omega arith in
          rw (small, e) (canary-has_row restart_after ps _ h pos (ground (arith, e)))
    ]

-- The count of status.json is the loop's, it is 0 with no error told while the endpoint is said to
-- be dialable, and positive while it is said not to be.
abbrev pub Tells : Option Bool → ℕ → Option Bytes → Type 0
Tells none failures error = Unit {0}
Tells (some true) failures error = (failures ≡ 0) × (error ≡ none)
Tells (some false) failures error = 0 < failures

abbrev pub IsConsistent : Watch → Type 0
IsConsistent w =
    (w.health.consecutive_probe_failures ≡ w.failures)
    × Tells w.health.dialable w.failures w.health.last_probe_error

-- After any probes status.json is consistent, if it was at the start, and the count stays within
-- the limit, for a limit that a u32 holds.
canary-IsConsistent :
    (restart_after : ℕ) (ps : List Probe) (w : Watch)
    → restart_after < 2 ^ 32
    → w.failures < restart_after
    → IsConsistent w
    → IsConsistent (canary restart_after ps w).0
      × ((canary restart_after ps w).0.failures ≤ restart_after)
unfolding canary round
canary-IsConsistent restart_after [] w h below good = (good, omega arith)
canary-IsConsistent restart_after (reached now path ∷ ps) w h below good =
    canary-IsConsistent restart_after ps _ h (omega arith) (refl, (refl, refl))
canary-IsConsistent restart_after (unreachable msg ∷ ps) w h below good =
    let small : (w.failures + 1) % 4294967296 ≡ w.failures + 1 = omega arith in
    elim (Bool-cases (leb restart_after (w.failures + 1))) [
      | inl e ↦ rw (small, e) ((refl, omega arith), omega arith)
      | inr e ↦
          rw (small, e)
            (canary-IsConsistent restart_after ps _ h (ground (arith, e)) (refl, omega arith))
    ]
