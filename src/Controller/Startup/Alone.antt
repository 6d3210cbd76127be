-- ===== src/Controller/Startup/Alone.antt =====
-- When one process alone serves a state directory.
use mathlib.Core.Path.{subst}
use egdod.Prelude.{
  ℕ, ◌≡◌, ◌≢◌, ◌⊎◌, refl, sym, ap, ◌∙◌, none, some, Bool, true, false, ◌==◌, if◌then◌else◌,
  Bool-cases, Option-cases, inl, inr, arith,
}
use egdod.Controller.Startup.{
  Phase, away, asked, removed, serving, turned_away, Place, with_phase, is_serving, answers, Act,
  goes_on, misses, stops, Step, asks, overlooks, removes, keeps, binds, fails, ends, StepsUnder,
  none_yet, later,
}

-- A process that has not started, or was turned away.
abbrev pub is_apart : Phase → Bool
is_apart away = true
is_apart turned_away = true
is_apart _ = false

abbrev pub Apart : ℕ → Place → Type 0
Apart p w = (q : ℕ) → (q ≡ p) ⊎ (is_apart (w.phase q) ≡ true)

-- `p` serves at the socket, and every other process is away or was turned away.
abbrev pub ServesAlone : ℕ → Place → Type 0
ServesAlone p w = (w.socket ≡ some p) × (w.phase p ≡ serving) × Apart p w

-- A phase that is not apart belongs to `p` alone.
only : (p q : ℕ) (w : Place) (ph : Phase) → Apart p w → w.phase q ≡ ph → is_apart ph ≡ false → q ≡ p
only p q w ph apart h not_apart = elim (apart q) [
  | inl same ↦ same
  | inr is ↦ absurd (cc (is, ap is_apart h, not_apart))
]

with_phase-other : (p q : ℕ) (w : Place) (ph : Phase) → q ≢ p → with_phase w q ph p ≡ w.phase p
with_phase-other p q w ph ne = ground (arith, ne)

with_phase-Apart :
    (p q : ℕ) (w : Place) (ph : Phase)
    → is_apart ph ≡ true
    → Apart p w
    → (r : ℕ) → (r ≡ p) ⊎ (is_apart (with_phase w q ph r) ≡ true)
with_phase-Apart p q w ph is apart r = elim (Bool-cases (q == r)) [
  | inl here ↦ inr (rw here is)
  | inr away_from ↦ rw away_from (apart r)
]

Step-ServesAlone :
    (p : ℕ) (a : Act) (w v : Place)
    → a ≢ stops p
    → ((q : ℕ) → a ≢ misses q)
    → Step a w v
    → ServesAlone p w
    → ServesAlone p v
unfolding answers
Step-ServesAlone p _ _ _ ne no_miss (asks w q h) (held, serves, apart) =
    let other : q ≢ p = λ same. cc (ap w.phase same, h, serves) in
    let heard : answers w ≡ true = rw (held, answers, serves) in
    (held, with_phase-other p q w _ other ∙ serves, with_phase-Apart p q w _ (rw heard) apart)
Step-ServesAlone p _ _ _ ne heard (overlooks w q h) (held, serves, apart) = absurd (heard q refl)
Step-ServesAlone p _ _ _ ne no_miss (removes w q h) (held, serves, apart) =
    absurd (cc (ap w.phase (only p q w asked apart h refl), h, serves))
Step-ServesAlone p _ _ _ ne no_miss (keeps w q h) (held, serves, apart) =
    absurd (cc (ap w.phase (only p q w asked apart h refl), h, serves))
Step-ServesAlone p _ _ _ ne no_miss (binds w q h free) (held, serves, apart) = cc (free, held)
Step-ServesAlone p _ _ _ ne no_miss (fails w q r h taken) (held, serves, apart) =
    absurd (cc (ap w.phase (only p q w removed apart h refl), h, serves))
Step-ServesAlone p _ _ _ ne no_miss (ends w q) (held, serves, apart) =
    let other : q ≢ p = λ same. ne (ap stops same) in
    (held, with_phase-other p q w away other ∙ serves, with_phase-Apart p q w away refl apart)

-- A controller that serves at the socket while every other process is away keeps it until it ends,
-- if each process that asks reaches it: whatever starts in the meantime is turned away, and none of it
-- removes the socket. A connection that fails for another reason counts as none serving, and is not
-- among these steps.
pub StepsUnder-ServesAlone :
    (p : ℕ) (w v : Place) → ServesAlone p w → StepsUnder p w v → ServesAlone p v
StepsUnder-ServesAlone p w _ h none_yet = h
StepsUnder-ServesAlone p w _ h (later {v} {u} steps a ne no_miss step) =
    Step-ServesAlone p a v u ne no_miss step (StepsUnder-ServesAlone p w v h steps)

with_phase-same : (p : ℕ) (w : Place) (ph : Phase) → with_phase w p ph p ≡ ph
with_phase-same p w ph = ground arith

still_quiet :
    (p : ℕ) (w : Place) (ph : Phase)
    → is_serving ph ≡ false
    → answers w ≡ false
    → answers (record w { phase = with_phase w p ph }) ≡ false
unfolding answers
still_quiet p w ph silent quiet = elim (Option-cases w.socket) [
  | inl free ↦ rw (free, answers)
  | inr (s, held) ↦ elim (Bool-cases (p == s)) [
    | inl here ↦ rw (held, answers, here) silent
    | inr elsewhere ↦ rw (held, answers, elsewhere) (rw (held, answers) at quiet)
  ]
]

-- A process that asks and gets no answer.
unanswered :
    (p r : ℕ) (w v : Place)
    → StepsUnder r w v
    → v.phase p ≡ away
    → answers v ≡ false
    → StepsUnder r w (record v { phase = with_phase v p asked })
unanswered p r w v steps idle quiet =
    subst
      (λ (b : Bool).
        StepsUnder r w (record v { phase = with_phase v p (if b then turned_away else asked) }))
      quiet (later steps (goes_on p) (λ e. cc) (λ q e. cc) (asks v p idle))

-- A process that asked takes the socket, whoever holds it.
takes :
    (p r : ℕ) (w v : Place)
    → StepsUnder r w v
    → v.phase p ≡ asked
    → StepsUnder r w (record {
      socket = some p;
      phase = with_phase (record { socket = none; phase = with_phase v p removed }) p serving;
    })
takes p r w v steps h =
    let v' : Place = record { socket = none; phase = with_phase v p removed } in
    later (later steps (goes_on p) (λ e. cc) (λ q e. cc) (removes v p h)) (goes_on p) (λ e. cc)
      (λ q e. cc) (binds v' p (with_phase-same p v removed) refl)

-- Two controllers that start at once, where none answers, can both come to serve: each asks before
-- the other has bound the socket, and the later one removes the socket of the earlier.
pub StepsUnder-both :
    (p q r : ℕ) (w : Place)
    → p ≢ q
    → w.phase p ≡ away
    → w.phase q ≡ away
    → answers w ≡ false
    → (v : Place) × StepsUnder r w v
      × (v.phase p ≡ serving)
      × (v.phase q ≡ serving)
      × (v.socket ≡ some q)
StepsUnder-both p q r w ne pa qa quiet =
    let w1 : Place = record w { phase = with_phase w p asked } in
    let w2 : Place = record w1 { phase = with_phase w1 q asked } in
    let w3 : Place = record { socket = none; phase = with_phase w2 p removed } in
    let w4 : Place = record { socket = some p; phase = with_phase w3 p serving } in
    let w5 : Place = record { socket = none; phase = with_phase w4 q removed } in
    let w6 : Place = record { socket = some q; phase = with_phase w5 q serving } in
    let en : q ≢ p = λ e. ne (sym e) in
    let q1 : w1.phase q ≡ away = with_phase-other q p w asked ne ∙ qa in
    let p2 : w2.phase p ≡ asked = with_phase-other p q w1 asked en ∙ with_phase-same p w asked in
    let p4 : w4.phase p ≡ serving = with_phase-same p w3 serving in
    let q4 : w4.phase q ≡ asked =
      with_phase-other q p w3 serving ne
      ∙ with_phase-other q p w2 removed ne
      ∙ with_phase-same q w1 asked in
    let p6 : w6.phase p ≡ serving =
      with_phase-other p q w5 serving en ∙ with_phase-other p q w4 removed en ∙ p4 in
    let both_asked : StepsUnder r w w2 =
      unanswered q r w w1 (unanswered p r w w none_yet pa quiet) q1
        (still_quiet p w asked refl quiet) in
    let p_serves : StepsUnder r w w4 = takes p r w w2 both_asked p2 in
    (w6, takes q r w w4 p_serves q4, p6, with_phase-same q w5 serving, refl)

-- One connection that fails for another reason is enough to break it: whoever made it takes the socket
-- of the controller that serves, in the three steps of its start, and both serve.
pub Step-overlooked :
    (p q : ℕ) (w : Place)
    → q ≢ p
    → ServesAlone p w
    → w.phase q ≡ away
    → (w1 : Place) × (w2 : Place) × (v : Place) × Step (misses q) w w1
      × Step (goes_on q) w1 w2
      × Step (goes_on q) w2 v
      × (v.phase p ≡ serving)
      × (v.phase q ≡ serving)
      × (v.socket ≡ some q)
Step-overlooked p q w ne (held, serves, apart) idle =
    let w1 : Place = record w { phase = with_phase w q asked } in
    let w2 : Place = record { socket = none; phase = with_phase w1 q removed } in
    let v : Place = record { socket = some q; phase = with_phase w2 q serving } in
    (
      w1,
      w2,
      v,
      overlooks w q idle,
      removes w1 q (with_phase-same q w asked),
      binds w2 q (with_phase-same q w1 removed) refl,
      with_phase-other p q w2 serving ne
          ∙ with_phase-other p q w1 removed ne
          ∙ with_phase-other p q w asked ne
          ∙ serves,
      with_phase-same q w2 serving,
      refl,
    )
