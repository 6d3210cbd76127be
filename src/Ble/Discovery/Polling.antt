-- ===== src/Ble/Discovery/Polling.antt =====
-- The waiting that both searches share: that it ends, and with what.
use egdod.Prelude.{
  ℕ, ◌+◌, ◌*◌, ◌≤◌, ◌<◌, ◌≡◌, refl, some, Bool, false, List, [], ◌∷◌, ltb, length, Result, ok, err,
  Bool-cases, inl, inr, arith, ◌⊎◌,
}
use mathlib.Core.Path.{subst}
use native.Mathlib.Nat.{mul-suc}
use egdod.Ble.Discovery.{poll}

-- The rounds come no sooner than `now`, with a pause of `gap` after each.
abbrev pub Paced : {E A : Type 0} → ℕ → ℕ → List (ℕ × Result E A) → Type 0
Paced gap now [] = Unit {0}
Paced gap now ((t, r) ∷ rounds) = (now ≤ t) × Paced gap (t + gap) rounds

pub poll-ends_from :
    {E A : Type 0} (may_pass : E → Bool) (deadline gap now : ℕ) (rounds : List (ℕ × Result E A))
    → Paced gap now rounds
    → now < deadline + gap
    → deadline + gap ≤ now + gap * length rounds
    → (r : Result E A) × (poll may_pass deadline rounds ≡ some r)
unfolding poll
poll-ends_from may_pass deadline gap now [] paced early late = absurd (omega arith)
poll-ends_from may_pass deadline gap now ((t, ok a) ∷ rounds) paced early late = (ok a, refl)
poll-ends_from may_pass deadline gap now ((t, err e) ∷ rounds) paced early late =
    elim (Bool-cases (may_pass e)) [
      | inr final ↦ (err e, rw final)
      | inl passes ↦ elim (Bool-cases (ltb t deadline)) [
        | inr over ↦ (err e, rw (passes, over))
        | inl before ↦
            let (r, ends) =
              poll-ends_from may_pass deadline gap (t + gap) rounds paced.1 (ground (arith, before))
                (omega (arith, late, paced.0, mul-suc gap (length rounds))) in
            (r, rw (passes, before) ends)
      ]
    ]

abbrev IsLast : {E A : Type 0} → (E → Bool) → ℕ → ℕ → Result E A → Type 0
IsLast may_pass deadline t (ok a) = Unit {0}
IsLast may_pass deadline t (err e) = (may_pass e ≡ false) ⊎ (deadline ≤ t)

-- One of the rounds answered this, and where it is an error, it does not pass or it came at the
-- deadline or later.
abbrev pub EndsWith : {E A : Type 0} → (E → Bool) → ℕ → Result E A → List (ℕ × Result E A) → Type 0
EndsWith may_pass deadline r [] = ⊥
EndsWith may_pass deadline r ((t, s) ∷ rounds) =
    ((s ≡ r) × IsLast may_pass deadline t r) ⊎ EndsWith may_pass deadline r rounds

pub poll-EndsWith :
    {E A : Type 0} (may_pass : E → Bool) (deadline : ℕ) (rounds : List (ℕ × Result E A))
    (r : Result E A)
    → poll may_pass deadline rounds ≡ some r
    → EndsWith may_pass deadline r rounds
unfolding poll
poll-EndsWith may_pass deadline [] r h = cc h
poll-EndsWith may_pass deadline ((t, ok a) ∷ rounds) r h =
    subst (λ (r : Result _ _). EndsWith may_pass deadline r ((t, ok a) ∷ rounds)) (cc h)
      (inl (refl, tt))
poll-EndsWith may_pass deadline ((t, err e) ∷ rounds) r h = elim (Bool-cases (may_pass e)) [
  | inr final ↦
      subst (λ (r : Result _ _). EndsWith may_pass deadline r ((t, err e) ∷ rounds))
        (cc (rw final at h)) (inl (refl, inl final))
  | inl passes ↦ elim (Bool-cases (ltb t deadline)) [
    | inr over ↦
        subst (λ (r : Result _ _). EndsWith may_pass deadline r ((t, err e) ∷ rounds))
          (cc (rw (passes, over) at h)) (inl (refl, inr (ground (arith, over))))
    | inl before ↦ inr (poll-EndsWith may_pass deadline rounds r (rw (passes, before) at h))
  ]
]
