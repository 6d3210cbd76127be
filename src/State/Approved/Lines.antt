-- ===== src/State/Approved/Lines.antt =====
-- How the approved list's text falls into lines, and what is left of one once it is trimmed.
use egdod.Prelude.{
  ℕ, ◌≡◌, refl, ap, ◌∙◌, Bool, true, false, ◌&&◌, List, [], ◌∷◌, ◌++◌, Bytes, ◌==◌, if◌then◌else◌,
  All, ◌⊎◌, inl, inr, arith, Bool-cases,
}
use egdod.State.Text.{
  is_whitespace, trim_start, trim_end, before_hash, take_field, lines, ends_with_lf, cons_first,
  starts_lf, keep_char,
}
use egdod.State.Approved.{IsPlain}

-- One character in front of a text whose lines are known.
abbrev step : ℕ → Bool → List Bytes → List Bytes
step c lf ls = if c == 10 then [] ∷ ls else if c == 13 && lf then ls else cons_first c ls

lines-cons : (c : ℕ) (s : Bytes) → lines (c ∷ s) ≡ step c (starts_lf s) (lines s)
unfolding lines
lines-cons c s = refl

step-append :
    (c : ℕ) (lf : Bool) (l : Bytes) (ls ms : List Bytes)
    → step c lf ((l ∷ ls) ++ ms) ≡ step c lf (l ∷ ls) ++ ms
step-append c lf l ls ms = ground arith

step_some :
    (c : ℕ) (lf : Bool) (l : Bytes) (ls : List Bytes)
    → (m : Bytes) × (ms : List Bytes) × (step c lf (l ∷ ls) ≡ m ∷ ms)
step_some c lf l ls = elim (Bool-cases (c == 10)) [
  | inl e ↦ ([], l ∷ ls, rw e)
  | inr e ↦ elim (Bool-cases (c == 13 && lf)) [
    | inl e' ↦ (l, ls, rw (e, e'))
    | inr e' ↦ (c ∷ l, ls, rw (e, e'))
  ]
]

-- A text that ends a line, or is empty, is cut apart from what follows.
abbrev pub IsWhole : Bytes → Type 0
IsWhole b = (b ≡ []) ⊎ (ends_with_lf b ≡ true)

lines_some :
    (b : Bytes) → ends_with_lf b ≡ true → (l : Bytes) × (ls : List Bytes) × (lines b ≡ l ∷ ls)
lines_some [] h = cc
lines_some (c ∷ []) h = ([], [], rw (lines-cons c [], h) (unfold lines in refl))
lines_some (c ∷ d ∷ s) h =
    let (l, ls, e) = lines_some (d ∷ s) h in
    rw (lines-cons c (d ∷ s), e) (step_some c (d == 10) l ls)

pub lines-append : (b t : Bytes) → IsWhole b → lines (b ++ t) ≡ lines b ++ lines t
lines-append [] t h = unfold lines in refl
lines-append (c ∷ []) t (inl e) = cc
lines-append (c ∷ []) t (inr h) = rw (lines-cons c [], lines-cons c t, h) (unfold lines in refl)
lines-append (c ∷ d ∷ s) t (inl e) = cc
lines-append (c ∷ d ∷ s) t (inr h) =
    let (l, ls, e) = lines_some (d ∷ s) h in
    rw (lines-cons c (d ∷ (s ++ t)), lines-cons c (d ∷ s), lines-append (d ∷ s) t (inr h), e)
      (step-append c (d == 10) l ls (lines t))

-- The same lines, but that the last lost a carriage return at its end.
abbrev pub Closed : List Bytes → List Bytes → Type 0
Closed closed before =
    (closed ≡ before)
    ⊎ ((ls : List Bytes) × (l : Bytes) × (before ≡ ls ++ ((l ++ (13 ∷ [])) ∷ []))
        × (closed ≡ ls ++ (l ∷ [])))

step-Closed :
    (c : ℕ) (lf : Bool) (closed before : List Bytes)
    → Closed closed before
    → Closed (step c lf closed) (step c lf before)
step-Closed c lf closed before (inl e) = inl (rw e)
step-Closed c lf closed before (inr ([], l, e, e')) = elim (Bool-cases (c == 10)) [
  | inl h ↦ inr ([] ∷ [], l, rw (e, h), rw (e', h))
  | inr h ↦ elim (Bool-cases (c == 13 && lf)) [
    | inl k ↦ inr ([], l, rw (e, h, k), rw (e', h, k))
    | inr k ↦ inr ([], c ∷ l, rw (e, h, k), rw (e', h, k))
  ]
]
step-Closed c lf closed before (inr (m ∷ ls, l, e, e')) =
    inr (step c lf (m ∷ ls), l, rw e (step-append c lf m ls _), rw e' (step-append c lf m ls _))

-- Ending the last line changes no line but for a carriage return at its end.
pub lines-Closed :
    (c : ℕ) (b : Bytes)
    → ends_with_lf (c ∷ b) ≡ false
    → Closed (lines ((c ∷ b) ++ (10 ∷ []))) (lines (c ∷ b))
lines-Closed c [] h = elim (Bool-cases (c == 13)) [
  | inl k ↦ inr ([], [], unfold lines in ground arith, unfold lines in ground arith)
  | inr k ↦ inl (unfold lines in ground arith)
]
lines-Closed c (d ∷ s) h =
    rw (lines-cons c (d ∷ s), lines-cons c (d ∷ (s ++ (10 ∷ []))))
      (step-Closed c (d == 10) _ _ (lines-Closed d s h))

trim_end-append :
    (s : Bytes) (w : ℕ) → is_whitespace w ≡ true → trim_end (s ++ (w ∷ [])) ≡ trim_end s
unfolding trim_end
trim_end-append [] w h = rw h
trim_end-append (c ∷ s) w h = rw (trim_end-append s w h)

abbrev Grows : Bytes → Bytes → ℕ → Type 0
Grows s t w = (t ≡ s) ⊎ (t ≡ s ++ (w ∷ []))

pub before_hash-append :
    (s : Bytes) (w : ℕ) → (w == 35) ≡ false → Grows (before_hash s) (before_hash (s ++ (w ∷ []))) w
unfolding before_hash
before_hash-append [] w h = inr (rw h)
before_hash-append (c ∷ s) w h = ground (arith, before_hash-append s w h)

trim_start-append :
    (s : Bytes) (w : ℕ)
    → is_whitespace w ≡ true
    → Grows (trim_start s) (trim_start (s ++ (w ∷ []))) w
unfolding trim_start
trim_start-append [] w h = inl (rw h)
trim_start-append (c ∷ s) w h = elim (Bool-cases (is_whitespace c)) [
  | inl e ↦ rw e (trim_start-append s w h)
  | inr e ↦ rw e (inr refl)
]

Grows-trim_end :
    (s t : Bytes) (w : ℕ) → is_whitespace w ≡ true → Grows s t w → trim_end t ≡ trim_end s
Grows-trim_end s t w h (inl e) = ap trim_end e
Grows-trim_end s t w h (inr e) = ap trim_end e ∙ trim_end-append s w h

pub trimmed-append :
    (s t : Bytes) (w : ℕ)
    → is_whitespace w ≡ true
    → Grows s t w
    → trim_end (trim_start t) ≡ trim_end (trim_start s)
trimmed-append s t w h (inl e) = ap (λ (x : Bytes). trim_end (trim_start x)) e
trimmed-append s t w h (inr e) =
    ap (λ (x : Bytes). trim_end (trim_start x)) e
    ∙ Grows-trim_end (trim_start s) _ w h (trim_start-append s w h)

keep_plain : (c : ℕ) (p : Bytes) → is_whitespace c ≡ false → keep_char c p ≡ c ∷ p
keep_plain c [] h = rw h
keep_plain c (d ∷ p) h = refl

-- A printed key alone on a line is cut nowhere.
pub plain_line :
    (p : Bytes)
    → All IsPlain p
    → (before_hash p ≡ p) × (trim_start p ≡ p) × (trim_end p ≡ p) × (take_field p ≡ p)
unfolding before_hash trim_start trim_end take_field
plain_line [] h = (refl, refl, refl, refl)
plain_line (c ∷ p) h =
    let (b, s, e, f) = plain_line p h.1 in
    (
      ground (arith, h.0, b),
      ground (arith, h.0),
      rw e (keep_plain c p h.0.0),
      ground (arith, h.0, f),
    )

pub plain-line_feed : (p : Bytes) → All IsPlain p → lines (p ++ (10 ∷ [])) ≡ p ∷ []
plain-line_feed [] h = unfold lines in refl
plain-line_feed (c ∷ p) h =
    rw (lines-cons c (p ++ (10 ∷ [])), plain-line_feed p h.1) (ground (arith, h.0))
