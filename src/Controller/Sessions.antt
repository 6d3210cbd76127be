-- ===== src/Controller/Sessions.antt =====
-- Which connection holds the slot of an agent.
use mathlib.Core.Path.{subst}
use egdod.Prelude.{
  ℕ, ◌≡◌, ◌⊎◌, refl, sym, ap, ◌∙◌, Option, none, some, true, false, List, [], ◌∷◌, Bytes, ◌==◌,
  if◌then◌else◌, bytes_eq, bytes_eq_iff, bytes_eq_refl, any_of, All, Result, ok, err, inl, inr,
  Bool-cases, Option-cases, arith,
}
use egdod.Controller.{
  Session, SessionMap, get, insert, remove, Event, opened, closed, forget, step, run, matches,
  matching, pick, PickError, none_connected, none_matches, many_match, peers,
}

-- A key that is another than `p` and is `q`: so `p` and `q` are apart.
other : (k p q : Bytes) → bytes_eq k p ≡ false → bytes_eq k q ≡ true → bytes_eq p q ≡ false
other k p q e e' = elim (Bool-cases (bytes_eq p q)) [
  | inr apart ↦ apart
  | inl one ↦ absurd (cc ((bytes_eq_iff p q).0 one, e, e'))
]

pub get-insert :
    (m : SessionMap) (p q : Bytes) (s : Session)
    → get (insert m p s) q ≡ (if bytes_eq p q then some s else get m q)
unfolding get insert
get-insert [] p q s = refl
get-insert ((k, t) ∷ m) p q s = elim (Bool-cases (bytes_eq k p)) [
  | inl e ↦ elim (Bool-cases (bytes_eq k q)) [
    | inl e' ↦ rw (e, e', ap (λ (x : Bytes). bytes_eq x q) (sym ((bytes_eq_iff k p).0 e)), e')
    | inr e' ↦ rw (e, e', ap (λ (x : Bytes). bytes_eq x q) (sym ((bytes_eq_iff k p).0 e)), e')
  ]
  | inr e ↦ elim (Bool-cases (bytes_eq k q)) [
    | inr e' ↦ rw (e, e') (get-insert m p q s)
    | inl e' ↦ rw (e, e', other k p q e e')
  ]
]

get-remove :
    (m : SessionMap) (p q : Bytes) → get (remove m p) q ≡ (if bytes_eq p q then none else get m q)
unfolding get remove
get-remove [] p q = ground arith
get-remove ((k, t) ∷ m) p q = elim (Bool-cases (bytes_eq k p)) [
  | inl e ↦
      rw (e, get-remove m p q, ap (λ (x : Bytes). bytes_eq x q) ((bytes_eq_iff k p).0 e))
        (ground arith)
  | inr e ↦ elim (Bool-cases (bytes_eq k q)) [
    | inr e' ↦ rw (e, e') (get-remove m p q)
    | inl e' ↦ rw (e, e', other k p q e e')
  ]
]

-- The connection of an agent by the events alone, the latest first: the one opened last, unless it
-- was closed since.
abbrev pub latest : List ℕ → List Event → Bytes → Option Session
latest gone [] peer = none
latest gone (opened p s ∷ es) peer =
    let rest = latest gone es peer in
    if bytes_eq p peer then (if any_of (λ i. i == s.id) gone then none else some s) else rest
latest gone (closed p i ∷ es) peer =
    let with_i = latest (i ∷ gone) es peer in
    let rest = latest gone es peer in if bytes_eq p peer then with_i else rest

-- A session that is left out if it is one of those.
abbrev unless : List ℕ → Option Session → Option Session
unless gone none = none
unless gone (some s) = if any_of (λ i. i == s.id) gone then none else some s

get-forget_same :
    (m : SessionMap) (p : Bytes) (i : ℕ) → get (forget m p i) p ≡ unless (i ∷ []) (get m p)
unfolding forget
get-forget_same m p i = elim (Option-cases (get m p)) [
  | inl free ↦ rw (free, forget) (free)
  | inr (s, held) ↦ elim (Bool-cases (s.id == i)) [
    | inl j ↦ simp (held, forget, j, get-remove m p p, bytes_eq_refl p) (ground (arith, j))
    | inr j ↦ simp (held, forget, j) (ground (arith, j))
  ]
]

get-forget :
    (m : SessionMap) (p q : Bytes) (i : ℕ)
    → get (forget m p i) q ≡ (if bytes_eq p q then unless (i ∷ []) (get m q) else get m q)
unfolding forget
get-forget m p q i = elim (Bool-cases (bytes_eq p q)) [
  | inl e ↦ rw e (
      subst (λ (r : Bytes). get (forget m p i) r ≡ unless (i ∷ []) (get m r))
        ((bytes_eq_iff p q).0 e) (get-forget_same m p i))
  | inr e ↦ elim (Option-cases (get m p)) [
    | inl free ↦ rw (e, free, forget)
    | inr (s, held) ↦ elim (Bool-cases (s.id == i)) [
      | inl j ↦ simp (held, forget, j, get-remove m p q, e) refl
      | inr j ↦ simp (held, forget, j, e) refl
    ]
  ]
]

unless-unless :
    (i : ℕ) (gone : List ℕ) (o : Option Session)
    → unless gone (unless (i ∷ []) o) ≡ unless (i ∷ gone) o
unless-unless i gone none = refl
unless-unless i gone (some s) = ground arith

unless_none : (o : Option Session) → unless [] o ≡ o
unless_none none = refl
unless_none (some s) = refl

get-run-unless :
    (gone : List ℕ) (es : List Event) (peer : Bytes)
    → unless gone (get (run es) peer) ≡ latest gone es peer
unfolding run step
get-run-unless gone [] peer = unfold get in refl
get-run-unless gone (opened p s ∷ es) peer = elim (Bool-cases (bytes_eq p peer)) [
  | inl e ↦ rw (get-insert (run es) p peer s, e)
  | inr e ↦ rw (get-insert (run es) p peer s, e) (get-run-unless gone es peer)
]
get-run-unless gone (closed p i ∷ es) peer = elim (Bool-cases (bytes_eq p peer)) [
  | inl e ↦
      rw (get-forget (run es) p peer i, e)
        (unless-unless i gone (get (run es) peer) ∙ get-run-unless (i ∷ gone) es peer)
  | inr e ↦ rw (get-forget (run es) p peer i, e) (get-run-unless gone es peer)
]

-- After any events, in any order, the slot of an agent holds the connection that it opened last,
-- unless that one was closed since; that an older one is noticed to be closed evicts nothing.
pub get-run : (es : List Event) (peer : Bytes) → get (run es) peer ≡ latest [] es peer
get-run es peer = sym (unless_none (get (run es) peer)) ∙ get-run-unless [] es peer

abbrev pub Among : Bytes × Session → SessionMap → Type 0
Among x [] = ⊥
Among x (y ∷ m) = (y ≡ x) ⊎ Among x m

abbrev picks : Bytes × Session → Result PickError (Bytes × Session)
picks x = ok x

module _ (lower print : Bytes → Bytes) where
  abbrev pub IsOnlyMatch : Bytes → Bytes × Session → SessionMap → Type 0
  IsOnlyMatch selector x m =
      Among x m
      × (matches lower print selector x.0 ≡ true)
      × All (λ (y : Bytes × Session). (matches lower print selector y.0 ≡ false) ⊎ (y ≡ x)) m

  None-match :
      (m : SessionMap) (selector : Bytes) (x : Bytes × Session)
      → matching lower print m selector ≡ []
      → All (λ (y : Bytes × Session). (matches lower print selector y.0 ≡ false) ⊎ (y ≡ x)) m
  unfolding matching
  None-match [] selector x h = tt
  None-match ((k, s) ∷ m) selector x h = elim (Bool-cases (matches lower print selector k)) [
    | inl e ↦ absurd (ground (arith, e))
    | inr e ↦ (inl e, None-match m selector x (rw e at h))
  ]

  matching-single :
      (m : SessionMap) (selector : Bytes) (x : Bytes × Session)
      → matching lower print m selector ≡ x ∷ []
      → IsOnlyMatch selector x m
  unfolding matching
  matching-single [] selector x h = absurd (cc h)
  matching-single ((k, s) ∷ m) selector x h = elim (Bool-cases (matches lower print selector k)) [
    | inl e ↦
        let same : (k, s) ≡ x = head_eq (rw e at h) in
        let none_left : matching lower print m selector ≡ [] = tail_eq (rw e at h) in
        (inl same, rw (← same) e, (inr same, None-match m selector x none_left))
    | inr e ↦
        let (there, fits, only) = matching-single m selector x (rw e at h) in
        (inr there, fits, (inl e, only))
  ]
    where
      head_eq : (k, s) ∷ matching lower print m selector ≡ x ∷ [] → (k, s) ≡ x
      head_eq e = cc

      tail_eq :
          (k, s) ∷ matching lower print m selector ≡ x ∷ [] → matching lower print m selector ≡ []
      tail_eq e = cc

  -- A selector that picks a session picks one that is connected and matches it, and no other
  -- connected agent does.
  pub pick-IsOnlyMatch :
      (m : SessionMap) (selector : Bytes) (x : Bytes × Session)
      → pick lower print m selector ≡ ok x
      → IsOnlyMatch selector x m
  unfolding pick
  pick-IsOnlyMatch m selector x h = found (matching lower print m selector) refl
    where
      found : (r : SessionMap) → matching lower print m selector ≡ r → IsOnlyMatch selector x m
      found [] e = absurd (nothing m (rw (e, pick) at h))
        where
          nothing :
              (m : SessionMap)
              → (elim m [ [] ↦ err none_connected | y ∷ ys ↦ err none_matches ]) ≡ picks x
              → ⊥
          nothing [] p = cc
          nothing (y ∷ ys) p = cc
      found (y ∷ []) e = matching-single m selector x (e ∙ single (rw (e, pick) at h))
        where
          single : picks y ≡ picks x → y ∷ [] ≡ x ∷ []
          single p = cc
      found (y ∷ z ∷ more) e = absurd (many (rw (e, pick) at h))
        where
          many : err (many_match (peers lower print (y ∷ z ∷ more))) ≡ picks x → ⊥
          many p = cc
