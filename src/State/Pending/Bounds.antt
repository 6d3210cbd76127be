-- ===== src/State/Pending/Bounds.antt =====
-- The list of waiting agents stays short and without repetition, whoever dials.
use egdod.Prelude.{
  ℕ, zero, suc, ◌-◌, ◌≤◌, ◌≡◌, ◌≢◌, refl, sym, Bool, List, [], ◌∷◌, Bytes, leb, ltb, bytes_eq,
  bytes_eq_iff, length, drop, keep_if, All, arith, inl, inr, Bool-cases, length-drop,
}
use egdod.State.Pending.{PendingAgent, pending_limit, seen, insert_seen, sort_seen, keep_recent}

length-insert_seen :
    (p : PendingAgent) (l : List PendingAgent) → length (insert_seen p l) ≡ suc (length l)
unfolding insert_seen
length-insert_seen p [] = refl
length-insert_seen p (q ∷ l) = ground (arith, length-insert_seen p l)

length-sort_seen : (l : List PendingAgent) → length (sort_seen l) ≡ length l
unfolding sort_seen
length-sort_seen [] = refl
length-sort_seen (p ∷ l) = omega (arith, length-insert_seen p (sort_seen l), length-sort_seen l)

-- However long the list was, at most 256 entries are kept.
pub length-keep_recent-le : (l : List PendingAgent) → length (keep_recent l) ≤ pending_limit
unfolding keep_recent
length-keep_recent-le l =
    ground (arith, length-sort_seen l, length-drop (length l - pending_limit) (sort_seen l))

-- No two entries have one key.
abbrev pub Fresh : Bytes → List PendingAgent → Type 0
Fresh k = All (λ p. p.pubkey ≢ k)

abbrev pub Distinct : List PendingAgent → Type 0
Distinct [] = Unit {0}
Distinct (p ∷ l) = Fresh p.pubkey l × Distinct l

Fresh-seen :
    (now : ℕ) (text k : Bytes) (l : List PendingAgent)
    → text ≢ k
    → Fresh k l
    → Fresh k (seen now text l)
unfolding seen
Fresh-seen now text k [] ne h = (ne, tt)
Fresh-seen now text k (p ∷ l) ne h = elim (Bool-cases (bytes_eq p.pubkey text)) [
  | inl e ↦ rw e (h.0, h.1)
  | inr e ↦ rw e (h.0, Fresh-seen now text k l ne h.1)
]

pub Distinct-seen :
    (now : ℕ) (text : Bytes) (l : List PendingAgent) → Distinct l → Distinct (seen now text l)
unfolding seen
Distinct-seen now text [] h = (tt, tt)
Distinct-seen now text (p ∷ l) h = elim (Bool-cases (bytes_eq p.pubkey text)) [
  | inl e ↦ rw e (h.0, h.1)
  | inr e ↦
      let other : text ≢ p.pubkey = λ q. cc ((bytes_eq_iff p.pubkey text).1 (sym q), e) in
      rw e (Fresh-seen now text p.pubkey l other h.0, Distinct-seen now text l h.1)
]

Fresh-insert_seen :
    (k : Bytes) (p : PendingAgent) (l : List PendingAgent)
    → p.pubkey ≢ k
    → Fresh k l
    → Fresh k (insert_seen p l)
unfolding insert_seen
Fresh-insert_seen k p [] ne h = (ne, tt)
Fresh-insert_seen k p (q ∷ l) ne h = elim (Bool-cases (leb p.last_seen q.last_seen)) [
  | inl e ↦ rw e (ne, h)
  | inr e ↦ rw e (h.0, Fresh-insert_seen k p l ne h.1)
]

Distinct-insert_seen :
    (p : PendingAgent) (l : List PendingAgent)
    → Fresh p.pubkey l
    → Distinct l
    → Distinct (insert_seen p l)
unfolding insert_seen
Distinct-insert_seen p [] f h = (tt, tt)
Distinct-insert_seen p (q ∷ l) f h = elim (Bool-cases (leb p.last_seen q.last_seen)) [
  | inl e ↦ rw e (f, h)
  | inr e ↦
      rw e (Fresh-insert_seen q.pubkey p l (λ s. f.0 (sym s)) h.0, Distinct-insert_seen p l f.1 h.1)
]

Fresh-sort_seen : (k : Bytes) (l : List PendingAgent) → Fresh k l → Fresh k (sort_seen l)
unfolding sort_seen
Fresh-sort_seen k [] h = tt
Fresh-sort_seen k (p ∷ l) h = Fresh-insert_seen k p (sort_seen l) h.0 (Fresh-sort_seen k l h.1)

Distinct-sort_seen : (l : List PendingAgent) → Distinct l → Distinct (sort_seen l)
unfolding sort_seen
Distinct-sort_seen [] h = tt
Distinct-sort_seen (p ∷ l) h =
    Distinct-insert_seen p (sort_seen l) (Fresh-sort_seen p.pubkey l h.0) (Distinct-sort_seen l h.1)

Distinct-drop : (n : ℕ) (l : List PendingAgent) → Distinct l → Distinct (drop n l)
Distinct-drop zero l h = h
Distinct-drop (suc n) [] h = tt
Distinct-drop (suc n) (p ∷ l) h = Distinct-drop n l h.1

Fresh-keep_if :
    (k : Bytes) (t : PendingAgent → Bool) (l : List PendingAgent)
    → Fresh k l
    → Fresh k (keep_if t l)
Fresh-keep_if k t [] h = tt
Fresh-keep_if k t (p ∷ l) h = elim (Bool-cases (t p)) [
  | inl e ↦ rw e (h.0, Fresh-keep_if k t l h.1)
  | inr e ↦ rw e (Fresh-keep_if k t l h.1)
]

pub Distinct-keep_if :
    (t : PendingAgent → Bool) (l : List PendingAgent) → Distinct l → Distinct (keep_if t l)
Distinct-keep_if t [] h = tt
Distinct-keep_if t (p ∷ l) h = elim (Bool-cases (t p)) [
  | inl e ↦ rw e (Fresh-keep_if p.pubkey t l h.0, Distinct-keep_if t l h.1)
  | inr e ↦ rw e (Distinct-keep_if t l h.1)
]

pub Distinct-keep_recent : (l : List PendingAgent) → Distinct l → Distinct (keep_recent l)
unfolding keep_recent
Distinct-keep_recent l h = elim (Bool-cases (ltb pending_limit (length l))) [
  | inl e ↦ rw e (Distinct-drop _ (sort_seen l) (Distinct-sort_seen l h))
  | inr e ↦ rw e h
]

abbrev pub IsPending : List PendingAgent → Type 0
IsPending l = Distinct l × (length l ≤ pending_limit)
