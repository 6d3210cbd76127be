-- ===== src/Net/Changes.antt =====
-- The reports of a session's path.
use egdod.Prelude.{
  ℕ, zero, suc, ◌≤◌, ◌≡◌, ◌≢◌, refl, true, false, List, [], ◌∷◌, length, Bool-cases, inl, inr,
  arith,
}
use egdod.Proto.{PathKind}
use egdod.Net.{OpenPath, PathChange, path_changes, session_path_report, kind_eq}

-- Each change starts where the one before it ended, and is one.
abbrev pub IsChain : PathKind → List PathChange → Type 0
IsChain k [] = Unit {0}
IsChain k (c ∷ cs) = (c.was ≡ k) × (c.now ≢ k) × IsChain c.now cs

-- The kind that a reader of the changes holds to be the present one.
abbrev pub label : PathKind → List PathChange → PathKind
label k [] = k
label k (c ∷ cs) = label c.now cs

-- The kind of the path at the last event.
abbrev pub present : PathKind → List (List OpenPath) → PathKind
present k [] = k
present k (ps ∷ events) = present (session_path_report ps).0 events

kind_eq-same : (a b : PathKind) → kind_eq a b ≡ true → a ≡ b
kind_eq-same a b h = ground arith

kind_eq_refl : (a : PathKind) → kind_eq a a ≡ true
kind_eq_refl a = ground arith

kind_eq-other : (a b : PathKind) → kind_eq a b ≡ false → a ≢ b
kind_eq-other a b h e = cc (kind_eq_refl a, e, h)

-- While the receiver takes the changes, they form a chain from the first kind, each to another kind
-- than it starts from, and a reader of them has the kind of the path at the last event.
path_changes-IsChain :
    (room : ℕ) (last : PathKind) (events : List (List OpenPath))
    → length events ≤ room
    → IsChain last (path_changes room last events)
      × (label last (path_changes room last events) ≡ present last events)
unfolding path_changes
path_changes-IsChain room last [] h = (tt, refl)
path_changes-IsChain zero last (ps ∷ events) h = absurd (omega arith)
path_changes-IsChain (suc room) last (ps ∷ events) h =
    elim (Bool-cases (kind_eq (session_path_report ps).0 last)) [
      | inl e ↦
          rw e
            (rw (kind_eq-same _ last e) (path_changes-IsChain (suc room) last events (omega arith)))
      | inr e ↦
          let (chain, end) =
            path_changes-IsChain room (session_path_report ps).0 events (omega arith) in
          rw e ((refl, kind_eq-other _ last e, chain), end)
    ]
