-- ===== src/State/Pending/History.antt =====
-- The waiting list over any history of calls, and the entry that a call has just made.
use egdod.Prelude.{
  ℕ, ◌≡◌, refl, some, Bool, not, List, [], ◌∷◌, Bytes, ◌==◌, bytes_eq, length, keep_if, Result, ok,
  err, arith, inl, inr, ◌⊎◌, Bool-cases, Option-cases, length-keep_if-le,
}
use egdod.Proto.{Codec}
use egdod.State.Approved.{KeyText, StateError, approved, contains, append_key, holds}
use egdod.State.Pending.{
  reread, PendingAgent, Files, Calls, seen, keep_recent, pending, write_pending, record_pending,
  forget_pending, approve, and_then_true,
}
use egdod.State.Pending.Bounds.{
  IsPending, length-keep_recent-le, Distinct-keep_recent, Distinct-seen, Distinct-keep_if,
}

module _ (json : Codec (List PendingAgent)) (keys : KeyText) where
  -- Whatever list the file holds, it is short and without repetition.
  abbrev pub FileIsPending : Files → Type 0
  FileIsPending f = (l : List PendingAgent) → pending json keys f.pending_file ≡ ok l → IsPending l

  abbrev pub Keeps : Files → Type 0
  Keeps f = FileIsPending f

  pub pending-holds :
      (l : List PendingAgent) (b : Bytes)
      → json.encode l ≡ some b
      → pending json keys (holds b) ≡ ok l
  unfolding pending
  pending-holds l b e = rw (json.decode-encode l b e, pending)

  write_pending-Keeps :
      (c : Calls) (l : List PendingAgent) (f : Files)
      → IsPending l
      → Keeps f
      → Keeps (write_pending json keys c l f).0
  unfolding write_pending
  write_pending-Keeps c l f good h = elim (Option-cases (json.encode l)) [
    | inl e ↦ rw (e, write_pending) h
    | inr (b, e) ↦ elim (Bool-cases c.pending_ok) [
      | inr no_write ↦ rw (e, write_pending, no_write) h
      | inl written ↦
          rw (e, write_pending, written) (λ l' e'. rw (same l' b (pending-holds l b e) e') good)
    ]
  ]
    where
      same :
          (l' : List PendingAgent) (b : Bytes)
          → pending json keys (holds b) ≡ ok l
          → pending json keys (holds b) ≡ ok l'
          → l' ≡ l
      same l' b p q = cc

  pub Pending-cases :
      (r : Result StateError (List PendingAgent))
      → ((e : StateError) × (r ≡ err e)) ⊎ ((l : List PendingAgent) × (r ≡ ok l))
  Pending-cases (err e) = inl (e, refl)
  Pending-cases (ok l) = inr (l, refl)

  seen-IsPending :
      (now : ℕ) (text : Bytes) (l : List PendingAgent)
      → IsPending l
      → IsPending (keep_recent (seen now text l))
  seen-IsPending now text l h = (
    Distinct-keep_recent _ (Distinct-seen now text l h.0),
    length-keep_recent-le (seen now text l),
  )

  record_pending-Keeps :
      (c : Calls) (key : Bytes) (f : Files) → Keeps f → Keeps (record_pending json keys c key f).0
  unfolding record_pending
  record_pending-Keeps c key f h = elim (Bool-cases c.dir_ok) [
    | inr no_dir ↦ rw (no_dir, record_pending) h
    | inl has_dir ↦ elim (Pending-cases (pending json keys f.pending_file)) [
      | inl (e, bad) ↦ simp (has_dir, record_pending, bad) (λ l e'. cc)
      | inr (l, read) ↦
          simp (has_dir, record_pending, read)
            (write_pending-Keeps c _ f (seen-IsPending c.now (keys.print key) l (h l read)) h)
    ]
  ]

  forget_pending-Keeps :
      (c : Calls) (key : Bytes) (f : Files) → Keeps f → Keeps (forget_pending json keys c key f).0
  unfolding forget_pending
  forget_pending-Keeps c key f h = elim (Pending-cases (pending json keys f.pending_file)) [
    | inl (e, bad) ↦ rw (bad, forget_pending) h
    | inr (l, read) ↦
        let keeps : PendingAgent → Bool = λ p. not (bytes_eq p.pubkey (keys.print key)) in
        let good : IsPending (keep_if keeps l) = (
          Distinct-keep_if keeps l (h l read).0,
          omega (arith, length-keep_if-le keeps l, (h l read).1),
        ) in
        elim (Bool-cases (length (keep_if keeps l) == length l)) [
          | inl same ↦ rw (read, forget_pending, same) h
          | inr fewer ↦ rw (read, forget_pending, fewer) (write_pending-Keeps c _ f good h)
        ]
  ]

  and_then_true-state :
      (x : Files × Result StateError (Unit {0})) → (and_then_true json keys x).0 ≡ x.0
  and_then_true-state (f, ok _) = refl
  and_then_true-state (f, err e) = refl

  pub Approved-cases :
      (r : Result StateError (List Bytes))
      → ((e : StateError) × (r ≡ err e)) ⊎ ((l : List Bytes) × (r ≡ ok l))
  Approved-cases (err e) = inl (e, refl)
  Approved-cases (ok l) = inr (l, refl)

  approve-Keeps :
      (c : Calls) (key : Bytes) (f : Files) → Keeps f → Keeps (approve json keys c key f).0
  unfolding approve
  approve-Keeps c key f h = elim (Bool-cases c.dir_ok) [
    | inr no_dir ↦ rw (no_dir, approve) h
    | inl has_dir ↦ elim (Approved-cases (approved keys f.approved_file)) [
      | inl (e, bad) ↦ simp (has_dir, approve, bad) h
      | inr (set, read) ↦ elim (Bool-cases (contains set key)) [
        | inl there ↦ simp (has_dir, approve, read, there) h
        | inr anew ↦ elim (Bool-cases c.approved_ok) [
          | inr no_write ↦ simp (has_dir, approve, read, anew, no_write) h
          | inl written ↦
              let f' : Files = record f {
                approved_file = holds (append_key keys (reread json keys c f.approved_file) key);
              } in
              simp (has_dir, approve, read, anew, written, and_then_true-state)
                (forget_pending-Keeps c key f' h)
        ]
      ]
    ]
  ]

-- What the controller does to the two files: a stranger dials, or an agent is forgotten or approved.
pub data Event : Type 0 where
  dialled : Calls → Bytes → Event
  forgotten : Calls → Bytes → Event
  approves : Calls → Bytes → Event

module _ (json : Codec (List PendingAgent)) (keys : KeyText) where
  unfoldable pub handle : Event → Files → Files
  handle (dialled c key) f = (record_pending json keys c key f).0
  handle (forgotten c key) f = (forget_pending json keys c key f).0
  handle (approves c key) f = (approve json keys c key f).0

  unfoldable pub history : List Event → Files → Files
  unfolding handle
  history [] f = f
  history (e ∷ es) f = history es (handle e f)

  handle-FileIsPending :
      (e : Event) (f : Files) → FileIsPending json keys f → FileIsPending json keys (handle e f)
  unfolding handle
  handle-FileIsPending (dialled c key) f h = record_pending-Keeps json keys c key f h
  handle-FileIsPending (forgotten c key) f h = forget_pending-Keeps json keys c key f h
  handle-FileIsPending (approves c key) f h = approve-Keeps json keys c key f h

  -- After any history of dials, removals and approvals, failed writes included, a list that the
  -- pending file holds has at most 256 entries and no key twice, if that held at the start.
  pub history-FileIsPending :
      (es : List Event) (f : Files)
      → FileIsPending json keys f
      → FileIsPending json keys (history es f)
  unfolding history
  history-FileIsPending [] f h = h
  history-FileIsPending (e ∷ es) f h =
      history-FileIsPending es (handle e f) (handle-FileIsPending e f h)
