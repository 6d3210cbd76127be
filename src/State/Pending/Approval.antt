-- ===== src/State/Pending/Approval.antt =====
-- What an approval leaves behind, and that a dialling agent is on the list afterwards.
use egdod.Prelude.{
  ◌≡◌, ◌≢◌, refl, ap, Bool, true, false, not, List, [], ◌∷◌, Bytes, ◌==◌, bytes_eq, bytes_eq_iff,
  length, keep_if, Result, ok, err, arith, inl, inr, Bool-cases, Option-cases, length-keep_if-le,
  ◌||◌, ◌&&◌, sym, ◌∙◌,
}
use egdod.Proto.{Codec}
use egdod.State.Approved.{
  KeyText, Slot, absent, unreadable, StateError, approved, contains, collect, append_key, body_of,
  holds,
}
use egdod.State.Approved.Membership.{contains-append_key}
use egdod.State.Text.{lines}
use egdod.State.Pending.{
  PendingAgent, Files, Calls, pending, write_pending, forget_pending, approve, reread,
  and_then_true,
}
use egdod.State.Pending.Bounds.{Fresh}
use egdod.State.Pending.History.{pending-holds, Pending-cases}

module _ (json : Codec (List PendingAgent)) (keys : KeyText) where
  write_pending-eq-ok :
      (c : Calls) (l : List PendingAgent) (f : Files)
      → (write_pending json keys c l f).1 ≡ ok tt
      → (pending json keys (write_pending json keys c l f).0.pending_file ≡ ok l)
        × ((write_pending json keys c l f).0.approved_file ≡ f.approved_file)
  unfolding write_pending
  write_pending-eq-ok c l f h = elim (Option-cases (json.encode l)) [
    | inl e ↦ absurd (ground (arith, e))
    | inr (b, e) ↦ elim (Bool-cases c.pending_ok) [
      | inr no_write ↦ absurd (ground (arith, e, no_write))
      | inl written ↦ simp (e, write_pending, written) (pending-holds json keys l b e, refl)
    ]
  ]

  Fresh-forgotten :
      (k : Bytes) (l : List PendingAgent) → Fresh k (keep_if (λ p. not (bytes_eq p.pubkey k)) l)
  Fresh-forgotten k [] = tt
  Fresh-forgotten k (p ∷ l) = elim (Bool-cases (bytes_eq p.pubkey k)) [
    | inl e ↦ rw e (Fresh-forgotten k l)
    | inr e ↦ rw e ((λ s. cc ((bytes_eq_iff p.pubkey k).1 s, e)), Fresh-forgotten k l)
  ]

  keep_if_same :
      (t : PendingAgent → Bool) (l : List PendingAgent)
      → length (keep_if t l) ≡ length l
      → keep_if t l ≡ l
  keep_if_same t [] h = refl
  keep_if_same t (p ∷ l) h = elim (Bool-cases (t p)) [
    | inl e ↦ rw e (ap (λ (r : List PendingAgent). p ∷ r) (keep_if_same t l (ground (arith, e))))
    | inr e ↦ absurd (ground (arith, e, length-keep_if-le t l))
  ]

  -- What `forget_pending` guarantees when it succeeds.
  abbrev Forgotten : Bytes → Files → Files → Type 0
  Forgotten key f f' =
      (f'.approved_file ≡ f.approved_file)
      × ((l : List PendingAgent) × (pending json keys f'.pending_file ≡ ok l)
          × Fresh (keys.print key) l)

  forget_pending-Forgotten :
      (c : Calls) (key : Bytes) (f : Files)
      → (forget_pending json keys c key f).1 ≡ ok tt
      → Forgotten key f (forget_pending json keys c key f).0
  unfolding forget_pending
  forget_pending-Forgotten c key f h =
      elim (Pending-cases json keys (pending json keys f.pending_file)) [
        | inl (e, bad) ↦ absurd (ground (arith, bad))
        | inr (l, read) ↦
            let keeps : PendingAgent → Bool = λ p. not (bytes_eq p.pubkey (keys.print key)) in
            elim (Bool-cases (length (keep_if keeps l) == length l)) [
              | inl same ↦
                  let all_kept = keep_if_same keeps l (ground (arith, same)) in
                  rw (read, forget_pending, same)
                    (refl, (l, read, rw all_kept at (Fresh-forgotten (keys.print key) l)))
              | inr fewer ↦
                  let (now, before) =
                    write_pending-eq-ok c (keep_if keeps l) f
                      (rw (read, forget_pending, fewer) at h) in
                  rw (read, forget_pending, fewer)
                    (before, (keep_if keeps l, now, Fresh-forgotten (keys.print key) l))
            ]
      ]

  -- The set of keys that a file holds.
  abbrev pub HoldsSet : Slot → List Bytes → Type 0
  HoldsSet s set = approved keys s ≡ ok set

  -- The old keys, if the second read gave them, and this one.
  abbrev pub Approves : Calls → Bytes → Files → List Bytes → Type 0
  Approves c key f' set =
      (set' : List Bytes) × (approved keys f'.approved_file ≡ ok set')
      × ((j : Bytes) → contains set' j ≡ ((c.reread_ok && contains set j) || bytes_eq key j))

  and_then-eq-true :
      (x : Files × Result StateError (Unit {0}))
      → (and_then_true json keys x).1 ≡ ok true
      → (x.1 ≡ ok tt) × ((and_then_true json keys x).0 ≡ x.0)
  and_then-eq-true (f, ok tt) h = (refl, refl)
  and_then-eq-true (f, err e) h = cc

  and_then-ne-false :
      (x : Files × Result StateError (Unit {0})) → (and_then_true json keys x).1 ≢ ok false
  and_then-ne-false (f, ok tt) h = cc
  and_then-ne-false (f, err e) h = cc

  -- `approve` answers true where the key was not in the set before. The file read back then gives
  -- this key with the set as it was, where the second read of the file succeeded, and this key alone
  -- where that read failed; and the waiting list no longer has the key.
  pub approve-eq-true :
      (c : Calls) (key : Bytes) (f : Files) (set : List Bytes)
      → approved keys f.approved_file ≡ ok set
      → (approve json keys c key f).1 ≡ ok true
      → (contains set key ≡ false)
        × Approves c key (approve json keys c key f).0 set
        × ((l : List PendingAgent) × (pending json keys (approve json keys c key f).0.pending_file
              ≡ ok l)
            × Fresh (keys.print key) l)
  unfolding approve
  approve-eq-true c key f set read h = elim (Bool-cases c.dir_ok) [
    | inr no_dir ↦ absurd (ground (arith, no_dir))
    | inl has_dir ↦ elim (Bool-cases (contains set key)) [
      | inl there ↦ absurd (ground (arith, has_dir, read, there))
      | inr anew ↦ elim (Bool-cases c.approved_ok) [
        | inr no_write ↦ absurd (ground (arith, has_dir, read, anew, no_write))
        | inl written ↦
            let f' : Files = record f {
              approved_file = holds (append_key keys (reread json keys c f.approved_file) key);
            } in
            let whole : approve json keys c key f
                ≡ and_then_true json keys (forget_pending json keys c key f') =
              simp (has_dir, approve, read, anew, written) refl in
            let (done, same) =
              and_then-eq-true (forget_pending json keys c key f') (rw whole at h) in
            let (kept, gone) = forget_pending-Forgotten c key f' done in
            rw (whole, same) (anew, added f set read _ kept, gone)
      ]
    ]
  ]
    where
      set_of :
          (s : Slot) (set : List Bytes)
          → approved keys s ≡ ok set
          → set ≡ collect keys (lines (body_of s))
      set_of absent set e = unfold approved collect lines in cc
      set_of unreadable set e = unfold approved in cc
      set_of (holds b) set e = unfold approved in cc

      old :
          (f : Files) (set : List Bytes)
          → approved keys f.approved_file ≡ ok set
          → (j : Bytes)
          → contains (collect keys (lines (reread json keys c f.approved_file))) j
            ≡ (c.reread_ok && contains set j)
      old f set read j = elim (Bool-cases c.reread_ok) [
        | inl again ↦ rw again (ap (λ l. contains l j) (sym (set_of f.approved_file set read)))
        | inr fails ↦ rw fails (unfold collect lines in refl)
      ]

      added :
          (f : Files) (set : List Bytes)
          → approved keys f.approved_file ≡ ok set
          → (s : Slot) → s ≡ holds (append_key keys (reread json keys c f.approved_file) key)
          → (set' : List Bytes) × (approved keys s ≡ ok set')
            × ((j : Bytes) → contains set' j ≡ ((c.reread_ok && contains set j) || bytes_eq key j))
      added f set read s e =
          let b : Bytes = reread json keys c f.approved_file in
          (
            collect keys (lines (append_key keys b key)),
            rw e (unfold approved in refl),
            λ j.
                contains-append_key keys b key j ∙ ap (λ x. x || bytes_eq key j) (old f set read j),
          )

  -- `approve` answers false for a key of the set, and then no file changed.
  approve-eq-false :
      (c : Calls) (key : Bytes) (f : Files) (set : List Bytes)
      → approved keys f.approved_file ≡ ok set
      → (approve json keys c key f).1 ≡ ok false
      → (contains set key ≡ true) × ((approve json keys c key f).0 ≡ f)
  unfolding approve
  approve-eq-false c key f set read h = elim (Bool-cases c.dir_ok) [
    | inr no_dir ↦ absurd (ground (arith, no_dir))
    | inl has_dir ↦ elim (Bool-cases (contains set key)) [
      | inl there ↦ (there, ground (arith, has_dir, read, there))
      | inr anew ↦ elim (Bool-cases c.approved_ok) [
        | inr no_write ↦ absurd (ground (arith, has_dir, read, anew, no_write))
        | inl written ↦
            let f' : Files = record f {
              approved_file = holds (append_key keys (reread json keys c f.approved_file) key);
            } in
            absurd (
              and_then-ne-false (forget_pending json keys c key f')
                (simp (has_dir, approve, read, anew, written) at h))
      ]
    ]
  ]
