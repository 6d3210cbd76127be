-- ===== src/Ssh/Merge.antt =====
-- What a merge keeps, and that a rerun renews.
use egdod.Prelude.{
  ℕ, ◌≡◌, ◌≢◌, refl, sym, ap, ◌∙◌, some, Bool, true, false, not, ◌||◌, List, [], ◌∷◌, ◌++◌, Bytes,
  ◌==◌, bytes_eq, any_of, All, keep_if, map, arith, inl, inr, ◌⊎◌, Bool-cases, is_ascii_whitespace,
}
use egdod.State.Text.{cons_first, ends_with_lf}
use egdod.Ssh.{fields, carries, pieces, closed, copy_others, merge_authorized_keys}
use mathlib.Core.List.{append_assoc, append-nil}

-- No line feed.
abbrev pub IsOneLine : Bytes → Type 0
IsOneLine = All (λ c. (c == 10) ≡ false)

-- A line with its line feed.
abbrev IsEnded : Bytes → Type 0
IsEnded b = (l : Bytes) × IsOneLine l × (b ≡ l ++ (10 ∷ []))

ends_ended : (l : Bytes) → ends_with_lf (l ++ (10 ∷ [])) ≡ true
ends_ended [] = refl
ends_ended (c ∷ []) = refl
ends_ended (c ∷ d ∷ l) = ends_ended (d ∷ l)

closed-IsEnded : (b : Bytes) → IsEnded b → closed b ≡ b
closed-IsEnded b (l, h, e) = rw (e, ends_ended l)

pieces-line :
    (l t : Bytes) → IsOneLine l → pieces ((l ++ (10 ∷ [])) ++ t) ≡ (l ++ (10 ∷ [])) ∷ pieces t
unfolding pieces
pieces-line [] t h = refl
pieces-line (c ∷ l) t h = rw (h.0, pieces-line l t h.1)

pieces-ended : (b t : Bytes) → IsEnded b → pieces (b ++ t) ≡ b ∷ pieces t
pieces-ended b t (l, h, e) = rw e (pieces-line l t h)

-- A piece is a line with its line feed, or without.
abbrev IsPiece : Bytes → Type 0
IsPiece b = IsEnded b ⊎ IsOneLine b

not_ended : (b : Bytes) → IsOneLine b → ends_with_lf b ≡ false
not_ended [] h = refl
not_ended (c ∷ []) h = h.0
not_ended (c ∷ d ∷ b) h = not_ended (d ∷ b) h.1

closed-IsPiece : (b : Bytes) → IsPiece b → IsEnded (closed b)
closed-IsPiece b (inl ended) = rw (closed-IsEnded b ended) ended
closed-IsPiece b (inr one) = rw (not_ended b one) (b, one, refl)

IsPiece-cons : (c : ℕ) (b : Bytes) → (c == 10) ≡ false → IsPiece b → IsPiece (c ∷ b)
IsPiece-cons c b h (inl (l, one, e)) = inl (c ∷ l, (h, one), ap (λ (t : Bytes). c ∷ t) e)
IsPiece-cons c b h (inr one) = inr (h, one)

cons_first-IsPiece :
    (c : ℕ) (bs : List Bytes) → (c == 10) ≡ false → All IsPiece bs → All IsPiece (cons_first c bs)
cons_first-IsPiece c [] h all = (inr (h, tt), tt)
cons_first-IsPiece c (b ∷ bs) h all = (IsPiece-cons c b h all.0, all.1)

pieces-IsPiece : (s : Bytes) → All IsPiece (pieces s)
unfolding pieces
pieces-IsPiece [] = tt
pieces-IsPiece (c ∷ s) = elim (Bool-cases (c == 10)) [
  | inl e ↦ rw e (inl ([], tt, refl), pieces-IsPiece s)
  | inr e ↦ rw e (cons_first-IsPiece c (pieces s) e (pieces-IsPiece s))
]

-- A line feed at the end adds an empty field only.
fields_some : (s : Bytes) → (f : Bytes) × (fs : List Bytes) × (fields s ≡ f ∷ fs)
unfolding fields
fields_some [] = ([], [], refl)
fields_some (c ∷ s) = elim (Bool-cases (is_ascii_whitespace c)) [
  | inl e ↦ ([], fields s, rw e)
  | inr e ↦ let (f, fs, p) = fields_some s in (c ∷ f, fs, rw (e, p))
]

fields-append_lf : (s : Bytes) → fields (s ++ (10 ∷ [])) ≡ fields s ++ ([] ∷ [])
unfolding fields
fields-append_lf [] = refl
fields-append_lf (c ∷ s) = elim (Bool-cases (is_ascii_whitespace c)) [
  | inl e ↦ rw (e, fields-append_lf s)
  | inr e ↦ let (f, fs, p) = fields_some s in rw (e, fields-append_lf s, p)
]

any_of-append :
    (t : Bytes → Bool) (xs ys : List Bytes) → any_of t (xs ++ ys) ≡ (any_of t xs || any_of t ys)
any_of-append t [] ys = refl
any_of-append t (x ∷ xs) ys = ground (arith, any_of-append t xs ys)

nil-ne : (blob : Bytes) → blob ≢ [] → bytes_eq [] blob ≡ false
nil-ne [] h = absurd (h refl)
nil-ne (c ∷ b) h = refl

carries-closed : (blob b : Bytes) → blob ≢ [] → carries blob (closed b) ≡ carries blob b
unfolding carries
carries-closed blob b h = elim (Bool-cases (ends_with_lf b)) [
  | inl e ↦ rw e
  | inr e ↦
      rw
        (
          e,
          fields-append_lf b,
          any_of-append (λ f. bytes_eq f blob) (fields b) ([] ∷ []),
          nil-ne blob h,
        )
        (ground arith)
]

-- The lines of others, each with its line feed.
abbrev pub kept : Bytes → List Bytes → List Bytes
kept blob bs = map closed (keep_if (λ b. not (carries blob b)) bs)

pieces-copy_others :
    (blob t : Bytes) (bs : List Bytes)
    → All IsPiece bs
    → pieces (copy_others blob bs ++ t) ≡ kept blob bs ++ pieces t
unfolding copy_others
pieces-copy_others blob t [] h = refl
pieces-copy_others blob t (b ∷ bs) h = elim (Bool-cases (carries blob b)) [
  | inl e ↦ rw e (pieces-copy_others blob t bs h.1)
  | inr e ↦ rw (
    e,
    append_assoc (closed b) (copy_others blob bs) t,
    pieces-ended (closed b) (copy_others blob bs ++ t) (closed-IsPiece b h.0),
    pieces-copy_others blob t bs h.1,
  )
]

-- The merged file has the lines of the old one that do not carry the key, in their order and each
-- ended by a line feed, then the new line, if that is one line.
pub pieces-merge_authorized_keys :
    (existing blob line : Bytes)
    → IsOneLine line
    → pieces (merge_authorized_keys (some existing) blob line)
      ≡ kept blob (pieces existing) ++ ((line ++ (10 ∷ [])) ∷ [])
unfolding merge_authorized_keys
pieces-merge_authorized_keys existing blob line h =
    pieces-copy_others blob (line ++ (10 ∷ [])) (pieces existing) (pieces-IsPiece existing)
    ∙ ap (λ (ps : List Bytes). kept blob (pieces existing) ++ ps) last
  where
    last : pieces (line ++ (10 ∷ [])) ≡ (line ++ (10 ∷ [])) ∷ []
    last =
        ap pieces (sym (append-nil (line ++ (10 ∷ []))))
        ∙ pieces-line line [] h
        ∙ unfold pieces in refl

-- Copying once more changes nothing, and drops a last line that carries the key.
copy_others-kept :
    (blob : Bytes) (bs rest : List Bytes)
    → blob ≢ []
    → All IsPiece bs
    → copy_others blob (kept blob bs ++ rest) ≡ copy_others blob bs ++ copy_others blob rest
unfolding copy_others
copy_others-kept blob [] rest ne h = refl
copy_others-kept blob (b ∷ bs) rest ne h = elim (Bool-cases (carries blob b)) [
  | inl e ↦ rw e (copy_others-kept blob bs rest ne h.1)
  | inr e ↦ rw (
    e,
    carries-closed blob b ne,
    e,
    closed-IsEnded (closed b) (closed-IsPiece b h.0),
    append_assoc (closed b) (copy_others blob bs) (copy_others blob rest),
    copy_others-kept blob bs rest ne h.1,
  )
]

copy_others_dropped : (blob b : Bytes) → carries blob b ≡ true → copy_others blob (b ∷ []) ≡ []
unfolding copy_others
copy_others_dropped blob b h = rw h

-- A rerun renews: merging a second line of the same key into the merged file gives what merging it
-- into the old file gives, if the first line is one line and carries the key, which is not empty.
merge_authorized_keys-merge_authorized_keys :
    (existing blob line line' : Bytes)
    → blob ≢ []
    → IsOneLine line
    → carries blob line ≡ true
    → merge_authorized_keys (some (merge_authorized_keys (some existing) blob line)) blob line'
      ≡ merge_authorized_keys (some existing) blob line'
merge_authorized_keys-merge_authorized_keys existing blob line line' ne one has =
    unfold merge_authorized_keys in ap (λ (t : Bytes). t ++ (line' ++ (10 ∷ []))) renewed
  where
    ended : carries blob (line ++ (10 ∷ [])) ≡ true
    ended = rw (not_ended line one) at (carries-closed blob line ne) ∙ has

    renewed :
        copy_others blob (pieces (merge_authorized_keys (some existing) blob line))
        ≡ copy_others blob (pieces existing)
    renewed =
        ap (copy_others blob) (pieces-merge_authorized_keys existing blob line one)
        ∙ copy_others-kept blob (pieces existing) _ ne (pieces-IsPiece existing)
        ∙ ap (λ (t : Bytes). copy_others blob (pieces existing) ++ t)
            (copy_others_dropped blob _ ended)
        ∙ append-nil (copy_others blob (pieces existing))
