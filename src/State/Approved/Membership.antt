-- ===== src/State/Approved/Membership.antt =====
-- Approving a key adds that key and nothing else, whatever the file holds.
use egdod.Prelude.{
  ℕ, ◌≡◌, refl, sym, ap, ◌∙◌, some, true, false, not, ◌&&◌, ◌||◌, List, [], ◌∷◌, ◌++◌, Bytes,
  bytes_eq, ◌⊎◌, inl, inr, arith, Bool-cases, Option-cases,
}
use egdod.State.Text.{before_hash, first_field, lines, ends_with_lf}
use egdod.State.Approved.{KeyText, line_key, collect, append_key, contains}
use egdod.State.Approved.Lines.{
  IsWhole, lines-append, Closed, lines-Closed, before_hash-append, trimmed-append, plain_line,
  plain-line_feed,
}

module _ (keys : KeyText) where
  line_key-append_cr : (l : Bytes) → line_key keys (l ++ (13 ∷ [])) ≡ line_key keys l
  unfolding line_key
  line_key-append_cr l =
      rw (trimmed-append (before_hash l) _ 13 refl (before_hash-append l 13 refl), line_key)

  collect-append :
      (ls ms : List Bytes) → collect keys (ls ++ ms) ≡ collect keys ls ++ collect keys ms
  unfolding collect
  collect-append [] ms = refl
  collect-append (l ∷ ls) ms = elim (Option-cases (line_key keys l)) [
    | inl e ↦ rw (e, collect) (collect-append ls ms)
    | inr (k, e) ↦ rw (e, collect) (ap (λ (ks : List Bytes). k ∷ ks) (collect-append ls ms))
  ]

  collect-single :
      (l m : Bytes)
      → line_key keys l ≡ line_key keys m
      → collect keys (l ∷ []) ≡ collect keys (m ∷ [])
  unfolding collect
  collect-single l m e = rw (e, collect)

  collect-Closed :
      (closed before : List Bytes)
      → Closed closed before
      → collect keys closed ≡ collect keys before
  collect-Closed closed before (inl e) = ap (collect keys) e
  collect-Closed closed before (inr (ls, l, e, e')) =
      rw (e, e', collect-append, collect-append)
        (ap (λ (ks : List Bytes). collect keys ls ++ ks)
          (collect-single l (l ++ (13 ∷ [])) (sym (line_key-append_cr l))))

  line_key-print : (k : Bytes) → line_key keys (keys.print k) ≡ some k
  unfolding line_key first_field
  line_key-print k = elim (print_cases (keys.print k) refl) [
    | inl e ↦ absurd (keys.print_some k e)
    | inr (c, s, e) ↦
        let (b, st, en, f) = plain_line (c ∷ s) (rw e at (keys.print-plain k)) in
        rw (e, b, st, en, line_key, st, f) (rw e at (keys.parse-print k))
  ]
    where
      print_cases :
          (p : Bytes)
          → keys.print k ≡ p
          → (keys.print k ≡ []) ⊎ ((c : ℕ) × (s : Bytes) × (keys.print k ≡ c ∷ s))
      print_cases [] e = inl e
      print_cases (c ∷ s) e = inr (c, s, e)

  -- The file with the key appended: the lines that were there keep their keys.
  collect-append_key :
      (body key : Bytes)
      → collect keys (lines (append_key keys body key)) ≡ collect keys (lines body) ++ (key ∷ [])
  collect-append_key body key = elim (Bool-cases (ends_with_lf body)) [
    | inl h ↦ whole body (inr h) (ground (arith, h))
    | inr h ↦ broken body h
  ]
    where
      last : collect keys (lines (keys.print key ++ (10 ∷ []))) ≡ key ∷ []
      last =
          rw (plain-line_feed (keys.print key) (keys.print-plain key))
            (unfold collect in rw (line_key-print key, collect))

      joined :
          (b : Bytes)
          → IsWhole b
          → collect keys (lines (b ++ (keys.print key ++ (10 ∷ []))))
            ≡ collect keys (lines b) ++ (key ∷ [])
      joined b w =
          rw (lines-append b (keys.print key ++ (10 ∷ [])) w, collect-append)
            (ap (λ (ks : List Bytes). collect keys (lines b) ++ ks) last)

      whole :
          (b : Bytes)
          → IsWhole b
          → (not (bytes_eq b []) && not (ends_with_lf b)) ≡ false
          → collect keys (lines (append_key keys b key)) ≡ collect keys (lines b) ++ (key ∷ [])
      whole b w e = unfold append_key in rw e (joined b w)

      ends : (c : ℕ) (b : Bytes) → ends_with_lf ((c ∷ b) ++ (10 ∷ [])) ≡ true
      ends c [] = refl
      ends c (d ∷ b) = ends d b

      broken :
          (b : Bytes)
          → ends_with_lf b ≡ false
          → collect keys (lines (append_key keys b key)) ≡ collect keys (lines b) ++ (key ∷ [])
      broken [] h = whole [] (inl refl) refl
      broken (c ∷ b) h =
          unfold append_key in
          rw h (
            joined ((c ∷ b) ++ (10 ∷ [])) (inr (ends c b))
            ∙ ap (λ (ks : List Bytes). ks ++ (key ∷ [])) (collect-Closed _ _ (lines-Closed c b h)))

  contains-append :
      (xs ys : List Bytes) (j : Bytes) → contains (xs ++ ys) j ≡ (contains xs j || contains ys j)
  contains-append [] ys j = refl
  contains-append (x ∷ xs) ys j = ground (arith, contains-append xs ys j)

  -- Exactly the given key joins the keys of the file, whatever the file held before: comments, junk
  -- and a last line without its end change nothing.
  pub contains-append_key :
      (body key j : Bytes)
      → contains (collect keys (lines (append_key keys body key))) j
        ≡ (contains (collect keys (lines body)) j || bytes_eq key j)
  contains-append_key body key j =
      rw collect-append_key
        (contains-append (collect keys (lines body)) (key ∷ []) j ∙ ground arith)
