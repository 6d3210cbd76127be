-- ===== src/Cli/Psk.antt =====
-- The passphrase that a file holds.
use egdod.Prelude.{ℕ, ◌≡◌, refl, sym, ap, false, [], ◌∷◌, ◌++◌, Bytes, ◌==◌, ==_iff, any_of, arith}
use mathlib.Core.List.{append_assoc}
use egdod.Ble.{is_special}
use egdod.Cli.{strip_suffix, psk_of}

strip-append : (c : ℕ) (s : Bytes) → strip_suffix c (s ++ (c ∷ [])) ≡ s
unfolding strip_suffix
strip-append c [] = rw ((==_iff c c).1 refl) refl
strip-append c (x ∷ []) = rw ((==_iff c c).1 refl) refl
strip-append c (x ∷ y ∷ s) = ap (λ (b : Bytes). x ∷ b) (strip-append c (y ∷ s))

strip-none : (c : ℕ) (s : Bytes) → any_of (λ x. x == c) s ≡ false → strip_suffix c s ≡ s
unfolding strip_suffix
strip-none c [] h = refl
strip-none c (x ∷ []) h = ground (arith, h)
strip-none c (x ∷ y ∷ s) h = ap (λ (b : Bytes). x ∷ b) (strip-none c (y ∷ s) (ground (arith, h)))

no_break : (s : Bytes) → any_of is_special s ≡ false → any_of (λ x. x == 10) s ≡ false
no_break [] h = refl
no_break (x ∷ s) h = ground (arith, no_break s (ground (arith, h)), h)

no_return : (s : Bytes) → any_of is_special s ≡ false → any_of (λ x. x == 13) s ≡ false
no_return [] h = refl
no_return (x ∷ s) h = ground (arith, no_return s (ground (arith, h)), h)

-- A passphrase that the credentials may hold is read from its file as it is, whether the file ends
-- with it, with a line feed, or with a carriage return and a line feed.
psk_of-text :
    (psk : Bytes)
    → any_of is_special psk ≡ false
    → (psk_of psk ≡ psk)
      × (psk_of (psk ++ (10 ∷ [])) ≡ psk)
      × (psk_of (psk ++ (13 ∷ 10 ∷ [])) ≡ psk)
unfolding psk_of
psk_of-text psk plain =
    let feed = strip-none 10 psk (no_break psk plain) in
    let return = strip-none 13 psk (no_return psk plain) in
    (
      rw feed return,
      rw (strip-append 10 psk) return,
      rw (sym (append_assoc psk (13 ∷ []) (10 ∷ [])), strip-append 10 (psk ++ (13 ∷ [])))
          (strip-append 13 psk),
    )
