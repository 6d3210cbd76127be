-- ===== src/Ble/Credentials.antt =====
-- The text of the credentials, and the file that they are put in.
use egdod.Prelude.{
  ℕ, ◌≡◌, ◌≢◌, refl, ap, ◌∙◌, false, none, some, List, [], ◌∷◌, ◌++◌, Bytes, ◌==◌, codes, length,
  any_of, All, ok, err, arith, Bool-cases, Option-cases, inl, inr, ◌⊎◌, length-append,
}
use egdod.Hex.{hex, hex_digit}
use egdod.Disk.{FilePath, Disk, store, try_remove-cases, rename-store}
use egdod.State.Text.{lines}
use egdod.Ble.{
  network_conf, psk_line, is_special, is_raw, BleError, InstallCalls, private_file, fill, tmp_of,
  install, creating,
}

abbrev IsNoBreak : ℕ → Type 0
IsNoBreak c = ((c == 10) ≡ false) × ((c == 13) ≡ false)

lines-line : (p t : Bytes) → All IsNoBreak p → lines (p ++ (10 ∷ t)) ≡ p ∷ lines t
unfolding lines
lines-line [] t h = refl
lines-line (c ∷ p) t h = rw (h.0.0, h.0.1, lines-line p t h.1)

append-IsNoBreak : (p q : Bytes) → All IsNoBreak p → All IsNoBreak q → All IsNoBreak (p ++ q)
append-IsNoBreak [] q h h' = h'
append-IsNoBreak (c ∷ p) q h h' = (h.0, append-IsNoBreak p q h.1 h')

plain-IsNoBreak : (p : Bytes) → any_of is_special p ≡ false → All IsNoBreak p
plain-IsNoBreak [] h = tt
plain-IsNoBreak (c ∷ p) h = ((ground arith, ground arith), plain-IsNoBreak p (ground arith))

hex_digit-IsNoBreak : (n : ℕ) → IsNoBreak (hex_digit n)
hex_digit-IsNoBreak n = (ground arith, ground arith)

hex-IsNoBreak : (b : Bytes) → All IsNoBreak (hex b)
unfolding hex
hex-IsNoBreak [] = tt
hex-IsNoBreak (x ∷ b) = (hex_digit-IsNoBreak _, (hex_digit-IsNoBreak _, hex-IsNoBreak b))

psk_line-IsNoBreak : (psk : Bytes) → any_of is_special psk ≡ false → All IsNoBreak (psk_line psk)
psk_line-IsNoBreak psk h = elim (Bool-cases (is_raw psk)) [
  | inl e ↦ rw e (
      append-IsNoBreak (codes "\tpsk=") psk
        ((refl, refl), ((refl, refl), ((refl, refl), ((refl, refl), ((refl, refl), tt)))))
        (plain-IsNoBreak psk h))
  | inr e ↦ rw e (
      append-IsNoBreak (codes "\tpsk=\"") (psk ++ codes "\"")
        (
          (refl, refl),
          ((refl, refl), ((refl, refl), ((refl, refl), ((refl, refl), ((refl, refl), tt))))),
        )
        (append-IsNoBreak psk (codes "\"") (plain-IsNoBreak psk h) ((refl, refl), tt)))
]

network_conf-eq-ok :
    (ssid psk conf : Bytes)
    → network_conf ssid psk ≡ ok conf
    → (any_of is_special psk ≡ false)
      × (conf
          ≡ codes "network={\n"
            ++ ((codes "\tssid=" ++ hex ssid)
                ++ (10 ∷ (psk_line psk ++ codes "\n\tkey_mgmt=WPA-PSK\n}\n"))))
unfolding network_conf
network_conf-eq-ok ssid psk conf h = (ground arith, ground arith)

-- Whatever the name and the secret, a text that is made of them has these five lines and no other:
-- neither can add a setting.
lines-network_conf :
    (ssid psk conf : Bytes)
    → network_conf ssid psk ≡ ok conf
    → lines conf
      ≡ codes "network={"
        ∷ (codes "\tssid=" ++ hex ssid)
        ∷ psk_line psk
        ∷ codes "\tkey_mgmt=WPA-PSK"
        ∷ codes "}"
        ∷ []
lines-network_conf ssid psk conf h =
    let (plain, text) = network_conf-eq-ok ssid psk conf h in
    let ssid_line =
      append-IsNoBreak (codes "\tssid=") (hex ssid)
        (
          (refl, refl),
          ((refl, refl), ((refl, refl), ((refl, refl), ((refl, refl), ((refl, refl), tt))))),
        )
        (hex-IsNoBreak ssid) in
    ap lines text
    ∙ lines-line (codes "network={") _ (
      (refl, refl),
      (
        (refl, refl),
        (
          (refl, refl),
          (
            (refl, refl),
            ((refl, refl), ((refl, refl), ((refl, refl), ((refl, refl), ((refl, refl), tt))))),
          ),
        ),
      ),
    )
    ∙ ap (λ (ls : List Bytes). codes "network={" ∷ ls)
        (lines-line (codes "\tssid=" ++ hex ssid) _ ssid_line
          ∙ ap (λ (ls : List Bytes). (codes "\tssid=" ++ hex ssid) ∷ ls)
              (lines-line (psk_line psk) _ (psk_line-IsNoBreak psk plain) ∙ unfold lines in refl))

pub tmp_of-ne :
    (pid : Bytes) (path : FilePath) (name : Bytes)
    → path.name ≡ some name
    → tmp_of pid path name ≢ path
tmp_of-ne pid path name named e =
    let longer : name ++ (codes ".ble.tmp." ++ pid) ≡ name = cc (e, named) in
    omega (arith, ap length longer, length-append name (codes ".ble.tmp." ++ pid))

module _ (c : InstallCalls) (pid : Bytes) (path : FilePath) (name bytes : Bytes) (d : Disk)
    (q : FilePath) (named : path.name ≡ some name) where
  abbrev start : Disk
  start = store d (tmp_of pid path name) (private_file [])

  -- The staging file was created on a free path, or nothing happened.
  install-cases :
      ((install c pid path name bytes d).1 ≡ err creating)
        × ((install c pid path name bytes d).0 ≡ d)
      ⊎ ((d (tmp_of pid path name) ≡ none)
          × (install c pid path name bytes d ≡ fill c (tmp_of pid path name) path bytes start))
  unfolding install
  install-cases = elim (Option-cases (d (tmp_of pid path name))) [
    | inr (f, taken) ↦ inl (ground (arith, taken))
    | inl free ↦ elim (Bool-cases c.open_ok) [
      | inr closed ↦ inl (ground (arith, free, closed))
      | inl opens ↦ inr (free, ground (arith, free, opens))
    ]
  ]

  fill-eq-ok :
      d (tmp_of pid path name) ≡ none
      → (fill c (tmp_of pid path name) path bytes start).1 ≡ ok tt
      → (fill c (tmp_of pid path name) path bytes start).0 q ≡ store d path (private_file bytes) q
  unfolding fill
  fill-eq-ok free h = elim (Bool-cases c.write_ok) [
    | inr e ↦ absurd (ground (arith, e))
    | inl w ↦ elim (Bool-cases c.sync_ok) [
      | inr e ↦ absurd (ground (arith, w, e))
      | inl s ↦ elim (Bool-cases c.rename_ok) [
        | inr e ↦ absurd (ground (arith, w, s, e))
        | inl r ↦
            simp (w, fill, s, r)
              (rename-store d (tmp_of pid path name) path q (private_file []) (private_file bytes)
                (tmp_of-ne pid path name named) free)
      ]
    ]
  ]

  fill-eq-err :
      (e : BleError)
      → d (tmp_of pid path name) ≡ none
      → (fill c (tmp_of pid path name) path bytes start).1 ≡ err e
      → ((fill c (tmp_of pid path name) path bytes start).0 q ≡ d q)
        ⊎ ((c.remove_ok ≡ false) × (q ≡ tmp_of pid path name))
  unfolding fill
  fill-eq-err e free h = elim (Bool-cases c.write_ok) [
    | inr w ↦ simp (w, fill) (try_remove-cases c.remove_ok d (tmp_of pid path name) q _ _ free)
    | inl w ↦ elim (Bool-cases c.sync_ok) [
      | inr s ↦ simp (w, fill, s) (try_remove-cases c.remove_ok d (tmp_of pid path name) q _ _ free)
      | inl s ↦ elim (Bool-cases c.rename_ok) [
        | inr r ↦
            simp (w, fill, s, r) (try_remove-cases c.remove_ok d (tmp_of pid path name) q _ _ free)
        | inl r ↦ absurd (ground (arith, w, s, r))
      ]
    ]
  ]

  -- Credentials that are installed are at the path, whole and private, and no other file changed.
  pub install-eq-ok :
      (install c pid path name bytes d).1 ≡ ok tt
      → (install c pid path name bytes d).0 q ≡ store d path (private_file bytes) q
  install-eq-ok h = elim install-cases [
    | inl (bad, same) ↦ absurd (ground (arith, bad))
    | inr (free, runs) ↦ rw runs (fill-eq-ok free (rw runs at h))
  ]

  -- An installation that fails, at whatever point, leaves every file as it was, but for
  -- the staging file where its removal failed.
  pub install-eq-err :
      (e : BleError)
      → (install c pid path name bytes d).1 ≡ err e
      → ((install c pid path name bytes d).0 q ≡ d q)
        ⊎ ((c.remove_ok ≡ false) × (q ≡ tmp_of pid path name))
  install-eq-err e h = elim install-cases [
    | inl (bad, same) ↦ inl (rw same)
    | inr (free, runs) ↦ rw runs (fill-eq-err e free (rw runs at h))
  ]
