-- ===== src/Proto/File/Taken.antt =====
-- What the receiver's two steps do: a staging file on a free path, and a loop that takes every byte.
use egdod.Prelude.{
  ℕ, zero, suc, ◌+◌, ◌≤◌, ◌≡◌, ◌≢◌, ◌^◌, ◌%◌, sym, ap, ◌∙◌, ◌++◌, [], ◌∷◌, List, none, some, Bytes,
  length, leb, ltb, ok, arith, true, false, Option-cases, inl, inr, codes, length-append,
}
use egdod.Io.{Ending, eof, broken}
use egdod.Disk.{FilePath, Disk, store}
use egdod.Proto.File.{Os, Body, part_path, create_part_file, body_loop}
use egdod.Hex.{hex}
use mathlib.Core.List.{append_assoc, append-nil}

name-ne : (base nonce : Bytes) → base ++ (codes ".egdod-part." ++ hex nonce) ≢ base
name-ne base nonce e =
    omega (arith, ap length e, length-append base (codes ".egdod-part." ++ hex nonce))

-- The staging name is longer than the name it stands beside.
pub part_path-ne :
    (dest : FilePath) (base nonce : Bytes)
    → dest.name ≡ some base
    → part_path dest base nonce ≢ dest
part_path-ne dest base nonce named e = name-ne base nonce (cc (e, named))

-- A staging file is created only where nothing was.
pub create_part_file-fresh :
    (os : Os) (dest : FilePath) (base : Bytes) (left i : ℕ) (d d' : Disk) (tmp : FilePath)
    → create_part_file os dest base left i d ≡ ok (tmp, d')
    → (n : Bytes) × (tmp ≡ part_path dest base n)
      × (d tmp ≡ none)
      × (d' ≡ store d tmp (some (record { content = []; mode = 0o600 })))
unfolding create_part_file
create_part_file-fresh os dest base zero i d d' tmp h = cc
create_part_file-fresh os dest base (suc left) i d d' tmp h = elim (Option-cases (os.nonce i)) [
  | inl e ↦ ground (arith, e)
  | inr (n, e) ↦ elim (Option-cases (d (part_path dest base n))) [
    | inl free ↦ (n, ground (arith, e, free), ground (arith, e, free), ground (arith, e, free))
    | inr (f, taken) ↦
        create_part_file-fresh os dest base left (i + 1) d d' tmp (ground (arith, e, taken))
  ]
]

-- The bytes that the reads give up to the first empty one.
abbrev pub delivered : List Bytes → Bytes
delivered [] = []
delivered ([] ∷ cs) = []
delivered ((x ∷ c) ∷ cs) = (x ∷ c) ++ delivered cs

-- A run of the loop that ended well took everything that was delivered, and wrote it all.
pub record Took (room : ℕ) (bytes : Bytes) (b b' : Body) : Type 0 where
  pub all_fed : b'.fed ≡ b.fed ++ bytes
  pub all_landed : b'.landed ≡ b'.fed
  pub fits : length b'.landed ≤ room
  pub counted : b'.got ≡ length b'.fed % 2 ^ 64

-- What holds of the state at the head of the loop.
pub record IsBody (room : ℕ) (b : Body) : Type 0 where
  pub same : b.landed ≡ b.fed
  pub fits : length b.landed ≤ room
  pub counted : b.got ≡ length b.fed % 2 ^ 64

Took-none : (room : ℕ) (b : Body) → IsBody room b → Took room [] b b
Took-none room b v = record {
  all_fed = sym (append-nil b.fed);
  all_landed = v.same;
  fits = v.fits;
  counted = v.counted;
}

pub body_loop-Took :
    (len room : ℕ) (e : Ending) (cs : List Bytes) (b : Body)
    → (body_loop len room e cs b).1 ≡ none
    → IsBody room b
    → Took room (delivered cs) b (body_loop len room e cs b).0
unfolding body_loop
body_loop-Took len room broken [] b h v = cc
body_loop-Took len room eof [] b h v = Took-none room b v
body_loop-Took len room e ([] ∷ cs) b h v = Took-none room b v
body_loop-Took len room e ((x ∷ c) ∷ cs) b h v =
    let piece : Bytes = x ∷ c in
    let got : ℕ = (b.got + length piece) % 2 ^ 64 in
    let next : Body = record { fed = b.fed ++ piece; got = got; landed = b.landed ++ piece } in
    let long : ltb len got ≡ false = ground arith in
    let wide : leb (length b.landed + length piece) room ≡ true = ground arith in
    let rest = body_loop-Took len room e cs next (ground (arith, long, wide)) (record {
      same = ap (λ l. l ++ piece) v.same;
      fits = ground (arith, wide, length-append b.landed piece);
      counted = omega (arith, v.counted, length-append b.fed piece);
    }) in
    rw (long, wide)
      (record {
        all_fed = rest.all_fed ∙ append_assoc b.fed piece (delivered cs);
        all_landed = rest.all_landed;
        fits = rest.fits;
        counted = rest.counted;
      })
