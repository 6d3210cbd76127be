-- ===== src/State/Text.antt =====
-- The text functions of Rust's `str` that state.rs and ssh.rs use, over code points.
use egdod.Prelude.{ℕ, Bool, false, ◌&&◌, ◌||◌, List, [], ◌∷◌, Bytes, leb, ◌==◌, if◌then◌else◌}

-- `char::is_whitespace`.
abbrev pub is_whitespace : ℕ → Bool
is_whitespace c =
    (leb 9 c && leb c 13)
    || c == 32
    || c == 0x85
    || c == 0xa0
    || c == 0x1680
    || (leb 0x2000 c && leb c 0x200a)
    || c == 0x2028
    || c == 0x2029
    || c == 0x202f
    || c == 0x205f
    || c == 0x3000

unfoldable pub trim_start : Bytes → Bytes
trim_start [] = []
trim_start (c ∷ s) = if is_whitespace c then trim_start s else c ∷ s

abbrev pub keep_char : ℕ → Bytes → Bytes
keep_char c [] = if is_whitespace c then [] else c ∷ []
keep_char c (d ∷ t) = c ∷ d ∷ t

unfoldable pub trim_end : Bytes → Bytes
trim_end [] = []
trim_end (c ∷ s) = keep_char c (trim_end s)

-- `split('#').next()`: what stands before the first `#`.
unfoldable pub before_hash : Bytes → Bytes
before_hash [] = []
before_hash (c ∷ s) = if c == 35 then [] else c ∷ before_hash s

-- Up to the first white space.
unfoldable pub take_field : Bytes → Bytes
take_field [] = []
take_field (c ∷ s) = if is_whitespace c then [] else c ∷ take_field s

-- `split_whitespace().next()`
unfoldable pub first_field : Bytes → Bytes
unfolding trim_start take_field
first_field s = take_field (trim_start s)

abbrev pub starts_lf : Bytes → Bool
starts_lf [] = false
starts_lf (c ∷ s) = c == 10

abbrev pub cons_first : ℕ → List Bytes → List Bytes
cons_first c [] = (c ∷ []) ∷ []
cons_first c (l ∷ ls) = (c ∷ l) ∷ ls

-- `lines()`: pieces end at a line feed, which goes with a carriage return right before it; a last
-- piece without one keeps its bytes.
unfoldable pub lines : Bytes → List Bytes
lines [] = []
lines (c ∷ s) =
    let rest = lines s in
    if c == 10 then [] ∷ rest else if c == 13 && starts_lf s then rest else cons_first c rest

-- `ends_with('\n')`
abbrev pub ends_with_lf : Bytes → Bool
ends_with_lf [] = false
ends_with_lf (c ∷ []) = c == 10
ends_with_lf (c ∷ d ∷ s) = ends_with_lf (d ∷ s)
