-- ===== src/Ssh.antt =====
-- src/ssh.rs: the pure parts of the recipe, which are the stamp of the key's expiry and the merge of
-- authorized_keys. Text is bytes.
pub mod Merge
pub mod Calendar
pub mod Steps
pub mod Session
use egdod.Prelude.{
  ℕ, ◌+◌, ◌-◌, ◌*◌, ◌/◌, ◌%◌, Option, none, some, Bool, true, false, not, List, [], ◌∷◌, ◌++◌,
  Bytes, codes, ◌==◌, ltb, leb, if◌then◌else◌, bytes_eq, any_of, is_ascii_whitespace,
}
use egdod.State.Text.{is_whitespace, cons_first, ends_with_lf, trim_start, take_field}
use egdod.Link.{decimal, digits}

-- `split(is_ascii_whitespace)`: one piece more than there is white space, empty ones included.
unfoldable pub fields : Bytes → List Bytes
fields [] = [] ∷ []
fields (c ∷ s) =
    let rest = fields s in if is_ascii_whitespace c then [] ∷ rest else cons_first c rest

unfoldable pub carries : Bytes → Bytes → Bool
carries blob b = any_of (λ f. bytes_eq f blob) (fields b)

-- What each `read_until('\n')` gives: a line with its line feed, the last one perhaps without.
unfoldable pub pieces : Bytes → List Bytes
pieces [] = []
pieces (c ∷ s) = let rest = pieces s in if c == 10 then (10 ∷ []) ∷ rest else cons_first c rest

abbrev pub closed : Bytes → Bytes
closed b = if ends_with_lf b then b else b ++ (10 ∷ [])

-- The loop of `merge_authorized_keys`.
unfoldable pub copy_others : Bytes → List Bytes → Bytes
unfolding fields
copy_others blob [] = []
copy_others blob (b ∷ bs) =
    let rest = copy_others blob bs in if carries blob b then rest else closed b ++ rest

abbrev pub others_of : Bytes → Option Bytes → Bytes
others_of blob none = []
others_of blob (some existing) = copy_others blob (pieces existing)

-- The reader and the writer are memory here: a failing one ends the merge with its error.
unfoldable pub merge_authorized_keys : Option Bytes → Bytes → Bytes → Bytes
merge_authorized_keys existing blob line = others_of blob existing ++ (line ++ (10 ∷ []))

-- `split_whitespace().nth(1)`: what follows the first field.
unfoldable pub after_field : Bytes → Bytes
after_field s = trim_start (rest_of (trim_start s))
  where
    rest_of : Bytes → Bytes
    rest_of [] = []
    rest_of (c ∷ t) = let more = rest_of t in if is_whitespace c then c ∷ t else more

abbrev pub non_empty : Bytes → Option Bytes
non_empty [] = none
non_empty (c ∷ s) = some (c ∷ s)

unfoldable pub key_blob : Bytes → Option Bytes
unfolding after_field
key_blob pubkey_line = non_empty (take_field (after_field pubkey_line))

pub record Date : Type 0 where
  pub y : ℕ
  pub m : ℕ
  pub d : ℕ

-- `civil_from_days`, from 1970-01-01 on.
unfoldable pub civil_from_days : ℕ → Date
civil_from_days days =
    let z = days + 719468 in
    let era = z / 146097 in
    let doe = z % 146097 in
    let yoe = (doe - doe / 1460 + doe / 36524 - doe / 146096) / 365 in
    let doy = doe - (365 * yoe + yoe / 4 - yoe / 100) in
    let mp = (5 * doy + 2) / 153 in
    let m = if ltb mp 10 then mp + 3 else mp - 9 in
    record {
      y = yoe + era * 400 + (if leb m 2 then 1 else 0);
      m = m;
      d = doy - (153 * mp + 2) / 5 + 1;
    }

-- `{n:02}` and `{n:04}`: zeros in front up to the width.
abbrev pub pad2 : ℕ → Bytes
pad2 n = if ltb n 10 then 48 ∷ decimal n else decimal n

abbrev pub pad4 : ℕ → Bytes
pad4 n =
    if ltb n 10
    then codes "000" ++ decimal n
    else if ltb n 100
    then codes "00" ++ decimal n
    else if ltb n 1000
    then codes "0" ++ decimal n
    else decimal n

unfoldable pub utc_yyyymmddhhmm : ℕ → Bytes
unfolding civil_from_days digits
utc_yyyymmddhhmm secs =
    let date = civil_from_days (secs / 86400) in
    let rem = secs % 86400 in
    pad4 date.y
    ++ (pad2 date.m
        ++ (pad2 date.d ++ (pad2 (rem / 3600) ++ (pad2 (rem % 3600 / 60) ++ codes "Z"))))

unfoldable pub authorized_line : Bytes → ℕ → Bytes → Bytes
unfolding utc_yyyymmddhhmm
authorized_line options expiry pubkey_line =
    options
    ++ (codes ",expiry-time=\"" ++ (utc_yyyymmddhhmm expiry ++ (codes "\" " ++ pubkey_line)))
