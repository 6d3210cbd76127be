-- ===== src/State/Approved.antt =====
-- src/state.rs, `StateDir::approved` and `StateDir::approve`: the list of approved keys is a text
-- file, one key to a line, with comments. A public key is its 32 bytes; how iroh prints and parses
-- one is a parameter.
pub mod Lines
pub mod Membership
use egdod.Prelude.{
  ℕ, ◌≡◌, ◌≢◌, Option, none, some, Bool, true, false, not, ◌&&◌, ◌||◌, List, [], ◌∷◌, ◌++◌, Bytes,
  ◌==◌, if◌then◌else◌, bytes_eq, any_of, All, Result, ok, err, ◌>>=◌,
}
use egdod.State.Text.{
  is_whitespace, trim_start, trim_end, before_hash, first_field, lines, ends_with_lf,
}

-- No white space, and no `#`.
abbrev pub IsPlain : ℕ → Type 0
IsPlain c = (is_whitespace c ≡ false) × ((c == 35) ≡ false)

-- iroh's text form of a key: what it prints it parses, and it prints no white space and no `#`.
pub record KeyText : Type 0 where
  pub print : Bytes → Bytes
  pub parse : Bytes → Option Bytes
  pub parse-print : (k : Bytes) → parse (print k) ≡ some k
  pub print_some : (k : Bytes) → print k ≢ []
  pub print-plain : (k : Bytes) → All IsPlain (print k)

-- A file that may be read: `unreadable` is any error but "not found".
pub data Slot : Type 0 where
  absent unreadable : Slot
  holds : Bytes → Slot

pub data StateError : Type 0 where
  reading_approved reading_pending parsing_pending : StateError
  creating_dir writing encoding : StateError

-- The key of one line, if it has one that parses: comments, blank lines and junk have none.
module _ (keys : KeyText) where
  unfoldable pub line_key : Bytes → Option Bytes
  line_key l =
      let line = trim_end (trim_start (before_hash l)) in
      elim line [ [] ↦ none | c ∷ s ↦ keys.parse (first_field (c ∷ s)) ]

  -- The set is a list; what matters of it is `contains`.
  unfoldable pub collect : List Bytes → List Bytes
  collect [] = []
  collect (l ∷ ls) = elim (line_key l) [ none ↦ collect ls | some k ↦ k ∷ collect ls ]

  unfoldable pub approved : Slot → Result StateError (List Bytes)
  approved absent = ok []
  approved unreadable = err reading_approved
  approved (holds body) = ok (collect (lines body))

  -- The file after the key was added: a last line without its end gets one first.
  unfoldable pub append_key : Bytes → Bytes → Bytes
  append_key body key =
      (if not (bytes_eq body []) && not (ends_with_lf body) then body ++ (10 ∷ []) else body)
      ++ (keys.print key ++ (10 ∷ []))

abbrev pub contains : List Bytes → Bytes → Bool
contains set k = any_of (λ x. bytes_eq x k) set

-- `read_to_string(..).unwrap_or_default()`
abbrev pub body_of : Slot → Bytes
body_of absent = []
body_of unreadable = []
body_of (holds b) = b
