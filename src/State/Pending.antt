-- ===== src/State/Pending.antt =====
-- src/state.rs, the agents that wait for approval: `pending`, `record_pending`, `forget_pending`,
-- and `approve`, which takes an agent off the list. The text of pending.json is serde_json's, a
-- parameter; times are whole seconds, counts are u64.
pub mod Bounds
pub mod Approval
pub mod History
use egdod.Prelude.{
  ℕ, ◌+◌, ◌-◌, ◌%◌, ◌^◌, ◌≡◌, Option, none, some, Bool, true, false, not, List, [], ◌∷◌, Bytes,
  ◌==◌, leb, ltb, if◌then◌else◌, bytes_eq, length, drop, keep_if, Result, ok, err,
}
use egdod.Proto.{Codec}
use egdod.State.Approved.{
  KeyText, Slot, absent, unreadable, holds, StateError, reading_pending, parsing_pending,
  creating_dir, writing, encoding, approved, append_key, contains, body_of,
}

pub record PendingAgent : Type 0 where
  pub pubkey : Bytes
  pub first_seen : ℕ
  pub last_seen : ℕ
  pub attempts : ℕ

abbrev pub pending_limit : ℕ
pending_limit = 256

-- The two files of the state directory.
pub record Files : Type 0 where
  pub approved_file : Slot
  pub pending_file : Slot

-- The clock, and whether the directory and each file can be written.
pub record Calls : Type 0 where
  pub now : ℕ
  pub dir_ok : Bool
  pub approved_ok : Bool
  -- Whether the second read of the approved file, in `approve`, succeeds.
  pub reread_ok : Bool
  pub pending_ok : Bool

-- The entry of a key is brought up to date, or a new one goes to the end.
unfoldable pub seen : ℕ → Bytes → List PendingAgent → List PendingAgent
seen now text [] = record { pubkey = text; first_seen = now; last_seen = now; attempts = 1 } ∷ []
seen now text (p ∷ ps) =
    if bytes_eq p.pubkey text
    then record p { last_seen = now; attempts = (p.attempts + 1) % 2 ^ 64 } ∷ ps
    else p ∷ seen now text ps

-- `sort_by_key(|p| p.last_seen_unix)`, which is stable.
unfoldable pub insert_seen : PendingAgent → List PendingAgent → List PendingAgent
insert_seen p [] = p ∷ []
insert_seen p (q ∷ qs) = if leb p.last_seen q.last_seen then p ∷ q ∷ qs else q ∷ insert_seen p qs

unfoldable pub sort_seen : List PendingAgent → List PendingAgent
sort_seen [] = []
sort_seen (p ∷ ps) = insert_seen p (sort_seen ps)

unfoldable pub keep_recent : List PendingAgent → List PendingAgent
keep_recent list =
    if ltb pending_limit (length list)
    then drop (length list - pending_limit) (sort_seen list)
    else list

module _ (json : Codec (List PendingAgent)) (keys : KeyText) where
  unfoldable pub pending : Slot → Result StateError (List PendingAgent)
  pending absent = ok []
  pending unreadable = err reading_pending
  pending (holds b) = elim (json.decode b) [ none ↦ err parsing_pending | some l ↦ ok l ]

  unfoldable pub write_pending :
      Calls → List PendingAgent → Files → Files × Result StateError (Unit {0})
  write_pending c list f = elim (json.encode list) [
    | none ↦ (f, err encoding)
    | some b ↦
        if c.pending_ok then (record f { pending_file = holds b }, ok tt) else (f, err writing)
  ]

  unfoldable pub record_pending : Calls → Bytes → Files → Files × Result StateError (Unit {0})
  record_pending c key f =
      if not c.dir_ok then (f, err creating_dir) else elim (pending f.pending_file) [
        | err e ↦ (f, err e)
        | ok list ↦ write_pending c (keep_recent (seen c.now (keys.print key) list)) f
      ]

  unfoldable pub forget_pending : Calls → Bytes → Files → Files × Result StateError (Unit {0})
  forget_pending c key f = elim (pending f.pending_file) [
    | err e ↦ (f, err e)
    | ok list ↦
        let kept = keep_if (λ p. not (bytes_eq p.pubkey (keys.print key))) list in
        if length kept == length list then (f, ok tt) else write_pending c kept f
  ]

  abbrev pub and_then_true : Files × Result StateError (Unit {0}) → Files × Result StateError Bool
  and_then_true (f, ok _) = (f, ok true)
  and_then_true (f, err e) = (f, err e)

  -- `read_to_string(..).unwrap_or_default()`: a read that fails gives the empty text.
  abbrev pub reread : Calls → Slot → Bytes
  reread c s = if c.reread_ok then body_of s else []

  -- False if the key was approved already.
  unfoldable pub approve : Calls → Bytes → Files → Files × Result StateError Bool
  approve c key f =
      if not c.dir_ok then (f, err creating_dir) else elim (approved keys f.approved_file) [
        | err e ↦ (f, err e)
        | ok set ↦
            if contains set key
            then (f, ok false)
            else if c.approved_ok
            then and_then_true (
                forget_pending c key (record f {
                  approved_file = holds (append_key keys (reread c f.approved_file) key);
                }))
            else (f, err writing)
      ]
