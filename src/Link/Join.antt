-- ===== src/Link/Join.antt =====
-- src/link.rs, `join`: the controller's device joins the derived network, stays until it is told to
-- leave, and cleans up. What `ip`, wpa_supplicant and the carrier's file answer is chosen from
-- outside.
pub mod Leaving
use egdod.Prelude.{
  ℕ, ◌≡◌, Option, none, some, Bool, true, false, not, List, [], ◌∷◌, Bytes, codes, bytes_eq, take,
  if◌then◌else◌, Result, ok, err,
}
use egdod.State.Text.{trim_start, trim_end}
use egdod.Link.{Link, supplicant_conf}

pub data JoinError : Type 0 where
  no_key setting_up adding writing spawning not_in_range asking exited waiting : JoinError

-- The interface and the files: whether the interface was set up, whether it has the link's address,
-- the text of link.conf, and whether wpa_supplicant runs.
pub record Station : Type 0 where
  pub is_up : Bool
  pub has_addr : Bool
  pub conf : Option Bytes
  pub running : Bool

-- One round of the wait: the text of the carrier's file, whether the time is over, and whether
-- wpa_supplicant has exited, if that could be asked.
pub record Poll : Type 0 where
  pub carrier_file : Option Bytes
  pub late : Bool
  pub gone : Option Bool

-- Why the link is left: a signal, or the end of wpa_supplicant.
pub data Left : Type 0 where
  told : Bool → Left
  supplicant_ended : Left

pub record JoinCalls : Type 0 where
  pub up_ok : Bool
  pub addr_ok : Bool
  pub write_ok : Bool
  pub partial : ℕ
  pub spawn_ok : Bool
  pub polls : List Poll
  pub left : Left
  pub kill_ok : Bool
  pub del_ok : Bool
  pub remove_ok : Bool

unfoldable pub carrier : Option Bytes → Bool
carrier none = false
carrier (some text) = bytes_eq (trim_end (trim_start text)) (codes "1")

-- The rounds until there is a carrier; `none` is a wait that goes on.
unfoldable pub await_carrier : List Poll → Option (Result JoinError (Unit {0}))
unfolding carrier
await_carrier [] = none
await_carrier (p ∷ ps) =
    let rest = await_carrier ps in
    if carrier p.carrier_file
    then some (ok tt)
    else if p.late
    then some (err not_in_range)
    else elim p.gone [
      | none ↦ some (err asking)
      | some true ↦ some (err exited)
      | some false ↦ rest
    ]

abbrev pub stay : Left → Result JoinError (Unit {0})
stay (told true) = ok tt
stay (told false) = err waiting
stay supplicant_ended = err exited

abbrev pub outcome_of :
    Option (Result JoinError (Unit {0})) → Left → Option (Result JoinError (Unit {0}))
outcome_of none l = none
outcome_of (some (err e)) l = some (err e)
outcome_of (some (ok u)) l = some (stay l)

-- The failures of the clean-up are not looked at.
unfoldable pub clean_up : JoinCalls → Station → Station
clean_up c s = record s {
  running = not c.kill_ok;
  has_addr = not c.del_ok;
  conf = if c.remove_ok then none else s.conf;
}

abbrev pub finish :
    JoinCalls
    → Station
    → Option (Result JoinError (Unit {0}))
    → Option (Station × Result JoinError (Unit {0}))
finish c s none = none
finish c s (some r) = some (clean_up c s, r)

-- From the spawning on.
unfoldable pub supplicate : JoinCalls → Station → Option (Station × Result JoinError (Unit {0}))
unfolding await_carrier clean_up
supplicate c s =
    if c.spawn_ok
    then finish c (record s { running = true }) (outcome_of (await_carrier c.polls) c.left)
    else some (s, err spawning)

-- `key` is the link of the controller's key, if that could be loaded.
unfoldable pub join :
    JoinCalls → Option Link → Station → Option (Station × Result JoinError (Unit {0}))
unfolding supplicate
join c none s = some (s, err no_key)
join c (some link) s =
    if not c.up_ok
    then some (s, err setting_up)
    else if not c.addr_ok
    then some (record s { is_up = true }, err adding)
    else if not c.write_ok
    then some (
      record s {
        is_up = true;
        has_addr = true;
        conf = some (take c.partial (supplicant_conf link));
      },
      err writing,
    )
    else supplicate c
        (record s { is_up = true; has_addr = true; conf = some (supplicant_conf link) })
