-- ===== src/Net.antt =====
-- src/net.rs: the choice of the relay, the kind of a path, and the reports of its changes. The
-- connection is iroh's: what it reports at each event is a value chosen from outside.
pub mod Classify
pub mod Changes
pub mod Dial
use egdod.Prelude.{
  ℕ, zero, suc, ◌-◌, ◌%◌, Option, none, some, Bool, true, false, not, ◌&&◌, ◌||◌, List, [], ◌∷◌,
  ◌++◌, Bytes, ◌==◌, leb, if◌then◌else◌, all_of, Result, ok, err, codes,
}
use egdod.Proto.{PathKind, direct_local, direct_lan, direct_wan, relayed, unknown}
use egdod.Link.{Ipv4, show_ipv4, decimal, digits}

pub data RelayChoice : Type 0 where
  n0 disabled : RelayChoice
  urls : List Bytes → RelayChoice

pub data ProbeMode : Type 0 where
  discovery given : ProbeMode

unfoldable pub from_flags : Bool → List Bytes → RelayChoice
from_flags true us = disabled
from_flags false [] = n0
from_flags false (u ∷ us) = urls (u ∷ us)

unfoldable pub enabled : RelayChoice → Bool
enabled disabled = false
enabled n0 = true
enabled (urls us) = true

-- `first_url`; a URL's parser is another crate's.
unfoldable pub first_url : (Bytes → Bool) → RelayChoice → Result Bytes (Option Bytes)
first_url parses n0 = ok none
first_url parses disabled = ok none
first_url parses (urls []) = ok none
first_url parses (urls (u ∷ us)) = if parses u then ok (some u) else err u

-- An IPv6 address is its sixteen octets.
pub data IpAddr : Type 0 where
  v4 : Ipv4 → IpAddr
  v6 : List ℕ → IpAddr

pub data TransportAddr : Type 0 where
  relay : Bytes → TransportAddr
  ip : IpAddr → ℕ → TransportAddr
  custom : Bytes → TransportAddr

-- `Ipv6Addr::UNSPECIFIED` and `Ipv6Addr::LOCALHOST`.
abbrev pub is_unspecified6 : List ℕ → Bool
is_unspecified6 [] = true
is_unspecified6 (o ∷ os) = (o == 0) && is_unspecified6 os

abbrev pub is_loopback6 : List ℕ → Bool
is_loopback6 [] = false
is_loopback6 (o ∷ []) = o == 1
is_loopback6 (o ∷ p ∷ os) = (o == 0) && is_loopback6 (p ∷ os)

abbrev pub is_loopback : IpAddr → Bool
is_loopback (v4 i) = i.a == 127
is_loopback (v6 os) = is_loopback6 os

-- `Ipv4Addr::is_private`, `is_link_local` and `is_unspecified`.
abbrev pub is_private4 : Ipv4 → Bool
is_private4 i =
    i.a == 10 || ((i.a == 172) && leb 16 i.b && leb i.b 31) || ((i.a == 192) && (i.b == 168))

abbrev pub is_link_local4 : Ipv4 → Bool
is_link_local4 i = (i.a == 169) && (i.b == 254)

abbrev pub is_unspecified4 : Ipv4 → Bool
is_unspecified4 i = (i.a == 0) && (i.b == 0) && (i.c == 0) && (i.d == 0)

-- `o & 0xfe` and `o & 0xc0` clear the low bits of an octet.
abbrev pub is_local6 : List ℕ → Bool
is_local6 (o ∷ p ∷ os) =
    (o - o % 2 == 252) || ((o == 254) && (p - p % 64 == 128)) || is_unspecified6 (o ∷ p ∷ os)
is_local6 os = is_unspecified6 os

abbrev pub is_lan : IpAddr → Bool
is_lan (v4 i) = is_private4 i || is_link_local4 i || is_unspecified4 i
is_lan (v6 os) = is_local6 os

unfoldable pub classify_ip : IpAddr → PathKind
classify_ip a = if is_loopback a then direct_local else if is_lan a then direct_lan else direct_wan

unfoldable pub classify : TransportAddr → PathKind
unfolding classify_ip
classify (relay u) = relayed
classify (ip a port) = classify_ip a
classify (custom c) = unknown

-- `describe`. An IPv6 socket address prints as `show_v6` has it, which is the standard library's, and
-- so does an address of another kind.
unfoldable pub describe : (List ℕ → ℕ → Bytes) → (Bytes → Bytes) → TransportAddr → Bytes
unfolding show_ipv4 digits
describe show_v6 debug (relay u) = u
describe show_v6 debug (ip (v4 i) port) = show_ipv4 i ++ (codes ":" ++ decimal port)
describe show_v6 debug (ip (v6 os) port) = show_v6 os port
describe show_v6 debug (custom c) = debug c

-- An open path of a connection, and whether it is the one that carries data.
pub record OpenPath : Type 0 where
  pub is_selected : Bool
  pub remote_addr : TransportAddr

-- `session_path`: the first selected path.
unfoldable pub session_path : List OpenPath → Option (PathKind × TransportAddr)
unfolding classify
session_path [] = none
session_path (p ∷ ps) =
    let rest = session_path ps in
    if p.is_selected then some (classify p.remote_addr, p.remote_addr) else rest

abbrev pub no_open_path : TransportAddr
no_open_path = custom (codes "no open path")

unfoldable pub session_path_report : List OpenPath → PathKind × TransportAddr
unfolding session_path
session_path_report ps = elim (session_path ps) [ none ↦ (unknown, no_open_path) | some r ↦ r ]

abbrev pub kind_eq : PathKind → PathKind → Bool
kind_eq direct_local direct_local = true
kind_eq direct_lan direct_lan = true
kind_eq direct_wan direct_wan = true
kind_eq relayed relayed = true
kind_eq unknown unknown = true
kind_eq _ _ = false

pub record PathChange : Type 0 where
  pub was : PathKind
  pub now : PathKind
  pub remote : TransportAddr

-- The loop of `path_changes`: one item of the list for each event, the open paths at that time.
-- `room` is how many sends succeed before the receiver is gone.
unfoldable pub path_changes : ℕ → PathKind → List (List OpenPath) → List PathChange
unfolding session_path_report
path_changes room last [] = []
path_changes room last (ps ∷ events) =
    let (now, remote) = session_path_report ps in
    let same = path_changes room last events in
    let sent : List PathChange = elim room [
      | zero ↦ []
      | suc n ↦ record { was = last; now = now; remote = remote } ∷ path_changes n now events
    ] in
    if kind_eq now last then same else sent
