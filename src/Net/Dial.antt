-- ===== src/Net/Dial.antt =====
-- src/net.rs, how an endpoint is built and whom it asks: `RelayChoice::mode`, `bind`,
-- `endpoint_addr` and `probe`; with them the two users of `bind` beside `serve`: the canary's
-- responder in src/controller.rs and `session` of src/agent.rs. The calls of iroh are values.
pub mod Reached
use egdod.Prelude.{
  ℕ, ◌≡◌, Option, none, some, Bool, true, false, not, ◌&&◌, List, [], ◌∷◌, ◌++◌, Bytes, codes,
  bytes_eq, leb, length, if◌then◌else◌, all_of, Result, ok, err, ensure, or_fail, ◌>>=◌, ◌>>◌,
}
use egdod.Proto.{PathKind}
use egdod.Net.{RelayChoice, n0, disabled, urls, ProbeMode, discovery, given, first_url}

pub data NetError : Type 0 where
  bad_relay bad_bind binding dialling opening sending answering unexpected_answer timed_out :
      NetError

pub data RelayMode : Type 0 where
  default_relays no_relays : RelayMode
  custom : List Bytes → RelayMode

-- `parses` is the parser of URLs, another crate's.
unfoldable pub relay_mode : (Bytes → Bool) → RelayChoice → Result NetError RelayMode
relay_mode parses n0 = ok default_relays
relay_mode parses disabled = ok no_relays
relay_mode parses (urls us) = if all_of parses us then ok (custom us) else err bad_relay

-- `Lookup`
pub data Lookup : Type 0 where
  neither resolve both : Lookup

abbrev pub publishes : Lookup → Bool
publishes neither = false
publishes resolve = false
publishes both = true

abbrev pub resolves : Lookup → Bool
resolves neither = false
resolves resolve = true
resolves both = true

-- What an endpoint was built with. Without a secret it has a fresh one.
pub record Endpoint : Type 0 where
  pub relays : RelayMode
  pub bound_to : Option Bytes
  pub secret : Option Bytes
  pub publishing : Bool
  pub resolving : Bool

pub record BindCalls : Type 0 where
  pub addr_ok : Bool
  pub bind_ok : Bool

abbrev pub addr_fits : BindCalls → Option Bytes → Bool
addr_fits c none = true
addr_fits c (some a) = c.addr_ok

unfoldable pub bind :
    (Bytes → Bool)
    → BindCalls
    → Option Bytes
    → RelayChoice
    → Lookup
    → Option Bytes
    → Result NetError Endpoint
unfolding relay_mode
bind parses c secret relay lookup bind_addr = do
  mode ← relay_mode parses relay
  ensure (addr_fits c bind_addr) bad_bind
  ensure c.bind_ok binding
  ok (record {
    relays = mode;
    bound_to = bind_addr;
    secret = secret;
    publishing = publishes lookup;
    resolving = resolves lookup;
  })

pub record EndpointAddr : Type 0 where
  pub id : Bytes
  pub direct : List Bytes
  pub relay : Option Bytes

abbrev pub endpoint_addr : Bytes → List Bytes → Option Bytes → EndpointAddr
endpoint_addr id direct relay = record { id = id; direct = direct; relay = relay }

abbrev pub ping : Bytes
ping = codes "egdod-ping"

abbrev pub pong : Bytes
pong = codes "egdod-alive"

-- `read_to_end` with a limit: more than that is an error.
abbrev pub read_to_end : ℕ → Bytes → Option Bytes
read_to_end limit b = if leb (length b) limit then some b else none

-- `ProbeResponder`: what is sent back for what was received up to its end.
unfoldable pub respond : Bytes → Bytes
respond received = elim (read_to_end (length ping) received) [
  | none ↦ []
  | some b ↦ if bytes_eq b ping then pong else []
]

-- What a dial meets: each call's success, the path, and what comes back for the ping.
pub record Dial : Type 0 where
  pub in_time : Bool
  pub connects : Bool
  pub opens : Bool
  pub sends : Bool
  pub path : PathKind
  pub answer : Option Bytes

abbrev pub greet : Dial → Result NetError PathKind
greet d = do
  ensure d.connects dialling
  ensure d.opens opening
  ensure d.sends sending
  whole ← or_fail d.answer answering
  got ← or_fail (read_to_end (length pong) whole) answering
  ensure (bytes_eq got pong) unexpected_answer
  ok d.path

-- A probe: the endpoint that it was made from, the address that it dialled, and whether the endpoint
-- was closed again.
pub record Probed : Type 0 where
  pub from_endpoint : Option Endpoint
  pub dialled : EndpointAddr
  pub closed : Bool
  pub result : Result NetError PathKind

abbrev pub lookup_for : ProbeMode → Lookup
lookup_for discovery = resolve
lookup_for given = neither

abbrev pub address_for : ProbeMode → Bytes → List Bytes → EndpointAddr
address_for discovery target direct = endpoint_addr target [] none
address_for given target direct = endpoint_addr target direct none

unfoldable pub probe_from : Dial → EndpointAddr → Result NetError Endpoint → Probed
probe_from d addr (err e) = record {
  from_endpoint = none;
  dialled = addr;
  closed = false;
  result = err e;
}
probe_from d addr (ok ep) = record {
  from_endpoint = some ep;
  dialled = addr;
  closed = true;
  result = if d.in_time then greet d else err timed_out;
}

unfoldable pub probe :
    (Bytes → Bool) → BindCalls → Dial → Bytes → ProbeMode → List Bytes → RelayChoice → Probed
unfolding bind probe_from
probe parses c d target mode direct relay =
    probe_from d (address_for mode target direct) (bind parses c none relay (lookup_for mode) none)

-- The agent's side: what `session` dials with, and whom.
abbrev pub agent_lookup : List Bytes → Lookup
agent_lookup [] = resolve
agent_lookup (a ∷ more) = neither

pub record Outgoing : Type 0 where
  pub endpoint : Endpoint
  pub address : EndpointAddr

abbrev pub named_relay : Result Bytes (Option Bytes) → Result NetError (Option Bytes)
named_relay (ok u) = ok u
named_relay (err u) = err bad_relay

unfoldable pub agent_dial :
    (Bytes → Bool) → BindCalls → Bytes → Bytes → RelayChoice → List Bytes → Result NetError Outgoing
unfolding bind first_url
agent_dial parses c secret controller relay direct = do
  ep ← bind parses c (some secret) relay (agent_lookup direct) none
  url ← named_relay (first_url parses relay)
  ok (record { endpoint = ep; address = endpoint_addr controller direct url })
