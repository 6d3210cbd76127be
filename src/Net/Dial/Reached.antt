-- ===== src/Net/Dial/Reached.antt =====
-- What a probe that succeeds shows, and what an agent leaves in the public lookup.
use egdod.Prelude.{
  ℕ, ◌≡◌, ◌⊎◌, ensure, or_fail, or_fail-eq-ok, refl, sym, ap, ◌∙◌, Option, none, some, Bool, true,
  false, List, [], ◌∷◌, Bytes, bytes_eq, bytes_eq_iff, leb, length, Result, ok, err, Bool-cases,
  inl, inr, >>=-eq-ok, >>-eq-ok,
}
use egdod.Proto.{PathKind}
use egdod.Net.{RelayChoice, ProbeMode, discovery, given, first_url}
use egdod.Net.Dial.{
  Lookup, NetError, probe_from, address_for, read_to_end, dialling, opening, sending, answering,
  named_relay, BindCalls, Endpoint, EndpointAddr, bind, relay_mode, addr_fits, ping, pong, respond,
  Dial, greet, lookup_for, probe, Outgoing, agent_dial, agent_lookup, endpoint_addr, binding,
  bad_bind, publishes, resolves,
}

-- An answer that starts a pong is one to a ping.
respond-eq-pong : (received : Bytes) → respond received ≡ pong → received ≡ ping
unfolding respond
respond-eq-pong received h = elim (Bool-cases (leb (length received) (length ping))) [
  | inr e ↦ absurd (cc (rw (respond, e) at h))
  | inl e ↦ elim (Bool-cases (bytes_eq received ping)) [
    | inl same ↦ (bytes_eq_iff received ping).0 same
    | inr other ↦ absurd (cc (rw (respond, e, other) at h))
  ]
]

read_to_end-eq-some : (n : ℕ) (b got : Bytes) → read_to_end n b ≡ some got → b ≡ got
read_to_end-eq-some n b got h = elim (Bool-cases (leb (length b) n)) [
  | inl e ↦ cc (rw e at h)
  | inr e ↦ absurd (cc (rw e at h))
]

greet-eq-ok :
    (d : Dial) (path : PathKind) → greet d ≡ ok path → (d.path ≡ path) × (d.answer ≡ some pong)
greet-eq-ok d path h =
    let h1 = >>-eq-ok (ensure d.connects dialling) _ h in
    let h2 = >>-eq-ok (ensure d.opens opening) _ h1 in
    let h3 = >>-eq-ok (ensure d.sends sending) _ h2 in
    let (whole, answered, h4) = >>=-eq-ok (or_fail d.answer answering) _ h3 in
    let (got, read, h5) = >>=-eq-ok (or_fail (read_to_end (length pong) whole) answering) _ h4 in
    let same = read_to_end-eq-some (length pong) whole got (or_fail-eq-ok _ answering read) in
    elim (Bool-cases (bytes_eq got pong)) [
      | inr e ↦ absurd (cc (rw e at h5))
      | inl e ↦ (
        cc (rw e at h5),
        or_fail-eq-ok d.answer answering answered
            ∙ ap (λ (b : Bytes). some b) (same ∙ (bytes_eq_iff got pong).0 e),
      )
    ]

agent_hidden : (direct : List Bytes) → publishes (agent_lookup direct) ≡ false
agent_hidden [] = refl
agent_hidden (a ∷ more) = refl

agent_asks :
    (direct : List Bytes) (asks : Bool)
    → asks ≡ resolves (agent_lookup direct)
    → (direct ≡ []) ⊎ (asks ≡ false)
agent_asks [] asks h = inl refl
agent_asks (a ∷ more) asks h = inr h

-- An endpoint that could be bound has what it was asked for.
bind-eq-ok :
    (parses : Bytes → Bool) (c : BindCalls) (secret : Option Bytes) (relay : RelayChoice)
    (lookup : Lookup) (bind_addr : Option Bytes) (ep : Endpoint)
    → bind parses c secret relay lookup bind_addr ≡ ok ep
    → (ep.publishing ≡ publishes lookup) × (ep.resolving ≡ resolves lookup) × (ep.secret ≡ secret)
unfolding bind
bind-eq-ok parses c secret relay lookup bind_addr ep h =
    let (mode, parsed, h1) = >>=-eq-ok (relay_mode parses relay) _ h in
    let h2 = >>-eq-ok (ensure (addr_fits c bind_addr) bad_bind) _ h1 in
    let h3 = >>-eq-ok (ensure c.bind_ok binding) _ h2 in
    let built : record {
      relays = mode;
      bound_to = bind_addr;
      secret = secret;
      publishing = publishes lookup;
      resolving = resolves lookup;
    }
        ≡ ep =
      cc h3 in
    rw (sym built) (refl, refl, refl)

probe_from-eq-ok :
    (d : Dial) (addr : EndpointAddr) (b : Result NetError Endpoint) (path : PathKind)
    → (probe_from d addr b).result ≡ ok path
    → (ep : Endpoint) × (b ≡ ok ep)
      × (d.in_time ≡ true)
      × (d.answer ≡ some pong)
      × ((probe_from d addr b).closed ≡ true)
      × ((probe_from d addr b).from_endpoint ≡ some ep)
unfolding probe_from
probe_from-eq-ok d addr (err e) path h = cc
probe_from-eq-ok d addr (ok ep) path h = elim (Bool-cases d.in_time) [
  | inr late ↦ absurd (cc (rw late at h))
  | inl quick ↦ (ep, refl, quick, (greet-eq-ok d path (rw quick at h)).1, refl, refl)
]

told_or_blind : (mode : ProbeMode) {P : Type 0} → (mode ≡ discovery → P) → (mode ≡ given) ⊎ P
told_or_blind discovery h = inr (h refl)
told_or_blind given h = inl refl

probe_hidden : (mode : ProbeMode) → publishes (lookup_for mode) ≡ false
probe_hidden discovery = refl
probe_hidden given = refl

probe_asks : (mode : ProbeMode) → mode ≡ discovery → resolves (lookup_for mode) ≡ true
probe_asks discovery h = refl
probe_asks given h = cc

probe_told :
    (d : Dial) (mode : ProbeMode) (target : Bytes) (direct : List Bytes)
    (b : Result NetError Endpoint)
    → mode ≡ discovery
    → (probe_from d (address_for mode target direct) b).dialled.direct ≡ []
unfolding probe_from
probe_told d discovery target direct (err e) h = refl
probe_told d discovery target direct (ok ep) h = refl
probe_told d given target direct b h = cc

-- A probe that found the controller was made by a stranger, from an endpoint with no secret that is
-- gone from the net again and was never published; the controller's answer came in time; and with
-- discovery it was told no address, so that the lookup gave it.
probe-eq-ok :
    (parses : Bytes → Bool) (c : BindCalls) (d : Dial) (target : Bytes) (mode : ProbeMode)
    (direct : List Bytes) (relay : RelayChoice) (path : PathKind)
    → (probe parses c d target mode direct relay).result ≡ ok path
    → (d.in_time ≡ true)
      × (d.answer ≡ some pong)
      × ((probe parses c d target mode direct relay).closed ≡ true)
      × ((ep : Endpoint) × ((probe parses c d target mode direct relay).from_endpoint ≡ some ep)
          × (ep.secret ≡ none)
          × (ep.publishing ≡ false)
          × ((mode ≡ given)
              ⊎ ((ep.resolving ≡ true)
                  × ((probe parses c d target mode direct relay).dialled.direct ≡ []))))
unfolding probe
probe-eq-ok parses c d target mode direct relay path h =
    let b = bind parses c none relay (lookup_for mode) none in
    let (ep, bound, quick, answered, closed, here) =
      probe_from-eq-ok d (address_for mode target direct) b path h in
    let (published, resolving, secret_is) =
      bind-eq-ok parses c none relay (lookup_for mode) none ep bound in
    (
      quick,
      answered,
      closed,
      (
        ep,
        here,
        secret_is,
        published ∙ probe_hidden mode,
        told_or_blind mode
            (λ blind. (resolving ∙ probe_asks mode blind, probe_told d mode target direct b blind)),
      ),
    )

-- An agent is never published, asks no lookup when it was given an address, and dials the controller
-- that it was built for at the addresses that it was given.
agent_dial-eq-ok :
    (parses : Bytes → Bool) (c : BindCalls) (secret controller : Bytes) (relay : RelayChoice)
    (direct : List Bytes) (out : Outgoing)
    → agent_dial parses c secret controller relay direct ≡ ok out
    → (out.endpoint.publishing ≡ false)
      × (out.endpoint.secret ≡ some secret)
      × ((direct ≡ []) ⊎ (out.endpoint.resolving ≡ false))
      × (out.address.id ≡ controller)
      × (out.address.direct ≡ direct)
unfolding agent_dial
agent_dial-eq-ok parses c secret controller relay direct out h =
    let (ep, bound, h1) =
      >>=-eq-ok (bind parses c (some secret) relay (agent_lookup direct) none) _ h in
    let (url, parsed, h2) = >>=-eq-ok (named_relay (first_url parses relay)) _ h1 in
    let (published, resolving, secret_is) =
      bind-eq-ok parses c (some secret) relay (agent_lookup direct) none ep bound in
    let built : record { endpoint = ep; address = endpoint_addr controller direct url } ≡ out =
      cc h2 in
    rw (sym built) (
      published ∙ agent_hidden direct,
      secret_is,
      agent_asks direct ep.resolving resolving,
      refl,
      refl,
    )
