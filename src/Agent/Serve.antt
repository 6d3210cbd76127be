-- ===== src/Agent/Serve.antt =====
-- src/agent.rs, around the requests: the key that `run` waits for, what it says of its route, the
-- admission, and the requests of a connection. Their tasks run at once; here each is one step, in the
-- order in which they happen.
pub mod Landed
use egdod.Prelude.{Option, none, some, List, [], ◌∷◌, ◌++◌, Bytes, codes, Result, ok, err}
use egdod.Io.{Stream, Sink}
use egdod.Disk.{Disk}
use egdod.Proto.{Codec, Admission}
use egdod.Proto.Frame.{read_msg}
use egdod.Proto.File.{FileError}
use egdod.Net.{RelayChoice, n0, disabled, urls}
use egdod.Agent.Handle.{Machine, Wire, Handled, handle}

-- The loop around `load_or_create_key`: a failure is tried again.
unfoldable pub await_key : {E K : Type 0} → List (Result E K) → Option K
await_key [] = none
await_key (ok k ∷ rs) = some k
await_key (err e ∷ rs) = await_key rs

-- `join(", ")`
unfoldable pub listed : List Bytes → Bytes
listed [] = []
listed (a ∷ []) = a
listed (a ∷ b ∷ rest) = a ++ (codes ", " ++ listed (b ∷ rest))

unfoldable pub relay_text : RelayChoice → Bytes
unfolding listed
relay_text n0 = codes "the public relays"
relay_text disabled = codes "no relay"
relay_text (urls us) = listed us

-- `route`, with the addresses in text.
unfoldable pub route : RelayChoice → List Bytes → Bytes
unfolding relay_text
route relay [] = relay_text relay ++ codes ", address found by DNS"
route relay (a ∷ more) = listed (a ∷ more) ++ (codes " directly, " ++ relay_text relay)

-- `read_admission`: the stream that the controller opened, if it did.
unfoldable pub read_admission : Codec Admission → Option Stream → Option Admission
read_admission c none = none
read_admission c (some r) = elim (read_msg c r) [ err e ↦ none | ok (a, rest) ↦ some a ]

module _ (c : Wire) (sha256 : Bytes → Bytes) (show : FileError → Bytes)
    (copy : Stream → Sink → Sink) (m : Machine) where
  -- `serve_connection`: each stream that `accept_bi` gives is handled, until it gives none.
  unfoldable pub serve_connection : List (Stream × Sink) → Disk → Disk × List Handled
  serve_connection [] d = (d, [])
  serve_connection ((r, w) ∷ more) d =
      let h = handle c sha256 show copy m r w d in
      let (d', hs) = serve_connection more h.disk in (d', h ∷ hs)
