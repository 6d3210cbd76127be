-- ===== src/Controller/Listen.antt =====
-- src/controller.rs, the listeners: `accept_local` on the control socket, `forward_listener` and `forward` on a
-- local port; and `init`. What `accept` gives, one connection or failure after the other, is a value.
use egdod.Prelude.{
  ℕ, ◌+◌, List, [], ◌∷◌, ◌++◌, Bytes, codes, Result, ok, err, Option, none, some, ◌>>=◌,
}
use egdod.Link.{Ipv4, show_ipv4, decimal, digits}
use egdod.State.Dir.{StateDir, Held, EnsureCalls, DirError, init_key, join}
use egdod.State.Key.{KeyCalls}

-- Each connection is served beside the next; the first failure ends the loop.
unfoldable pub accept_local : {E T : Type 0} → List (Result E T) → List T × Option E
accept_local [] = ([], none)
accept_local (err e ∷ rs) = ([], some e)
accept_local (ok stream ∷ rs) = let (served, ended) = accept_local rs in (stream ∷ served, ended)

-- The connections that `forward_one` gets, and the milliseconds slept over failures.
unfoldable pub forward_loop : {E T : Type 0} → List (Result E T) → List T × ℕ
forward_loop [] = ([], 0)
forward_loop (err e ∷ rs) = let (taken, slept) = forward_loop rs in (taken, slept + 200)
forward_loop (ok tcp ∷ rs) = let (taken, slept) = forward_loop rs in (tcp ∷ taken, slept)

pub record SocketAddr : Type 0 where
  pub ip : Ipv4
  pub port : ℕ

-- The listener is bound, and its address is asked for, before anything is accepted.
unfoldable pub forward_listener :
    {E T : Type 0}
    → (SocketAddr → Result E (Result E SocketAddr))
    → SocketAddr
    → List (Result E T)
    → Result E (SocketAddr × (List T × ℕ))
unfolding forward_loop
forward_listener bind local accepts = do
  local_addr ← bind local
  bound ← local_addr
  ok (bound, forward_loop accepts)

abbrev pub localhost : ℕ → SocketAddr
localhost port = record { ip = record { a = 127; b = 0; c = 0; d = 1 }; port = port }

unfoldable pub show_addr : SocketAddr → Bytes
unfolding show_ipv4 digits
show_addr s = show_ipv4 s.ip ++ (codes ":" ++ decimal s.port)

-- `forward`: what it prints, and what its listener does until it is interrupted.
unfoldable pub forward :
    {E T : Type 0}
    → (SocketAddr → Result E (Result E SocketAddr))
    → ℕ
    → Bytes
    → List (Result E T)
    → Result E (Bytes × (List T × ℕ))
unfolding forward_listener show_addr
forward bind local_port remote accepts = do
  (bound, handed) ← forward_listener bind (localhost local_port) accepts
  ok (
    codes "forwarding "
        ++ (show_addr bound
            ++ (codes " -> " ++ (remote ++ codes " on the target (ctrl-c to stop)"))),
    handed,
  )

abbrev pub with_report :
    (Bytes → Bytes)
    → StateDir
    → Held × Result DirError Bytes
    → Held × Result DirError (Bytes × Bytes)
with_report node_id s (h, err e) = (h, err e)
with_report node_id s (h, ok key) = (
  h,
  ok (
    node_id key,
    codes "egdod: controller key at "
        ++ (join s.root (codes "controller.key")
            ++ (32 ∷ 226 ∷ 128 ∷ 148 ∷ codes " bake the node id above into images; it is public")),
  ),
)

-- `init`: the node id goes to the standard output, where the key is to the error output. `node_id` is
-- iroh's text of a secret key's public key.
unfoldable pub init :
    (Bytes → Bytes)
    → EnsureCalls
    → KeyCalls
    → Bytes
    → StateDir
    → Held
    → Held × Result DirError (Bytes × Bytes)
unfolding init_key
init node_id e c pid s h = with_report node_id s (init_key e c pid s h)
