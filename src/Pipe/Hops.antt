-- ===== src/Pipe/Hops.antt =====
-- What a forwarded connection carries.
use egdod.Prelude.{
  ◌∙◌, length, ◌++◌, ℕ, ◌≤◌, ◌≡◌, refl, none, true, false, [], ◌++◌, Bytes, length, ok,
}
use egdod.Io.{Sink, Stream, stream, Ending, eof}
use egdod.Proto.{accepted}
use egdod.Pipe.{Outlet, one_way, splice, agent_forward, forward_one}

abbrev fresh : ℕ → Outlet
fresh room = record { sink = record { sent = []; room = room }; shut = false }

-- What is documented of `copy`: it moves what comes, to its end, if the writer takes as much.
abbrev Copies : (Stream → Sink → Sink) → Type 0
Copies copy =
    (r : Stream) (w : Sink) → length r.bytes ≤ w.room → (copy r w).sent ≡ w.sent ++ r.bytes

-- Through the controller and the agent, what the client sends is what the service hears, and what
-- the service sends is what the client hears, each to its end, if every hop takes as much.
forwarded :
    (copy : Stream → Sink → Sink) (client service : Bytes) (e e' : Ending) (n : ℕ)
    → Copies copy
    → length client ≤ n
    → length service ≤ n
    → (to_client : Outlet) × (to_service : Outlet) × (over : Outlet) × (back : Outlet)
      × (forward_one copy accepted (stream client e) (fresh n) (stream back.sink.sent eof) (fresh n)
          ≡ ok (to_client, over))
      × (agent_forward copy none (stream service e') (fresh n) (stream over.sink.sent eof) (fresh n)
          ≡ (accepted, (to_service, back)))
      × (to_client.sink.sent ≡ service)
      × (to_service.sink.sent ≡ client)
      × (to_client.shut ≡ true)
      × (to_service.shut ≡ true)
unfolding forward_one agent_forward splice
forwarded copy client service e e' n moves fits fits' =
    let over = one_way copy (stream client e) (fresh n) in
    let back = one_way copy (stream service e') (fresh n) in
    let there : over.sink.sent ≡ client = moves (stream client e) (fresh n).sink fits in
    let here : back.sink.sent ≡ service = moves (stream service e') (fresh n).sink fits' in
    (
      one_way copy (stream back.sink.sent eof) (fresh n),
      one_way copy (stream over.sink.sent eof) (fresh n),
      over,
      back,
      refl,
      refl,
      moves (stream back.sink.sent eof) (fresh n).sink (rw here fits') ∙ here,
      moves (stream over.sink.sent eof) (fresh n).sink (rw there fits) ∙ there,
      refl,
      refl,
    )
