-- ===== src/Pipe.antt =====
-- src/pipe.rs, and the forwarding of a port over it: `forward_one` of src/controller.rs and the
-- `Forward` arm of `handle` in src/agent.rs. `tokio::io::copy` is another crate's, a parameter.
pub mod Hops
use egdod.Prelude.{
  ℕ, ◌+◌, ◌-◌, ◌≤◌, ◌≡◌, Option, none, some, Bool, true, false, ◌++◌, Bytes, length, take, Result,
  ok, err,
}
use egdod.Io.{Stream, Sink}
use egdod.Proto.{Ack, accepted, refused}

-- A writer, and whether it was shut down.
pub record Outlet : Type 0 where
  pub sink : Sink
  pub shut : Bool

module _ (copy : Stream → Sink → Sink) where
  -- Each direction's failures are passed over, and its writer is shut down after them.
  abbrev pub one_way : Stream → Outlet → Outlet
  one_way r o = record { sink = copy r o.sink; shut = true }

  -- The writers of `a` and of `b`, after both directions have ended.
  unfoldable pub splice : Stream → Outlet → Stream → Outlet → Outlet × Outlet
  splice ar aw br bw = (one_way br aw, one_way ar bw)

  -- The agent's side: the answer, and the writers to the service and to the controller.
  unfoldable pub agent_forward :
      Option Bytes → Stream → Outlet → Stream → Outlet → Ack × (Outlet × Outlet)
  unfolding splice
  agent_forward (some e) tcp_r tcp_w recv send = (refused e, (tcp_w, send))
  agent_forward none tcp_r tcp_w recv send = (accepted, splice tcp_r tcp_w recv send)

  -- The controller's side: the writers to its client and to the agent.
  unfoldable pub forward_one :
      Ack → Stream → Outlet → Stream → Outlet → Result Bytes (Outlet × Outlet)
  unfolding splice
  forward_one (refused e) tcp_r tcp_w r_read r_write = err e
  forward_one accepted tcp_r tcp_w r_read r_write = ok (splice tcp_r tcp_w r_read r_write)
