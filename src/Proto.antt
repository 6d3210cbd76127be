-- ===== src/Proto.antt =====
-- src/proto.rs: the messages of the wire format, and the constants that bound them.
pub mod Frame
pub mod Exec
pub mod File
use egdod.Prelude.{ℕ, List, Bytes, Option, none, some, ◌≡◌, ◌^◌, ◌*◌}

pub data Admission : Type 0 where
  pending approved : Admission

abbrev pub max_msg : ℕ
max_msg = 2 ^ 20

abbrev pub chunk : ℕ
chunk = 64 * 1024

pub data Request : Type 0 where
  exec : List Bytes → Request
  push : Bytes → ℕ → ℕ → Bytes → Request
  pull : Bytes → Request
  forward : Bytes → Request

-- An exit status is an `i32`, kept as its bit pattern below 2 ^ 32.
pub data ExecFrame : Type 0 where
  stdout : Bytes → ExecFrame
  stderr : Bytes → ExecFrame
  exit : ℕ → ExecFrame
  failed : Bytes → ExecFrame
  truncated : ExecFrame

pub data Ack : Type 0 where
  accepted : Ack
  refused : Bytes → Ack

pub data PullStart : Type 0 where
  found : ℕ → ℕ → Bytes → PullStart
  missing : PullStart
  failure : Bytes → PullStart

pub record Route : Type 0 where
  pub agent : Bytes

pub data PathKind : Type 0 where
  direct_local direct_lan direct_wan relayed unknown : PathKind

pub data RouteReply : Type 0 where
  routed : Bytes → PathKind → Bytes → RouteReply
  no_route : Bytes → RouteReply

-- The `postcard` encoding of one message type, which is another crate's: what it encodes it decodes.
pub record Codec (T : Type 0) : Type 0 where
  pub encode : T → Option Bytes
  pub decode : Bytes → Option T
  pub decode-encode : (m : T) (b : Bytes) → encode m ≡ some b → decode b ≡ some m
