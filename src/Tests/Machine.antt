-- ===== src/Tests/Machine.antt =====
-- A small encoding of the messages, and a target that a controller reaches over it.
use egdod.Prelude.{
  zero, suc, ◌≡◌, Option, none, some, true, false, [], ◌∷◌, Bytes, codes, ok, err, arith,
}
use egdod.Io.{Stream, Sink}
use egdod.Disk.{FilePath, File, Disk}
use egdod.Proto.{
  Request, exec, push, pull, forward, Ack, accepted, refused, PullStart, found, missing, failure,
  RouteReply, routed, direct_lan,
}
use egdod.Proto.File.{FileError, Os}
use egdod.Agent.{finished}
use egdod.Agent.Handle.{Machine, Wire, Child}
use egdod.Tests.Codecs.{frames}

-- A command of one word, a path, or a file with a name of one letter.
abbrev encode_request : Request → Option Bytes
encode_request (exec (program ∷ [])) = some (0 ∷ program)
encode_request (exec _) = none
encode_request (push (p ∷ []) mode len digest) = some (2 ∷ p ∷ mode ∷ len ∷ digest)
encode_request (push _ mode len digest) = none
encode_request (pull path) = some (1 ∷ path)
encode_request (forward addr) = none

abbrev decode_request : Bytes → Option Request
decode_request (zero ∷ program) = some (exec (program ∷ []))
decode_request (suc zero ∷ path) = some (pull path)
decode_request (suc (suc zero) ∷ p ∷ mode ∷ len ∷ digest) = some (push (p ∷ []) mode len digest)
decode_request _ = none

pub decode_request-encode_request :
    (r : Request) (b : Bytes) → encode_request r ≡ some b → decode_request b ≡ some r
decode_request-encode_request (exec []) b h = cc h
decode_request-encode_request (exec (p ∷ [])) b h = ground (arith, h)
decode_request-encode_request (exec (p ∷ q ∷ args)) b h = cc h
decode_request-encode_request (push [] mode len digest) b h = cc h
decode_request-encode_request (push (p ∷ []) mode len digest) b h = ground (arith, h)
decode_request-encode_request (push (p ∷ q ∷ path) mode len digest) b h = cc h
decode_request-encode_request (pull path) b h = ground (arith, h)
decode_request-encode_request (forward addr) b h = cc h

abbrev encode_ack : Ack → Option Bytes
encode_ack accepted = some []
encode_ack (refused e) = some (0 ∷ e)

abbrev decode_ack : Bytes → Option Ack
decode_ack [] = some accepted
decode_ack (x ∷ e) = some (refused e)

pub decode_ack-encode_ack : (a : Ack) (b : Bytes) → encode_ack a ≡ some b → decode_ack b ≡ some a
decode_ack-encode_ack accepted b h = ground (arith, h)
decode_ack-encode_ack (refused e) b h = ground (arith, h)

abbrev encode_start : PullStart → Option Bytes
encode_start (found mode len digest) = some (0 ∷ mode ∷ len ∷ digest)
encode_start missing = some (1 ∷ [])
encode_start (failure e) = some (2 ∷ e)

abbrev decode_start : Bytes → Option PullStart
decode_start (zero ∷ mode ∷ len ∷ digest) = some (found mode len digest)
decode_start (suc zero ∷ []) = some missing
decode_start (suc (suc zero) ∷ e) = some (failure e)
decode_start _ = none

pub decode_start-encode_start :
    (s : PullStart) (b : Bytes) → encode_start s ≡ some b → decode_start b ≡ some s
decode_start-encode_start (found mode len digest) b h = ground (arith, h)
decode_start-encode_start missing b h = ground (arith, h)
decode_start-encode_start (failure e) b h = ground (arith, h)

abbrev pub wire : Wire
wire = record {
  requests = record {
    encode = encode_request;
    decode = decode_request;
    decode-encode = decode_request-encode_request;
  };
  frames = frames;
  acks = record { encode = encode_ack; decode = decode_ack; decode-encode = decode_ack-encode_ack };
  starts = record {
    encode = encode_start;
    decode = decode_start;
    decode-encode = decode_start-encode_start;
  };
}

abbrev pub child : Child
child = record {
  outs = (104 ∷ []) ∷ [];
  errs = [];
  turns = [];
  out_in_hand = false;
  err_in_hand = false;
  looks = finished ∷ [];
  status = some (record { code = some 3; signal = none });
  late = false;
}

abbrev pub sha : Bytes → Bytes
sha b = b

abbrev pub texts : FileError → Bytes
texts e = codes "error"

abbrev pub copy : Stream → Sink → Sink
copy r w = w

abbrev pub os : Os
os = record {
  mkdir_ok = true;
  space = some (record { blocks = 0; free_blocks = 0; fragment = 0 });
  nonce = λ i. some (7 ∷ []);
  open_ok = true;
  disk_room = 100;
  flush_ok = true;
  set_mode_ok = true;
  rename_ok = true;
  remove_ok = true;
}

abbrev pub at : Bytes → FilePath
at b = record { dir = []; name = some b }

abbrev pub machine : Machine
machine = record {
  spawn = λ program args. ok child;
  ran = λ program args d. d;
  path = at;
  os = os;
  reads = λ r. record { chunks = r.bytes ∷ []; ending = r.ending };
  refuses = λ p. none;
  meanwhile = λ d. d;
  connect = λ addr. err (codes "refused");
}

abbrev pub log : File
log = record { content = 5 ∷ 6 ∷ []; mode = 0o644 }

abbrev pub target : Disk
target p = some log

abbrev pub local : Disk
local p = none

abbrev pub via : Option RouteReply
via = some (routed (codes "a") direct_lan (codes "b"))
