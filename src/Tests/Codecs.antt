-- ===== src/Tests/Codecs.antt =====
-- Small encodings that stand for postcard, serde_json and iroh's text form of a key.
use egdod.Prelude.{
  ℕ, zero, suc, ◌+◌, ◌≤◌, ◌≡◌, ◌≢◌, refl, ap, Option, none, some, List, [], ◌∷◌, ◌++◌, Bytes,
  length, ◌==◌, if◌then◌else◌, All, replicate, arith,
}
use egdod.Proto.{Codec, ExecFrame, stdout, stderr, exit, failed, truncated}
use egdod.Proto.Exec.Ceiling.{payload}
use egdod.State.Approved.{KeyText, IsPlain}
use egdod.State.Pending.{PendingAgent}

abbrev encode_frame : ExecFrame → Option Bytes
encode_frame (stdout b) = some (0 ∷ b)
encode_frame (stderr b) = some (1 ∷ b)
encode_frame (exit c) = some (2 ∷ c ∷ [])
encode_frame (failed e) = some (3 ∷ e)
encode_frame truncated = some (4 ∷ [])

abbrev decode_frame : Bytes → Option ExecFrame
decode_frame (zero ∷ b) = some (stdout b)
decode_frame (suc zero ∷ b) = some (stderr b)
decode_frame (suc (suc zero) ∷ c ∷ []) = some (exit c)
decode_frame (suc (suc (suc zero)) ∷ e) = some (failed e)
decode_frame (suc (suc (suc (suc zero))) ∷ []) = some truncated
decode_frame _ = none

pub decode_frame-encode_frame :
    (f : ExecFrame) (b : Bytes) → encode_frame f ≡ some b → decode_frame b ≡ some f
decode_frame-encode_frame (stdout x) b e = ground (arith, e)
decode_frame-encode_frame (stderr x) b e = ground (arith, e)
decode_frame-encode_frame (exit c) b e = ground (arith, e)
decode_frame-encode_frame (failed x) b e = ground (arith, e)
decode_frame-encode_frame truncated b e = ground (arith, e)

abbrev pub frames : Codec ExecFrame
frames = record {
  encode = encode_frame;
  decode = decode_frame;
  decode-encode = decode_frame-encode_frame;
}

pub payload-decode_frame :
    (b : Bytes) (f : ExecFrame) → frames.decode b ≡ some f → payload f ≤ length b
payload-decode_frame [] f e = ground (arith, e)
payload-decode_frame (zero ∷ b) f e = ground (arith, e)
payload-decode_frame (suc zero ∷ b) f e = ground (arith, e)
payload-decode_frame (suc (suc zero) ∷ []) f e = ground (arith, e)
payload-decode_frame (suc (suc zero) ∷ c ∷ []) f e = ground (arith, e)
payload-decode_frame (suc (suc zero) ∷ c ∷ d ∷ b) f e = ground (arith, e)
payload-decode_frame (suc (suc (suc zero)) ∷ b) f e = ground (arith, e)
payload-decode_frame (suc (suc (suc (suc zero))) ∷ []) f e = ground (arith, e)
payload-decode_frame (suc (suc (suc (suc zero))) ∷ c ∷ b) f e = ground (arith, e)
payload-decode_frame (suc (suc (suc (suc (suc n)))) ∷ b) f e = ground (arith, e)

-- A list of one agent at most.
abbrev encode_agents : List PendingAgent → Option Bytes
encode_agents [] = some []
encode_agents (p ∷ []) = some (p.first_seen ∷ p.last_seen ∷ p.attempts ∷ p.pubkey)
encode_agents (p ∷ q ∷ ps) = none

abbrev decode_agents : Bytes → Option (List PendingAgent)
decode_agents [] = some []
decode_agents (a ∷ b ∷ c ∷ k) =
    some (record { pubkey = k; first_seen = a; last_seen = b; attempts = c } ∷ [])
decode_agents _ = none

pub decode_agents-encode_agents :
    (l : List PendingAgent) (b : Bytes) → encode_agents l ≡ some b → decode_agents b ≡ some l
decode_agents-encode_agents [] b e = ground (arith, e)
decode_agents-encode_agents (p ∷ []) b e = ground (arith, e)
decode_agents-encode_agents (p ∷ q ∷ ps) b e = ground (arith, e)

abbrev pub agents : Codec (List PendingAgent)
agents = record {
  encode = encode_agents;
  decode = decode_agents;
  decode-encode = decode_agents-encode_agents;
}

-- A key prints as `k`, then each byte in unary.
abbrev print_bytes : Bytes → Bytes
print_bytes [] = []
print_bytes (x ∷ xs) = replicate x 98 ++ (97 ∷ print_bytes xs)

abbrev parse_bytes : ℕ → Bytes → Bytes
parse_bytes n [] = []
parse_bytes n (c ∷ s) =
    let next = parse_bytes 0 s in
    let more = parse_bytes (suc n) s in if c == 97 then n ∷ next else more

parse_bytes-replicate :
    (x n : ℕ) (s : Bytes) → parse_bytes n (replicate x 98 ++ (97 ∷ s)) ≡ (x + n) ∷ parse_bytes 0 s
parse_bytes-replicate zero n s = ground arith
parse_bytes-replicate (suc x) n s = ground (arith, parse_bytes-replicate x (suc n) s)

pub parse_bytes-print_bytes : (k : Bytes) → parse_bytes 0 (print_bytes k) ≡ k
parse_bytes-print_bytes [] = refl
parse_bytes-print_bytes (x ∷ k) =
    ground (arith, parse_bytes-replicate x 0 (print_bytes k), parse_bytes-print_bytes k)

IsPlain-unary : (x : ℕ) (s : Bytes) → All IsPlain s → All IsPlain (replicate x 98 ++ (97 ∷ s))
IsPlain-unary zero s h = ((refl, refl), h)
IsPlain-unary (suc x) s h = ((refl, refl), IsPlain-unary x s h)

pub IsPlain-bytes : (k : Bytes) → All IsPlain (print_bytes k)
IsPlain-bytes [] = tt
IsPlain-bytes (x ∷ k) = IsPlain-unary x (print_bytes k) (IsPlain-bytes k)

abbrev parse_key : Bytes → Option Bytes
parse_key [] = none
parse_key (c ∷ s) = if c == 107 then some (parse_bytes 0 s) else none

pub print_unary_some : (k : Bytes) → 107 ∷ print_bytes k ≢ []
print_unary_some k e = cc

abbrev pub unary_keys : KeyText
unary_keys = record {
  print = λ k. 107 ∷ print_bytes k;
  parse = parse_key;
  parse-print = λ k. ap some (parse_bytes-print_bytes k);
  print_some = print_unary_some;
  print-plain = λ k. ((refl, refl), IsPlain-bytes k);
}
