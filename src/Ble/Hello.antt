-- ===== src/Ble/Hello.antt =====
-- What a hello that was accepted proves.
use egdod.Prelude.{
  ℕ, ◌+◌, ◌≡◌, ◌≢◌, refl, sym, ap, ◌∙◌, Bool, true, List, [], ◌∷◌, ◌++◌, Bytes, length, take, drop,
  bytes_eq, bytes_eq_iff, ok, arith, take-length, drop-length, length-append, zero, suc,
  take-append-drop, bytes_eq_refl,
}
use mathlib.Core.List.{append-nil}
use mathlib.Core.Path.{subst}
use egdod.Ble.{
  ServerHello, server_label, client_label, identity_message, server_hello, parse_server_hello,
  verify_server_hello,
}

-- Of two texts cut at the same place, both parts are equal.
split_eq : (a b : Bytes) {x y : Bytes} → length a ≡ length b → a ++ x ≡ b ++ y → (a ≡ b) × (x ≡ y)
split_eq [] [] h e = (refl, e)
split_eq [] (c ∷ b) h e = absurd (omega (arith, h))
split_eq (c ∷ a) [] h e = absurd (omega (arith, h))
split_eq (c ∷ a) (d ∷ b) h e =
    let (same, rest) = split_eq a b (omega (arith, h)) (cc e) in
    let head : c ≡ d = cc e in (cc (same, head), rest)

abbrev pub Is32 : Bytes → Type 0
Is32 k = length k ≡ 32

-- A signature of one side is none of the other's: whatever the ids and the keys, the two sides sign
-- different messages.
identity_message-apart :
    (controller agent controller' agent' : Bytes) (keys keys' : List Bytes)
    → identity_message server_label controller agent keys
      ≢ identity_message client_label controller' agent' keys'
unfolding identity_message
identity_message-apart controller agent controller' agent' keys keys' e =
    apart ((bytes_eq_iff server_label client_label).1 (split_eq server_label client_label refl e).0)
  where
    apart : bytes_eq server_label client_label ≡ true → ⊥
    apart h = cc

-- What a target signs determines the controller, the agent and the ephemeral key: ids of 32 bytes
-- run together in one way only.
identity_message_inj :
    (label controller agent key controller' agent' key' : Bytes)
    → Is32 controller
    → Is32 agent
    → Is32 controller'
    → Is32 agent'
    → identity_message label controller agent (key ∷ [])
      ≡ identity_message label controller' agent' (key' ∷ [])
    → (controller ≡ controller') × (agent ≡ agent') × (key ≡ key')
unfolding identity_message
identity_message_inj label controller agent key controller' agent' key' hc ha hc' ha' e =
    let (l, r) = split_eq label label refl e in
    let (c, r') = split_eq controller controller' (hc ∙ sym hc') r in
    let (a, k) = split_eq agent agent' (ha ∙ sym ha') r' in
    (c, a, sym (append-nil key) ∙ k ∙ append-nil key')

drop_nil : (n : ℕ) → drop {A = ℕ} n [] ≡ []
drop_nil zero = refl
drop_nil (suc n) = refl

pub drop-drop : (n m : ℕ) (b : Bytes) → drop n (drop m b) ≡ drop (m + n) b
drop-drop n zero b = ap (λ (k : ℕ). drop k b) (omega arith)
drop-drop n (suc m) [] = drop_nil n ∙ sym (drop_nil (suc m + n))
drop-drop n (suc m) (c ∷ b) =
    let sum : suc (m + n) ≡ suc m + n = omega arith in
    drop-drop n m b ∙ ap (λ (k : ℕ). drop k (c ∷ b)) sum

pub take-length' : (n : ℕ) (a b : Bytes) → length a ≡ n → take n (a ++ b) ≡ a
take-length' n a b h = subst (λ (k : ℕ). take k (a ++ b) ≡ a) h (take-length a b)

pub drop-length' : (n : ℕ) (a b : Bytes) → length a ≡ n → drop n (a ++ b) ≡ b
drop-length' n a b h = subst (λ (k : ℕ). drop k (a ++ b) ≡ b) h (drop-length a b)

module _ (valid : Bytes → Bool) (verify : Bytes → Bytes → Bytes → Bool) where
  -- The controller's check: a hello that it accepts is from the agent that it asked for, and that
  -- agent signed it for this controller and this ephemeral key.
  pub verify_server_hello-eq-ok :
      (bytes controller expected : Bytes) (hello : ServerHello)
      → verify_server_hello valid verify bytes controller expected ≡ ok hello
      → (length bytes ≡ 128)
        × (hello.agent ≡ expected)
        × (bytes ≡ expected ++ (hello.ephemeral ++ hello.signature))
        × (verify expected
              (identity_message server_label controller expected (hello.ephemeral ∷ []))
              hello.signature
            ≡ true)
  unfolding verify_server_hello parse_server_hello
  verify_server_hello-eq-ok bytes controller expected hello h =
      let same : hello ≡ record {
        agent = take 32 bytes;
        ephemeral = take 32 (drop 32 bytes);
        signature = drop 64 bytes;
      } =
        ground arith in
      let agent : take 32 bytes ≡ expected =
        ground (arith, bytes_eq_iff (take 32 bytes) expected) in
      let whole : bytes ≡ take 32 bytes ++ (take 32 (drop 32 bytes) ++ drop 64 bytes) =
        sym (take-append-drop 32 bytes)
        ∙ ap (λ (t : Bytes). take 32 bytes ++ t)
            (sym (take-append-drop 32 (drop 32 bytes))
              ∙ ap (λ (t : Bytes). take 32 (drop 32 bytes) ++ t) (drop-drop 32 32 bytes)) in
      (
        ground arith,
        ap (λ (x : ServerHello). x.agent) same ∙ agent,
        rw same (whole ∙ ap (λ (t : Bytes). t ++ (take 32 (drop 32 bytes) ++ drop 64 bytes)) agent),
        ground arith,
      )

  -- A hello that the target made is accepted by the controller that it is for, if it is a controller
  -- for which what the target signs verifies.
  pub verify_server_hello-server_hello :
      (sign : Bytes → Bytes) (agent controller ephemeral : Bytes)
      → Is32 agent
      → Is32 ephemeral
      → ((m : Bytes) → length (sign m) ≡ 64)
      → valid agent ≡ true
      → ((m : Bytes) → verify agent m (sign m) ≡ true)
      → verify_server_hello valid verify
          (server_hello valid verify sign agent controller ephemeral)
          controller
          agent
        ≡ ok (record {
          agent = agent;
          ephemeral = ephemeral;
          signature = sign (identity_message server_label controller agent (ephemeral ∷ []));
        })
  unfolding verify_server_hello parse_server_hello server_hello
  verify_server_hello-server_hello sign agent controller ephemeral ha he hs ok_id signed =
      let m : Bytes = identity_message server_label controller agent (ephemeral ∷ []) in
      let first : take 32 (agent ++ (ephemeral ++ sign m)) ≡ agent = take-length' 32 agent _ ha in
      let rest : drop 32 (agent ++ (ephemeral ++ sign m)) ≡ ephemeral ++ sign m =
        drop-length' 32 agent _ ha in
      let second : take 32 (ephemeral ++ sign m) ≡ ephemeral = take-length' 32 ephemeral _ he in
      let last : drop 64 (agent ++ (ephemeral ++ sign m)) ≡ sign m =
        sym (drop-drop 32 32 (agent ++ (ephemeral ++ sign m)))
        ∙ ap (λ (t : Bytes). drop 32 t) rest
        ∙ drop-length' 32 ephemeral _ he in
      let long : length (agent ++ (ephemeral ++ sign m)) ≡ 128 = omega (
        arith,
        length-append agent (ephemeral ++ sign m),
        length-append ephemeral (sign m),
        hs m,
        ha,
        he,
      ) in
      ground (arith, first, rest, second, last, long, ok_id, signed m, bytes_eq_refl agent)
