-- ===== src/Ble/Provision/Answered.antt =====
-- What a controller has from a target that acknowledged its offer.
use egdod.Prelude.{
  ◌≡◌, sym, ap, ◌∙◌, inl, inr, Option, some, true, [], ◌∷◌, ◌++◌, Bytes, codes, bytes_eq,
  bytes_eq_iff, ok, or_fail, >>=-eq-ok, or_fail-eq-ok, ok_inj, Bool-cases,
}
use egdod.Io.{Stream, Sink, write_all}
use egdod.Proto.Frame.{map_err}
use egdod.Ble.{
  ServerHello, server_label, identity_message, verify_server_hello, channel, no_randomness,
  authentication_failed, write_frame, read_frame,
}
use egdod.Ble.Hello.{verify_server_hello-eq-ok}
use egdod.Ble.Exchange.{
  Crypto, Identity, start_marker, nonce, session_key, crypt, decrypt, request_head, make_request,
  controller_attempt,
}

-- The two frames that came from the device, `r`: the hello, which the agent signed for this
-- controller, and an acknowledgement under the key that the two agreed on, over the transcript of this
-- exchange.
abbrev pub IsAnswered : Crypto → Identity → Bytes → Option Bytes → Stream → Type 0
IsAnswered c controller agent random r =
    (hello_bytes : Bytes) × (hello : ServerHello) × (secret : Bytes) × (ack : Bytes) × (r1 : Stream)
    × (r2 : Stream) × (read_frame r ≡ ok (hello_bytes, r1))
    × (verify_server_hello c.valid c.verify hello_bytes controller.id agent ≡ ok hello)
    × (c.verify agent (identity_message server_label controller.id agent (hello.ephemeral ∷ []))
          hello.signature
        ≡ true)
    × (random ≡ some secret)
    × (read_frame r1 ≡ ok (ack, r2))
    × let transcript =
        hello_bytes ++ request_head c controller agent hello.ephemeral (c.public_of secret) in
      (c.decrypt (session_key c (c.diffie_hellman secret hello.ephemeral) transcript) (nonce 1)
          transcript ack
        ≡ some (codes "ok"))

module _ (c : Crypto) (controller : Identity) (agent : Bytes) where
  make_request-eq-ok :
      (random : Option Bytes) (conf hello_bytes request key transcript : Bytes)
      → make_request c controller agent random conf hello_bytes ≡ ok (request, (key, transcript))
      → (hello : ServerHello) × (secret : Bytes) × (verify_server_hello c.valid c.verify hello_bytes
            controller.id agent
          ≡ ok hello)
        × (c.verify agent
              (identity_message server_label controller.id agent (hello.ephemeral ∷ []))
              hello.signature
            ≡ true)
        × (random ≡ some secret)
        × (transcript
            ≡ hello_bytes ++ request_head c controller agent hello.ephemeral (c.public_of secret))
        × (key ≡ session_key c (c.diffie_hellman secret hello.ephemeral) transcript)
  unfolding make_request
  make_request-eq-ok random conf hello_bytes request key transcript h =
      let (hello, verified, h1) =
        >>=-eq-ok (verify_server_hello c.valid c.verify hello_bytes controller.id agent) _ h in
      let (secret, drawn, h2) = >>=-eq-ok (or_fail random no_randomness) _ h1 in
      let head = request_head c controller agent hello.ephemeral (c.public_of secret) in
      let t = hello_bytes ++ head in
      let k = session_key c (c.diffie_hellman secret hello.ephemeral) t in
      let (cipher, sealed, h3) = >>=-eq-ok (crypt c k 0 t conf) _ h2 in
      let (size, from, whole, signed) =
        verify_server_hello-eq-ok c.valid c.verify hello_bytes controller.id agent hello verified in
      let made : (head ++ cipher, (k, t)) ≡ (request, (key, transcript)) = ok_inj h3 in
      let keys : k ≡ key = ap (λ (x : Bytes × (Bytes × Bytes)). x.1.0) made in
      let transcripts : t ≡ transcript = ap (λ (x : Bytes × (Bytes × Bytes)). x.1.1) made in
      (
        hello,
        secret,
        verified,
        signed,
        or_fail-eq-ok random no_randomness drawn,
        sym transcripts,
        sym keys
            ∙ ap (λ (x : Bytes). session_key c (c.diffie_hellman secret hello.ephemeral) x)
                transcripts,
      )

  pub controller_attempt-IsAnswered :
      (random : Option Bytes) (conf : Bytes) (r : Stream) (w w' : Sink)
      → controller_attempt c controller agent random conf r w ≡ ok w'
      → IsAnswered c controller agent random r
  unfolding controller_attempt
  controller_attempt-IsAnswered random conf r w w' h =
      let (w1, marked, h1) = >>=-eq-ok (map_err channel (write_all start_marker w)) _ h in
      let ((hello_bytes, r1), heard, h2) = >>=-eq-ok (read_frame r) _ h1 in
      let ((request, (key, transcript)), made, h3) =
        >>=-eq-ok (make_request c controller agent random conf hello_bytes) _ h2 in
      let (w2, sent, h4) = >>=-eq-ok (write_frame request w1) _ h3 in
      let ((ack, r2), got, h5) = >>=-eq-ok (read_frame r1) _ h4 in
      let (answer, opened, h6) = >>=-eq-ok (decrypt c key 1 transcript ack) _ h5 in
      let (hello, secret, verified, signed, drawn, whole, keyed) =
        make_request-eq-ok random conf hello_bytes request key transcript made in
      elim (Bool-cases (bytes_eq answer (codes "ok"))) [
        | inr e ↦ absurd (cc (rw e at h6))
        | inl e ↦ (
          hello_bytes,
          hello,
          secret,
          ack,
          r1,
          r2,
          heard,
          verified,
          signed,
          drawn,
          got,
          ap
                (λ (t : Bytes).
                  c.decrypt (session_key c (c.diffie_hellman secret hello.ephemeral) t) (nonce 1) t
                    ack)
                (sym whole)
              ∙ ap (λ (k : Bytes). c.decrypt k (nonce 1) transcript ack) (sym keyed)
              ∙ or_fail-eq-ok _ authentication_failed opened
              ∙ ap (λ (b : Bytes). some b) ((bytes_eq_iff answer (codes "ok")).0 e),
        )
      ]
