-- ===== src/Ble/Exchange/Vouched.antt =====
-- The credentials that an attempt takes are vouched for by the controller's signature.
use egdod.Prelude.{
  ◌≡◌, inl, inr, refl, Option, none, some, Bool, true, false, not, [], ◌∷◌, ◌++◌, Bytes, bytes_eq,
  take, drop, ok, or_fail, ensure, ◌>>=◌, ◌>>◌, >>=-eq-ok, >>-eq-ok, or_fail-eq-ok, arith,
  Bool-cases,
}
use egdod.Io.{Stream, Sink, read_exact}
use egdod.Proto.Frame.{map_err}
use egdod.Ble.{
  channel, bad_start, no_randomness, authentication_failed, empty_conf, client_label,
  identity_message, verify_client_hello, write_frame, read_frame,
}
use egdod.Ble.Exchange.{
  Crypto, Identity, Offer, start_marker, nonce, session_key, open_request, hello_of, receive_offer,
}

module _ (valid : Bytes → Bool) (verify : Bytes → Bytes → Bytes → Bool) where
  verify_client_hello-eq-ok :
      (request controller agent server_ephemeral key : Bytes)
      → verify_client_hello valid verify request controller agent server_ephemeral ≡ ok key
      → (key ≡ take 32 (drop 32 request))
        × (verify controller
              (identity_message client_label controller agent (server_ephemeral ∷ key ∷ []))
              (take 64 (drop 64 request))
            ≡ true)
  unfolding verify_client_hello
  verify_client_hello-eq-ok request controller agent server_ephemeral key h =
      let same : key ≡ take 32 (drop 32 request) = ground arith in (same, rw same (ground arith))

-- Credentials that the controller's signature vouches for, for this target and this attempt's key.
abbrev pub IsVouched : Crypto → Bytes → Bytes → Bytes → Bytes → Type 0
IsVouched c controller agent secret conf =
    (hello : Bytes) × (request : Bytes) × (key : Bytes) × (c.verify controller
        (identity_message client_label controller agent (c.public_of secret ∷ key ∷ []))
        (take 64 (drop 64 request))
      ≡ true)
    × (c.decrypt (session_key c (c.diffie_hellman secret key) (hello ++ take 128 request)) (nonce 0)
          (hello ++ take 128 request) (drop 128 request)
        ≡ some conf)
    × (bytes_eq conf [] ≡ false)

offered :
    (clear : Option Bytes) (key transcript : Bytes) (w : Sink) (o : Offer)
    → (or_fail clear authentication_failed >>= λ conf.
        ensure (not (bytes_eq conf [])) empty_conf
        >> ok (record { conf = conf; key = key; transcript = transcript; writer = w }))
      ≡ ok o
    → (clear ≡ some o.conf) × (bytes_eq o.conf [] ≡ false)
offered none key transcript w o h = cc
offered (some conf) key transcript w o h = elim (Bool-cases (bytes_eq conf [])) [
  | inl e ↦ absurd (ground (arith, e))
  | inr e ↦
      let same : o ≡ record { conf = conf; key = key; transcript = transcript; writer = w } =
        ground (arith, e) in
      rw same (refl, e)
]

module _ (c : Crypto) where
  open_request-IsVouched :
      (controller agent secret hello request : Bytes) (w : Sink) (o : Offer)
      → open_request c controller agent secret hello request w ≡ ok o
      → IsVouched c controller agent secret o.conf
  unfolding open_request
  open_request-IsVouched controller agent secret hello request w o h =
      let (key, verified, h1) =
        >>=-eq-ok
          (verify_client_hello c.valid c.verify request controller agent (c.public_of secret)) _
          h in
      let transcript = hello ++ take 128 request in
      let sealing = session_key c (c.diffie_hellman secret key) transcript in
      let (opened, full) =
        offered (c.decrypt sealing (nonce 0) transcript (drop 128 request)) sealing transcript w o
          h1 in
      let (same, signed) =
        verify_client_hello-eq-ok c.valid c.verify request controller agent (c.public_of secret) key
          verified in
      (hello, request, key, signed, opened, full)

  pub receive_offer-IsVouched :
      (target : Identity) (controller : Bytes) (random : Option Bytes) (r : Stream) (w : Sink)
      (o : Offer)
      → receive_offer c target controller random r w ≡ ok o
      → (secret : Bytes) × (random ≡ some secret) × IsVouched c controller target.id secret o.conf
  unfolding receive_offer
  receive_offer-IsVouched target controller random r w o h =
      let ((start, r1), read, h1) = >>=-eq-ok (map_err channel (read_exact 1 r)) _ h in
      let h2 = >>-eq-ok (ensure (bytes_eq start start_marker) bad_start) _ h1 in
      let (secret, drawn, h3) = >>=-eq-ok (or_fail random no_randomness) _ h2 in
      let hello = hello_of c target controller secret in
      let (w1, says, h4) = >>=-eq-ok (write_frame hello w) _ h3 in
      let ((request, r2), hears, h5) = >>=-eq-ok (read_frame r1) _ h4 in
      (
        secret,
        or_fail-eq-ok random no_randomness drawn,
        open_request-IsVouched controller target.id secret hello request w1 o h5,
      )
