-- ===== src/Ble/Exchange/Agreement.antt =====
-- The two ends of a provisioning attempt, talking to each other.
use egdod.Prelude.{
  ◌+◌, ◌-◌, ◌≤◌, ◌≡◌, sym, ap, ◌∙◌, some, true, false, [], ◌∷◌, ◌++◌, Bytes, codes, bytes_eq,
  bytes_eq_refl, length, take, drop, leb, le→leb, ok, arith, length-append,
}
use mathlib.Core.List.{append_assoc}
use egdod.Io.{stream, Sink, Ending}
use egdod.Disk.{Disk}
use egdod.Ble.{
  client_label, server_label, identity_message, server_hello, verify_client_hello, install,
  max_frame,
}
use egdod.Ble.Hello.{Is32, verify_server_hello-server_hello, take-length', drop-length', drop-drop}
use egdod.Ble.Channel.{framed, read_framed}
use egdod.Ble.Exchange.{
  Crypto, Identity, Offer, start_marker, nonce, session_key, open_request, hello_of, receive_offer,
  never, Output, Attempted, acknowledge, finish_offer, take_offer, target_attempt, request_head,
  make_request, controller_attempt,
}
use egdod.Ble.Exchange.Said.{write_framed, read_marker, write_marker, finish_offer-ok}

module _ (c : Crypto) (target controller : Identity) (ha : Is32 target.id) (hc : Is32 controller.id)
    (sa : (m : Bytes) → length (target.sign m) ≡ 64)
    (sc : (m : Bytes) → length (controller.sign m) ≡ 64) (target_valid : c.valid target.id ≡ true)
    (controller_valid : c.valid controller.id ≡ true)
    (target_signs : (m : Bytes) → c.verify target.id m (target.sign m) ≡ true)
    (controller_signs : (m : Bytes) → c.verify controller.id m (controller.sign m) ≡ true)
    (s t : Bytes) (hs : Is32 s) (ht : Is32 t) where
  -- What the two ends say, from the secrets: `s` is the target's and `t` the controller's.
  abbrev pub hello : Bytes
  hello = hello_of c target controller.id s

  abbrev pub head : Bytes
  head = request_head c controller target.id (c.public_of s) (c.public_of t)

  abbrev pub key : Bytes
  key = session_key c (c.diffie_hellman t (c.public_of s)) (hello ++ head)

  length-hello : length hello ≡ 128
  unfolding server_hello
  length-hello =
      let m : Bytes = identity_message server_label controller.id target.id (c.public_of s ∷ []) in
      omega (
        arith,
        length-append target.id (c.public_of s ++ target.sign m),
        length-append (c.public_of s) (target.sign m),
        c.length-public_of s hs,
        sa m,
        ha,
      )

  length-head : length head ≡ 128
  length-head =
      let m : Bytes =
        identity_message client_label controller.id target.id
          (c.public_of s ∷ c.public_of t ∷ []) in
      omega (
        arith,
        length-append controller.id (c.public_of t ++ controller.sign m),
        length-append (c.public_of t) (controller.sign m),
        c.length-public_of t ht,
        sc m,
        hc,
      )

  -- The target accepts the controller's request, and takes its ephemeral key from it.
  verify_client_hello-head :
      (cipher : Bytes)
      → 16 ≤ length cipher
      → verify_client_hello c.valid c.verify
          (head ++ cipher)
          controller.id
          target.id
          (c.public_of s)
        ≡ ok (c.public_of t)
  unfolding verify_client_hello
  verify_client_hello-head cipher long =
      let m : Bytes =
        identity_message client_label controller.id target.id
          (c.public_of s ∷ c.public_of t ∷ []) in
      let whole : head ++ cipher
          ≡ controller.id ++ (c.public_of t ++ (controller.sign m ++ cipher)) =
        append_assoc controller.id (c.public_of t ++ controller.sign m) cipher
        ∙ ap (λ (b : Bytes). controller.id ++ b)
            (append_assoc (c.public_of t) (controller.sign m) cipher) in
      let first : take 32 (head ++ cipher) ≡ controller.id =
        ap (λ (b : Bytes). take 32 b) whole ∙ take-length' 32 controller.id _ hc in
      let rest : drop 32 (head ++ cipher) ≡ c.public_of t ++ (controller.sign m ++ cipher) =
        ap (λ (b : Bytes). drop 32 b) whole ∙ drop-length' 32 controller.id _ hc in
      let second : take 32 (drop 32 (head ++ cipher)) ≡ c.public_of t =
        ap (λ (b : Bytes). take 32 b) rest
        ∙ take-length' 32 (c.public_of t) _ (c.length-public_of t ht) in
      let third : take 64 (drop 64 (head ++ cipher)) ≡ controller.sign m =
        ap (λ (b : Bytes). take 64 b)
          (sym (drop-drop 32 32 (head ++ cipher))
            ∙ ap (λ (b : Bytes). drop 32 b) rest
            ∙ drop-length' 32 (c.public_of t) _ (c.length-public_of t ht))
        ∙ take-length' 64 (controller.sign m) cipher (sc m) in
      let enough : leb 144 (length (head ++ cipher)) ≡ true =
        le→leb 144 _ (omega (arith, length-append head cipher, length-head)) in
      rw (
        enough,
        first,
        controller_valid,
        bytes_eq_refl controller.id,
        second,
        third,
        controller_signs m,
      )

  -- So it opens the credentials under the key that the controller sealed them with.
  open_request-head :
      (conf cipher : Bytes) (w : Sink)
      → bytes_eq conf [] ≡ false
      → c.encrypt key (nonce 0) (hello ++ head) conf ≡ some cipher
      → open_request c controller.id target.id s hello (head ++ cipher) w
        ≡ ok (record { conf = conf; key = key; transcript = hello ++ head; writer = w })
  unfolding open_request
  open_request-head conf cipher w full sealed =
      let accepts =
        verify_client_hello-head cipher (omega (arith, c.length-encrypt _ _ _ _ _ sealed)) in
      let front = take-length' 128 head cipher length-head in
      let back = drop-length' 128 head cipher length-head in
      let opens : c.decrypt key (nonce 0) (hello ++ head) cipher ≡ some conf =
        c.decrypt-encrypt _ _ _ _ _ sealed in
      rw (accepts, front, back, c.diffie_hellman_comm s t, opens, full)

  make_request-hello :
      (conf cipher : Bytes)
      → c.encrypt key (nonce 0) (hello ++ head) conf ≡ some cipher
      → make_request c controller target.id (some t) conf hello
        ≡ ok (head ++ cipher, (key, hello ++ head))
  unfolding make_request
  make_request-hello conf cipher sealed =
      let accepts =
        verify_server_hello-server_hello c.valid c.verify target.sign target.id controller.id
          (c.public_of s) ha (c.length-public_of s hs) sa target_valid target_signs in
      rw (accepts, sealed)

  abbrev after : Sink → Bytes → Sink
  after w b = record { sent = w.sent ++ framed b; room = w.room - (length b + 4) }

  abbrev offer : Bytes → Sink → Offer
  offer conf w = record { conf = conf; key = key; transcript = hello ++ head; writer = w }

  receive_offer-request :
      (conf cipher more : Bytes) (w : Sink) (e : Ending)
      → bytes_eq conf [] ≡ false
      → length conf ≤ 65392
      → c.encrypt key (nonce 0) (hello ++ head) conf ≡ some cipher
      → 200 ≤ w.room
      → receive_offer c target controller.id
          (some s)
          (stream (start_marker ++ (framed (head ++ cipher) ++ more)) e)
          w
        ≡ ok (record { conf = conf; key = key; transcript = hello ++ head; writer = after w hello })
  unfolding receive_offer
  receive_offer-request conf cipher more w e full small sealed room =
      let size : length (head ++ cipher) ≤ max_frame =
        omega (arith, length-append head cipher, length-head, c.length-encrypt _ _ _ _ _ sealed) in
      let says =
        write_framed hello w (omega (arith, length-hello)) (omega (arith, length-hello, room)) in
      rw (
        read_marker (framed (head ++ cipher) ++ more) e,
        says,
        read_framed (head ++ cipher) more e size,
        open_request-head conf cipher (after w hello) full sealed,
      )

  acknowledge-ok :
      (conf ack : Bytes) (w : Sink) (d : Disk)
      → c.encrypt key (nonce 1) (hello ++ head) (codes "ok") ≡ some ack
      → 22 ≤ w.room
      → acknowledge c never
          (record { conf = conf; key = key; transcript = hello ++ head; writer = w })
          d
        ≡ record { disk = d; writer = after w ack; installed = true; outcome = some (ok tt) }
  unfolding acknowledge
  acknowledge-ok conf ack w d answered room =
      let size = c.length-encrypt _ _ _ _ _ answered in
      let says = write_framed ack w (omega (arith, size)) (omega (arith, size, room)) in
      rw (acknowledge, answered, says)

  -- Both ends bring the exchange to its end: each one's bytes, put on the other's stream, are what
  -- the other one needs.
  pub attempts_agree :
      (conf cipher ack more more' : Bytes) (out : Output) (d : Disk) (w v : Sink) (e e' : Ending)
      → bytes_eq conf [] ≡ false
      → length conf ≤ 65392
      → c.encrypt key (nonce 0) (hello ++ head) conf ≡ some cipher
      → c.encrypt key (nonce 1) (hello ++ head) (codes "ok") ≡ some ack
      → 200 ≤ w.room
      → 65541 ≤ v.room
      → (install out.calls out.pid out.path out.name conf d).1 ≡ ok tt
      → ((target_attempt c target controller.id
            (some s)
            never
            out
            (stream (start_marker ++ (framed (head ++ cipher) ++ more)) e)
            w
            d)
          ≡ record {
            disk = (install out.calls out.pid out.path out.name conf d).0;
            writer = record {
              sent = w.sent ++ (framed hello ++ framed ack);
              room = w.room - (length hello + 4) - (length ack + 4);
            };
            installed = true;
            outcome = some (ok tt);
          })
        × (controller_attempt c controller target.id
              (some t)
              conf
              (stream (framed hello ++ (framed ack ++ more')) e')
              v
            ≡ ok (record {
              sent = v.sent ++ (start_marker ++ framed (head ++ cipher));
              room = v.room - 1 - (length (head ++ cipher) + 4);
            }))
  unfolding target_attempt take_offer finish_offer controller_attempt
  attempts_agree conf cipher ack more more' out d w v e e' full small sealed answered room room'
        installs =
      let size = c.length-encrypt _ _ _ _ _ sealed in
      let long : length (head ++ cipher) ≡ length conf + 144 =
        omega (arith, length-append head cipher, length-head, size) in
      let ack_size = c.length-encrypt _ _ _ _ _ answered in
      let d' : Disk = (install out.calls out.pid out.path out.name conf d).0 in
      let left_by : Disk → Bytes → Attempted = λ d sent. record {
        disk = d;
        writer = record { sent = sent; room = w.room - (length hello + 4) - (length ack + 4) };
        installed = true;
        outcome = some (ok tt);
      } in
      let v1 : Sink = record { sent = v.sent ++ start_marker; room = v.room - 1 } in
      (
        rw (receive_offer-request conf cipher more w e full small sealed room) (
            finish_offer-ok c never (offer conf (after w hello))
              (install out.calls out.pid out.path out.name conf d) installs
            ∙ acknowledge-ok conf ack (after w hello) d' answered
                (omega (arith, length-hello, room))
            ∙ ap (left_by d') (append_assoc w.sent (framed hello) (framed ack))),
        rw
            (
              write_marker v (omega (arith, room')),
              read_framed hello (framed ack ++ more') e' (omega (arith, length-hello)),
              make_request-hello conf cipher sealed,
              write_framed (head ++ cipher) v1 (omega (arith, long, small))
                  (omega (arith, long, small, room')),
              read_framed ack more' e' (omega (arith, ack_size)),
              c.decrypt-encrypt _ _ _ _ _ answered,
            )
            (ap
              (λ (b : Bytes).
                ok (record { sent = b; room = v.room - 1 - (length (head ++ cipher) + 4) }))
              (append_assoc v.sent start_marker (framed (head ++ cipher)))),
      )
