-- ===== src/Ble/Discovery/Patience.antt =====
-- How long the waiting for an adapter and for a characteristic lasts, and what it finds.
use egdod.Prelude.{
  ℕ, suc, ◌+◌, ◌≤◌, ◌≡◌, refl, ap, ◌∙◌, Option, none, some, List, [], ◌∷◌, Bytes, bytes_eq,
  bytes_eq_iff, length, Result, ok, err, Bool-cases, Result-cases, inl, inr, arith, ◌⊎◌,
}
use egdod.Ble.Discovery.{
  BluerError, RemoteCharacteristic, RemoteService, in_service, of_service, in_services, or_else,
  find_characteristic, characteristic, looks, is_unresolved, required, service_wait, DiscoveryError,
}
use egdod.Ble.Discovery.Polling.{Paced, poll-ends_from, EndsWith, poll-EndsWith}

module _ (service_uuid characteristic_uuid : Bytes) where
  abbrev IsAmong : RemoteCharacteristic → List RemoteCharacteristic → Type 0
  IsAmong c [] = ⊥
  IsAmong c (d ∷ ds) = (d ≡ c) ⊎ IsAmong c ds

  -- A characteristic of the one UUID, in a service of the other.
  abbrev pub IsServed : RemoteCharacteristic → List RemoteService → Type 0
  IsServed c [] = ⊥
  IsServed c (s ∷ ss) =
      ((s.uuid ≡ ok service_uuid)
        × (c.uuid ≡ ok characteristic_uuid)
        × ((cs : List RemoteCharacteristic) × (s.characteristics ≡ ok cs) × IsAmong c cs))
      ⊎ IsServed c ss

  in_service-IsAmong :
      (cs : List RemoteCharacteristic) (c : RemoteCharacteristic)
      → in_service service_uuid characteristic_uuid cs ≡ ok (some c)
      → (c.uuid ≡ ok characteristic_uuid) × IsAmong c cs
  unfolding in_service
  in_service-IsAmong [] c h = cc h
  in_service-IsAmong (d ∷ ds) c h = elim (Result-cases d.uuid) [
    | inl (e, bad) ↦ cc (rw (bad, in_service) at h)
    | inr (u, reads) ↦ elim (Bool-cases (bytes_eq u characteristic_uuid)) [
      | inl same ↦
          let is : d ≡ c = cc (rw (reads, in_service, same) at h) in
          let right : d.uuid ≡ ok characteristic_uuid =
            reads ∙ ap ok ((bytes_eq_iff u characteristic_uuid).0 same) in
          (rw (← is) right, inl is)
      | inr different ↦
          let (right, among) = in_service-IsAmong ds c (rw (reads, in_service, different) at h) in
          (right, inr among)
    ]
  ]

  of_service-IsAmong :
      (r : Result BluerError (List RemoteCharacteristic)) (c : RemoteCharacteristic)
      → of_service service_uuid characteristic_uuid r ≡ ok (some c)
      → (c.uuid ≡ ok characteristic_uuid)
        × ((cs : List RemoteCharacteristic) × (r ≡ ok cs) × IsAmong c cs)
  unfolding of_service
  of_service-IsAmong (err e) c h = cc h
  of_service-IsAmong (ok cs) c h =
      let (right, among) = in_service-IsAmong cs c h in (right, (cs, refl, among))

  either :
      (r rest : Result BluerError (Option RemoteCharacteristic)) (c : RemoteCharacteristic)
      → or_else r rest ≡ ok (some c)
      → (r ≡ ok (some c)) ⊎ (rest ≡ ok (some c))
  either (err e) rest c h = cc h
  either (ok (some d)) rest c h = inl h
  either (ok none) rest c h = inr h

  in_services-IsServed :
      (ss : List RemoteService) (c : RemoteCharacteristic)
      → in_services service_uuid characteristic_uuid ss ≡ ok (some c)
      → IsServed c ss
  unfolding in_services
  in_services-IsServed [] c h = cc h
  in_services-IsServed (s ∷ ss) c h = elim (Result-cases s.uuid) [
    | inl (e, bad) ↦ cc (rw (bad, in_services) at h)
    | inr (u, reads) ↦ elim (Bool-cases (bytes_eq u service_uuid)) [
      | inr different ↦ inr (in_services-IsServed ss c (rw (reads, in_services, different) at h))
      | inl same ↦
          elim (either (of_service service_uuid characteristic_uuid s.characteristics)
            (in_services service_uuid characteristic_uuid ss) c
            (rw (reads, in_services, same) at h)) [
              | inr later ↦ inr (in_services-IsServed ss c later)
              | inl here ↦
                  let (right, among) = of_service-IsAmong s.characteristics c here in
                  inl (reads ∙ ap ok ((bytes_eq_iff u service_uuid).0 same), right, among)
            ]
    ]
  ]

  -- A look at the device showed it.
  abbrev pub IsSeen :
      RemoteCharacteristic → List (ℕ × Result BluerError (List RemoteService)) → Type 0
  IsSeen c [] = ⊥
  IsSeen c ((t, err e) ∷ rounds) = IsSeen c rounds
  IsSeen c ((t, ok services) ∷ rounds) = IsServed c services ⊎ IsSeen c rounds

  looks-IsSeen :
      (rounds : List (ℕ × Result BluerError (List RemoteService))) (c : RemoteCharacteristic)
      → EndsWith is_unresolved service_wait
          (ok (some c))
          (looks service_uuid characteristic_uuid rounds)
      → IsSeen c rounds
  unfolding find_characteristic
  looks-IsSeen [] c h = h
  looks-IsSeen ((t, err e) ∷ rounds) c (inl (is, last)) = cc is
  looks-IsSeen ((t, err e) ∷ rounds) c (inr more) = looks-IsSeen rounds c more
  looks-IsSeen ((t, ok services) ∷ rounds) c (inl (is, last)) =
      inl (in_services-IsServed services c is)
  looks-IsSeen ((t, ok services) ∷ rounds) c (inr more) = inr (looks-IsSeen rounds c more)

  Paced-looks :
      (gap now : ℕ) (rounds : List (ℕ × Result BluerError (List RemoteService)))
      → Paced gap now rounds
      → Paced gap now (looks service_uuid characteristic_uuid rounds)
  Paced-looks gap now [] h = tt
  Paced-looks gap now ((t, r) ∷ rounds) h = (h.0, Paced-looks gap (t + gap) rounds h.1)

  length-looks :
      (rounds : List (ℕ × Result BluerError (List RemoteService)))
      → length (looks service_uuid characteristic_uuid rounds) ≡ length rounds
  length-looks [] = refl
  length-looks ((t, r) ∷ rounds) = ap suc (length-looks rounds)

  -- A characteristic that was found is one that the device showed; an error is anything else.
  abbrev pub IsRight :
      List (ℕ × Result BluerError (List RemoteService))
      → Result DiscoveryError RemoteCharacteristic
      → Type 0
  IsRight rounds (ok c) = IsSeen c rounds
  IsRight rounds (err e) = Unit {0}

  required-IsRight :
      (rounds : List (ℕ × Result BluerError (List RemoteService)))
      (r : Result BluerError (Option RemoteCharacteristic))
      → EndsWith is_unresolved service_wait r (looks service_uuid characteristic_uuid rounds)
      → IsRight rounds (required r)
  required-IsRight rounds (err e) h = tt
  required-IsRight rounds (ok none) h = tt
  required-IsRight rounds (ok (some c)) h = looks-IsSeen rounds c h

  -- The discovery of the characteristic ends: with looks a quarter of a second apart, forty-one are
  -- enough, whatever they show. A characteristic that it gives has the program's UUID and is in a
  -- service of the program's UUID that one of the looks showed.
  pub characteristic-some :
      (rounds : List (ℕ × Result BluerError (List RemoteService)))
      → Paced 250 0 rounds
      → 41 ≤ length rounds
      → (r : Result DiscoveryError RemoteCharacteristic) × (characteristic service_uuid
            characteristic_uuid rounds
          ≡ some r)
        × IsRight rounds r
  unfolding characteristic
  characteristic-some rounds paced enough =
      let all = looks service_uuid characteristic_uuid rounds in
      let (r, ends) =
        poll-ends_from is_unresolved service_wait 250 0 all (Paced-looks 250 0 rounds paced)
          (omega arith) (omega (arith, enough, length-looks rounds)) in
      (
        required r,
        rw (ends, characteristic),
        required-IsRight rounds r (poll-EndsWith is_unresolved service_wait all r ends),
      )
