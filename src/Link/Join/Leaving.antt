-- ===== src/Link/Join/Leaving.antt =====
-- What is left of a join.
use egdod.Prelude.{
  Bool, ◌⊎◌, inl, inr, ◌≡◌, inl, inr, refl, sym, ap, Option, none, some, true, false, Result, err,
  Bool-cases,
}
use egdod.Link.{Link, supplicant_conf}
use egdod.Link.Join.{
  JoinError, spawning, Station, JoinCalls, finish, clean_up, outcome_of, await_carrier, supplicate,
  join,
}

-- Nothing of a joined link is left behind but the interface, up or not.
abbrev pub IsClean : Bool → Station → Type 0
IsClean up s = (s.running ≡ false) × (s.has_addr ≡ false) × (s.conf ≡ none) × (s.is_up ≡ up)

finish-IsClean :
    (c : JoinCalls) (s s' : Station) (o : Option (Result JoinError (Unit {0})))
    (r : Result JoinError (Unit {0}))
    → c.kill_ok ≡ true
    → c.del_ok ≡ true
    → c.remove_ok ≡ true
    → finish c s o ≡ some (s', r)
    → IsClean s.is_up s'
unfolding clean_up
finish-IsClean c s s' none r kill del remove h = cc
finish-IsClean c s s' (some r') r kill del remove h =
    let same : clean_up c s ≡ s' = cc h in
    rw (sym same, clean_up, kill, del, remove) (refl, refl, refl, refl)

supplicate-leaves :
    (c : JoinCalls) (s s' : Station) (r : Result JoinError (Unit {0}))
    → c.kill_ok ≡ true
    → c.del_ok ≡ true
    → c.remove_ok ≡ true
    → supplicate c s ≡ some (s', r)
    → ((c.spawn_ok ≡ true) × IsClean s.is_up s')
      ⊎ ((c.spawn_ok ≡ false) × (r ≡ err spawning) × (s' ≡ s))
unfolding supplicate
supplicate-leaves c s s' r kill del remove h = elim (Bool-cases c.spawn_ok) [
  | inl e ↦
      let there : Station = record s { running = true } in
      inl (
        e,
        finish-IsClean c there s' (outcome_of (await_carrier c.polls) c.left) r kill del remove
            (rw (supplicate, e) at h),
      )
  | inr e ↦
      let ends : some (s, err spawning) ≡ some (s', r) = rw (supplicate, e) at h in
      inr (e, sym (cc ends), sym (cc ends))
]

-- A join that got as far as wpa_supplicant, and whose clean-up did not fail, left neither the
-- process nor the text with the passphrase nor the address on the interface, however it ended. One
-- whose wpa_supplicant could not be started left the text and the address. Either way the interface
-- is left up.
pub join-leaves :
    (c : JoinCalls) (link : Link) (s s' : Station) (r : Result JoinError (Unit {0}))
    → c.up_ok ≡ true
    → c.addr_ok ≡ true
    → c.write_ok ≡ true
    → c.kill_ok ≡ true
    → c.del_ok ≡ true
    → c.remove_ok ≡ true
    → join c (some link) s ≡ some (s', r)
    → ((c.spawn_ok ≡ true) × IsClean true s')
      ⊎ ((c.spawn_ok ≡ false)
          × (r ≡ err spawning)
          × (s'.conf ≡ some (supplicant_conf link))
          × (s'.has_addr ≡ true)
          × (s'.is_up ≡ true))
unfolding join
join-leaves c link s s' r up addr write kill del remove h =
    let there : Station = record s {
      is_up = true;
      has_addr = true;
      conf = some (supplicant_conf link);
    } in
    elim (supplicate-leaves c there s' r kill del remove (rw (join, up, addr, write) at h)) [
      | inl clean ↦ inl clean
      | inr (not_spawned, failed, same) ↦ inr (
        not_spawned,
        failed,
        ap (λ (x : Station). x.conf) same,
        ap (λ (x : Station). x.has_addr) same,
        ap (λ (x : Station). x.is_up) same,
      )
    ]
