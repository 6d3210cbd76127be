-- ===== src/Net/Classify.antt =====
-- The kind of a path against address ranges.
use egdod.Prelude.{ℕ, ◌+◌, ◌*◌, ◌≤◌, ◌<◌, ◌≡◌, ◌≢◌, ◌⊎◌, ◌↔◌, refl, arith, Bool-cases, inl, inr}
use egdod.Proto.{direct_local, direct_lan, relayed, unknown}
use egdod.Link.{Ipv4}
use egdod.Net.{
  classify, classify_ip, TransportAddr, relay, ip, custom, IpAddr, v4, is_loopback, is_lan,
}

-- An address as one number of 32 bits.
abbrev pub bits : Ipv4 → ℕ
bits i = i.a * 16777216 + i.b * 65536 + i.c * 256 + i.d

abbrev pub IsOctets : Ipv4 → Type 0
IsOctets i = (i.a < 256) × (i.b < 256) × (i.c < 256) × (i.d < 256)

-- The numbers of `base`/`len` are those from `base` on, `size` of them.
abbrev In : ℕ → ℕ → ℕ → Type 0
In base size n = (base ≤ n) × (n < base + size)

-- 127.0.0.0/8.
abbrev pub Loopback : ℕ → Type 0
Loopback n = In 0x7f000000 0x1000000 n

-- 10.0.0.0/8, 172.16.0.0/12, 192.168.0.0/16, 169.254.0.0/16 and 0.0.0.0.
abbrev pub Lan : ℕ → Type 0
Lan n =
    In 0x0a000000 0x1000000 n
    ⊎ (In 0xac100000 0x100000 n ⊎ (In 0xc0a80000 0x10000 n ⊎ (In 0xa9fe0000 0x10000 n ⊎ (n ≡ 0))))

-- An IPv4 path is local exactly in the loopback network, and of the LAN exactly in the private and
-- link-local networks and at 0.0.0.0.
classify-v4 :
    (i : Ipv4) (port : ℕ)
    → IsOctets i
    → ((classify (ip (v4 i) port) ≡ direct_local) ↔ Loopback (bits i))
      × ((classify (ip (v4 i) port) ≡ direct_lan) ↔ Lan (bits i))
unfolding classify classify_ip
classify-v4 i port h = ground arith

-- Only an IP address is ever reported as direct: neither a relay nor a path of another kind is, and
-- an IP address is nothing else.
classify-IsDirect :
    (a : TransportAddr)
    → ((classify a ≢ relayed) × (classify a ≢ unknown))
      ↔ ((i : IpAddr) × (port : ℕ) × (a ≡ ip i port))
unfolding classify classify_ip
classify-IsDirect (relay u) = (λ h. absurd (h.0 refl), λ h. cc)
classify-IsDirect (custom c) = (λ h. absurd (h.1 refl), λ h. cc)
classify-IsDirect (ip i port) = ((λ h. (i, port, refl)), λ h. direct i)
  where
    direct : (i : IpAddr) → (classify_ip i ≢ relayed) × (classify_ip i ≢ unknown)
    direct i = elim (Bool-cases (is_loopback i)) [
      | inl e ↦ rw (e, classify_ip) ((λ p. cc), (λ p. cc))
      | inr e ↦ elim (Bool-cases (is_lan i)) [
        | inl e' ↦ rw (e, classify_ip, e') ((λ p. cc), (λ p. cc))
        | inr e' ↦ rw (e, classify_ip, e') ((λ p. cc), (λ p. cc))
      ]
    ]
