-- ===== src/Link/Addresses.antt =====
-- The addresses and the secret of the link.
use egdod.Prelude.{
  ◌≤◌, ◌<◌, ◌≡◌, ◌≢◌, true, ◌++◌, Bytes, codes, length, take, length-take, All, arith,
}
use egdod.Hex.{length-hex, hex_digits, is_lower_hex}
use egdod.Link.{Ipv4, host_octet, derive}

-- A host address of 169.254.0.0/16 with no octet 0 or 255 in its last two.
pub record IsHost (i : Ipv4) : Type 0 where
  pub link_local : (i.a ≡ 169) × (i.b ≡ 254)
  pub third : (1 ≤ i.c) × (i.c ≤ 254)
  pub fourth : (1 ≤ i.d) × (i.d ≤ 254)

-- Whatever the digests are, the two ends get different link-local host addresses of one /24, and a
-- port of the dynamic range.
pub derive_addresses :
    (sha256 : Bytes → Bytes) (id : Bytes)
    → let l = derive sha256 id in
      IsHost l.target
      × IsHost l.controller
      × (l.target.c ≡ l.controller.c)
      × (l.target.d ≢ l.controller.d)
      × (49152 ≤ l.port)
      × (l.port ≤ 65535)
unfolding derive host_octet
derive_addresses sha256 id = ground arith

-- With a digest of 32 bytes the secret is 64 lower-case hexadecimal digits, which wpa_supplicant
-- takes as a raw key, and the network's name has 14 bytes.
derive_secret :
    (sha256 : Bytes → Bytes) (id : Bytes)
    → ((b : Bytes) → length (sha256 b) ≡ 32)
    → ((b : Bytes) → All (λ x. x < 256) (sha256 b))
    → let l = derive sha256 id in
      (length l.psk ≡ 64) × All (λ c. is_lower_hex c ≡ true) l.psk × (length l.ssid ≡ 14)
unfolding derive
derive_secret sha256 id long bytes =
    let psk = codes "egdod-link-psk" ++ id in
    let ssid = sha256 (codes "egdod-link-ssid" ++ id) in
    (
      omega (arith, length-hex (sha256 psk), long psk),
      hex_digits (sha256 psk) (bytes psk),
      omega (
        arith,
        length-hex (take 4 ssid),
        length-take 4 ssid,
        long (codes "egdod-link-ssid" ++ id),
      ),
    )
