-- ===== src/Link.antt =====
-- src/link.rs: the access point that a target hosts, derived from the controller's node id. SHA-256 is a
-- parameter; a digest is its list of bytes.
pub mod Addresses
pub mod Join
use egdod.Prelude.{
  ℕ, zero, suc, ◌+◌, ◌*◌, ◌/◌, ◌%◌, Option, none, some, Bool, true, false, List, [], ◌∷◌, ◌++◌,
  Bytes, codes, ◌==◌, ltb, if◌then◌else◌, get_or, take,
}
use egdod.Hex.{hex}

-- `Display` of an integer; a u64 has at most twenty digits.
unfoldable pub digits : ℕ → ℕ → Bytes
digits zero n = []
digits (suc fuel) n =
    let more = digits fuel (n / 10) ++ ((48 + n % 10) ∷ []) in
    if ltb n 10 then (48 + n) ∷ [] else more

abbrev pub decimal : ℕ → Bytes
decimal = digits 20

pub record Ipv4 : Type 0 where
  pub a : ℕ
  pub b : ℕ
  pub c : ℕ
  pub d : ℕ

unfoldable pub show_ipv4 : Ipv4 → Bytes
unfolding digits
show_ipv4 i =
    decimal i.a
    ++ (codes "." ++ (decimal i.b ++ (codes "." ++ (decimal i.c ++ (codes "." ++ decimal i.d)))))

pub record Link : Type 0 where
  pub ssid : Bytes
  pub psk : Bytes
  pub target : Ipv4
  pub controller : Ipv4
  pub port : ℕ

abbrev pub prefix_len : ℕ
prefix_len = 16

unfoldable pub host_octet : ℕ → ℕ
host_octet b = 1 + b % 254

abbrev link_local : ℕ → ℕ → Ipv4
link_local x y = record { a = 169; b = 254; c = x; d = y }

-- `u16::from_be_bytes`
abbrev from_be16 : ℕ → ℕ → ℕ
from_be16 hi lo = hi * 256 + lo

-- The controller's last octet: moved on where it meets the target's.
abbrev apart : ℕ → ℕ → ℕ
apart y z = if z == y then host_octet z else z

module _ (sha256 : Bytes → Bytes) where
  abbrev hash : Bytes → Bytes → Bytes
  hash label id = sha256 (label ++ id)

  unfoldable pub derive : Bytes → Link
  unfolding host_octet
  derive id =
      let a = hash (codes "egdod-link-addr") id in
      let x = host_octet (get_or a 0 0) in
      let y = host_octet (get_or a 1 0) in
      let z = apart y (host_octet (get_or a 2 0)) in
      record {
        ssid = codes "egdod-" ++ hex (take 4 (hash (codes "egdod-link-ssid") id));
        psk = hex (hash (codes "egdod-link-psk") id);
        target = link_local x y;
        controller = link_local x z;
        port = 49152 + from_be16 (get_or a 3 0) (get_or a 4 0) % 16384;
      }

unfoldable pub hostapd_conf : Link → Bytes → Bytes
hostapd_conf l iface =
    codes "interface="
    ++ (iface
        ++ (codes "\ndriver=nl80211\nssid="
            ++ (l.ssid
                ++ (codes
                      "\nhw_mode=g\nchannel=6\nwpa=2\nwpa_key_mgmt=WPA-PSK\nrsn_pairwise=CCMP\nwpa_psk="
                    ++ (l.psk ++ codes "\n")))))

unfoldable pub supplicant_conf : Link → Bytes
supplicant_conf l =
    codes "network={\n\tssid=\""
    ++ (l.ssid ++ (codes "\"\n\tpsk=" ++ (l.psk ++ codes "\n\tkey_mgmt=WPA-PSK\n}\n")))

unfoldable pub link_lines : Link → Bytes
unfolding show_ipv4
link_lines l =
    codes "ssid="
    ++ (l.ssid
        ++ (codes "\npsk="
            ++ (l.psk
                ++ (codes "\ntarget="
                    ++ (show_ipv4 l.target
                        ++ (codes "\ncontroller="
                            ++ (show_ipv4 l.controller
                                ++ (codes "\nprefix="
                                    ++ (decimal prefix_len
                                        ++ (codes "\nport="
                                            ++ (decimal l.port ++ codes "\n")))))))))))

-- What `show` prints; the pretty JSON of a link is serde_json's.
pub data Show : Type 0 where
  lines json supplicant : Show
  hostapd : Bytes → Show

module _ (sha256 : Bytes → Bytes) where
  unfoldable pub show : (Link → Option Bytes) → Bytes → Show → Option Bytes
  unfolding derive hostapd_conf supplicant_conf link_lines
  show pretty id lines = some (link_lines (derive sha256 id))
  show pretty id json = elim (pretty (derive sha256 id)) [
    | none ↦ none
    | some b ↦ some (b ++ codes "\n")
  ]
  show pretty id supplicant = some (supplicant_conf (derive sha256 id))
  show pretty id (hostapd iface) = some (hostapd_conf (derive sha256 id) iface)
