-- ===== src/Tests/Parties.antt =====
-- One target and one controller of the BLE channel, with small stand-ins for the cryptography: a
-- signature is the length of what is signed, a cipher puts sixteen zeros behind the text.
use egdod.Prelude.{
  ◌+◌, ◌-◌, ◌≡◌, refl, sym, Option, none, some, true, [], ◌∷◌, ◌++◌, Bytes, codes, bytes_eq, length,
  take, replicate, ok, arith, length-append, take-length,
}
use egdod.Io.{Sink}
use egdod.Disk.{FilePath, Disk}
use egdod.Ble.{InstallCalls, install, fill}
use egdod.Ble.Exchange.{Crypto, Identity, Output, hello_of, request_head}

abbrev pub tag : Bytes
tag = replicate 16 0

abbrev pub seal : Bytes → Bytes → Bytes → Bytes → Option Bytes
seal k n aad clear = some (clear ++ tag)

abbrev pub unseal : Bytes → Bytes → Bytes → Bytes → Option Bytes
unseal k n aad cipher = some (take (length cipher - 16) cipher)

abbrev pub sign_length : Bytes → Bytes
sign_length m = length m ∷ replicate 63 0

pub unseal-seal :
    (k n aad clear cipher : Bytes)
    → seal k n aad clear ≡ some cipher
    → unseal k n aad cipher ≡ some clear
unseal-seal k n aad clear cipher h =
    let whole : clear ++ tag ≡ cipher = cc h in
    let size : length (clear ++ tag) - 16 ≡ length clear = omega (arith, length-append clear tag) in
    rw (sym whole, size, take-length clear tag)

pub length-seal :
    (k n aad clear cipher : Bytes)
    → seal k n aad clear ≡ some cipher
    → length cipher ≡ length clear + 16
length-seal k n aad clear cipher h =
    let whole : clear ++ tag ≡ cipher = cc h in rw (sym whole) (length-append clear tag)

abbrev pub toy : Crypto
toy = record {
  valid = λ id. true;
  verify = λ id m s. bytes_eq s (sign_length m);
  sha256 = λ m. take 32 m;
  public_of = λ s. s;
  diffie_hellman = λ s t. replicate 32 7;
  encrypt = seal;
  decrypt = unseal;
  length-public_of = λ s h. h;
  diffie_hellman_comm = λ s t. refl;
  length-encrypt = length-seal;
  decrypt-encrypt = unseal-seal;
}

abbrev pub target : Identity
target = record { id = replicate 32 1; sign = sign_length }

abbrev pub controller : Identity
controller = record { id = replicate 32 2; sign = sign_length }

abbrev pub secret : Bytes
secret = replicate 32 3

abbrev pub other_secret : Bytes
other_secret = replicate 32 4

abbrev pub conf : Bytes
conf = codes "network={}"

abbrev pub all_well : InstallCalls
all_well = record {
  open_ok = true;
  write_ok = true;
  partial = 0;
  sync_ok = true;
  rename_ok = true;
  remove_ok = true;
}

abbrev pub conf_path : FilePath
conf_path = record { dir = codes "/mnt"; name = some (codes "wpa.conf") }

abbrev pub out : Output
out = record { calls = all_well; pid = codes "12"; path = conf_path; name = codes "wpa.conf" }

abbrev pub empty : Disk
empty p = none

abbrev pub roomy : Sink
roomy = record { sent = []; room = 70000 }

abbrev pub hello : Bytes
hello = hello_of toy target controller.id secret

abbrev pub head : Bytes
head = request_head toy controller target.id secret other_secret

pub installed : (install out.calls out.pid out.path out.name conf empty).1 ≡ ok tt
unfolding install fill
installed = refl
