-- ===== src/Cli.antt =====
-- src/main.rs: the commands as their values after parsing, and `main` and `run_controller`, which turn
-- each into a call of the library. The parsing of the words is clap's.
pub mod Psk
use egdod.Prelude.{
  ℕ, ◌≡◌, Option, none, some, Bool, true, false, List, [], ◌∷◌, ◌++◌, Bytes, ◌==◌, Result, ok, err,
  ◌>>=◌, or_fail, if◌then◌else◌,
}
use egdod.Link.{Show, lines, json, supplicant, hostapd}
use egdod.Net.{RelayChoice, from_flags}
use egdod.State.Dir.{StateDir, DirError, default_path}

pub record AgentArgs : Type 0 where
  pub controller : Bytes
  pub key_file : Bytes
  pub relay : List Bytes
  pub no_relay : Bool
  pub direct : List Bytes

pub record ServeArgs : Type 0 where
  pub relay : List Bytes
  pub no_relay : Bool
  pub probe_interval : ℕ
  pub probe_timeout : ℕ
  pub restart_after : ℕ
  pub bind : Option Bytes

pub record SshArgs : Type 0 where
  pub agent : Bytes
  pub user : Bytes
  pub authorized_keys : Bytes
  pub host_key : Bytes
  pub sshd_arg : List Bytes
  pub keygen_arg : List Bytes
  pub target_addr : Bytes
  pub local_port : ℕ
  pub key_options : Bytes
  pub key_ttl_secs : ℕ
  pub ssh_argv : List Bytes

-- `ControllerCmd`, in the order of its variants.
pub data ControllerCmd : Type 0 where
  init : ControllerCmd
  serve : ServeArgs → ControllerCmd
  pending : Bool → ControllerCmd
  approve : Bytes → ControllerCmd
  join : Option Bytes → Bool → ControllerCmd
  ble : Bytes → Bytes → Bytes → Option Bytes → ControllerCmd
  status : Bool → ControllerCmd
  exec : Bytes → List Bytes → ControllerCmd
  push : Bytes → Bytes → Bytes → ControllerCmd
  pull : Bytes → Bytes → Bytes → ℕ → ControllerCmd
  forward : Bytes → ℕ → Bytes → ControllerCmd
  ssh : SshArgs → ControllerCmd

pub data Role : Type 0 where
  controller : Option Bytes → ControllerCmd → Role
  agent : AgentArgs → Role
  link : Bytes → Bool → Option Bytes → Bool → Role
  ble_target : Bytes → Bytes → Bytes → Role

unfoldable pub show_for : Bool → Option Bytes → Bool → Show
show_for as_json (some iface) as_supplicant = hostapd iface
show_for as_json none true = supplicant
show_for true none false = json
show_for false none false = lines

-- The calls of the library. A controller's has its state directory.
pub data Call : Type 0 where
  agent_run : Bytes → Bytes → RelayChoice → List Bytes → Call
  link_show : Bytes → Show → Call
  ble_serve : Bytes → Bytes → Bytes → Call
  controller_init : StateDir → Call
  controller_serve : StateDir → RelayChoice → ServeArgs → Call
  controller_pending controller_status : StateDir → Bool → Call
  controller_approve link_join : StateDir → Bytes → Call
  ble_provision : Bytes → Bytes → Bytes → Bytes → Option Bytes → Call
  controller_exec : StateDir → Bytes → List Bytes → Call
  controller_push : StateDir → Bytes → Bytes → Bytes → Call
  controller_pull : StateDir → Bytes → Bytes → Bytes → ℕ → Call
  controller_forward : StateDir → Bytes → ℕ → Bytes → Call
  ssh_run : StateDir → SshArgs → Call

pub data CliError : Type 0 where
  bad_key no_psk_file : CliError
  no_controller_key : DirError → CliError

-- What a command reads before its call: the environment, the key file and the passphrase's file.
pub record Surroundings : Type 0 where
  pub xdg_state_home : Option Bytes
  pub home : Option Bytes
  pub load_key : StateDir → Result DirError Bytes
  pub read_to_string : Bytes → Option Bytes

-- `strip_suffix` with one character.
unfoldable pub strip_suffix : ℕ → Bytes → Bytes
strip_suffix c [] = []
strip_suffix c (x ∷ []) = if x == c then [] else x ∷ []
strip_suffix c (x ∷ y ∷ s) = x ∷ strip_suffix c (y ∷ s)

unfoldable pub psk_of : Bytes → Bytes
unfolding strip_suffix
psk_of text = strip_suffix 13 (strip_suffix 10 text)

abbrev pub keyed : Result DirError Bytes → Result CliError Bytes
keyed (ok k) = ok k
keyed (err e) = err (no_controller_key e)

-- `parse_pubkey` and the public key that goes with a secret are iroh's.
module _ (parse_pubkey : Bytes → Option Bytes) (public_of : Bytes → Bytes) where
  unfoldable pub run_controller : Surroundings → StateDir → ControllerCmd → Result CliError Call
  unfolding psk_of
  run_controller w s init = ok (controller_init s)
  run_controller w s (serve a) = ok (controller_serve s (from_flags a.no_relay a.relay) a)
  run_controller w s (pending as_json) = ok (controller_pending s as_json)
  run_controller w s (approve key) = ok (controller_approve s key)
  run_controller w s (join (some iface) as_json) = ok (link_join s iface)
  run_controller w s (join none as_json) = do
    secret ← keyed (w.load_key s)
    ok (link_show (public_of secret) (show_for as_json none false))
  run_controller w s (ble target network psk_file adapter) = do
    id ← or_fail (parse_pubkey target) bad_key
    text ← or_fail (w.read_to_string psk_file) no_psk_file
    secret ← keyed (w.load_key s)
    ok (ble_provision secret id network (psk_of text) adapter)
  run_controller w s (status as_json) = ok (controller_status s as_json)
  run_controller w s (exec target argv) = ok (controller_exec s target argv)
  run_controller w s (push target local remote) = ok (controller_push s target local remote)
  run_controller w s (pull target remote local max) = ok (controller_pull s target remote local max)
  run_controller w s (forward target port remote) = ok (controller_forward s target port remote)
  run_controller w s (ssh a) = ok (ssh_run s a)

  abbrev pub state_at : Surroundings → Option Bytes → StateDir
  state_at w (some root) = record { root = root }
  state_at w none = record { root = default_path w.xdg_state_home w.home }

  unfoldable pub main : Surroundings → Role → Result CliError Call
  unfolding run_controller show_for
  main w (agent a) = do
    id ← or_fail (parse_pubkey a.controller) bad_key
    ok (agent_run id a.key_file (from_flags a.no_relay a.relay) a.direct)
  main w (controller state_dir cmd) = run_controller w (state_at w state_dir) cmd
  main w (link node_id as_json iface as_supplicant) = do
    id ← or_fail (parse_pubkey node_id) bad_key
    ok (link_show id (show_for as_json iface as_supplicant))
  main w (ble_target key key_file output) = do
    id ← or_fail (parse_pubkey key) bad_key
    ok (ble_serve id key_file output)
