-- ===== src/Lib.antt =====
-- A model of egdod: a controller on an operator's device, agents on targets that boot an image
-- with the controller's node id in it, and the commands that the controller runs on them over
-- QUIC.
--
-- The parts and the files that model them. An agent dials the controller (Agent, for src/agent.rs:
-- the delays of the redial loop in `run`, the frames of a command in `pump_frames` and
-- `drain_output`, with `handed_on` for the abort of the pumps and `interleave` for their turns;
-- Agent/Handle is `handle` with `exec`, from the bytes of a request to the bytes of its reply, and
-- Agent/Serve the admission and the requests of a connection). Net is
-- src/net.rs: the kind of a connection's path and the reports of its changes; Net/Dial is how both
-- roles build an endpoint (`bind`), whom an agent dials, and the probe with its responder. The
-- controller looks an agent up in the list of approved keys, and puts a stranger on the list of
-- waiting agents (State, for src/state.rs: State/Approved, State/Pending, State/Key for the
-- identity file of either role, State/Dir for the paths and the controller's key, State/Status for
-- status.json, and State/Atomic for `write_atomic` and the steps of several processes that use
-- it). It keeps the sessions of the approved agents, picks one for a command, and probes itself
-- (Controller, for src/controller.rs: `accept`, `pick`, `canary`); Controller/Admit is the
-- admission of an agent, Controller/Serve the loop of `serve` with what it publishes,
-- Controller/Publish its publications where they overlap, Controller/Startup its start at the
-- control socket, Controller/Listen the listeners, Controller/Commands the commands, and
-- Controller/Report what they print. Remote puts the two ends together: a command's request as the
-- agent reads it, and the reply as the command reads it. The two ends speak in frames (Proto, for
-- src/proto.rs: Proto/Frame for `write_msg` and `read_msg_opt`, Proto/Exec for `recv_exec_output`,
-- Proto/File for the transfer of a file with `send_file_body` and `recv_file_body`; Hex for
-- `hex`). Ssh is src/ssh.rs, the recipe made of these primitives: the expiry of its key, the merge
-- of authorized_keys, the steps that ask the target (Ssh/Steps), and the session as a whole
-- (Ssh/Session). Link is src/link.rs, the access point derived from a node id, and Link/Join the
-- controller's visit to it. Ble is src/ble.rs: the hellos and the credentials of the Bluetooth
-- provisioning, both ends of an exchange (Ble/Exchange), the target's service from its key file on
-- (Ble/Serving), the controller's search for its target (Ble/Provision), and the waiting for an
-- adapter and for a characteristic (Ble/Discovery). Cli is src/main.rs, the commands and the calls
-- that they become. Pipe is src/pipe.rs with the forwarding of a port. Prelude has the shared
-- helpers, Io the byte streams of tokio, and Disk the file system; Tests has runs on concrete
-- inputs.
--
-- How the code is modelled. A `String`, a path or a `Vec<u8>` is the list of its bytes or code
-- points. Integers are natural numbers with the width's wrap-around written where the source adds.
-- A file system is a function from paths to files, and what the operating system answers to each
-- call is a record that the theorems quantify over, so each error path of the code is a value of
-- it. A stream is the bytes still to come and how it ends; a writer is what went out and how much
-- more the peer takes. An error is the place that raises it; message texts and logs are not
-- modelled. Events of tasks that run at the same time (a connection that opens or closes, the two
-- pumps of a command) are lists of steps or an interleaving, over which the theorems quantify.
--
-- Fuel. `recv_exec_output` loops once for each byte of the stream and once more, which is enough
-- since each frame takes four bytes at least; a file is read in as many pieces as it has bytes at
-- most; an integer is printed with up to twenty digits, as many as a u64 has. The loop of the
-- Bluetooth service takes an event in each turn, and has one turn more than there are events. The
-- other loops go along a list of what they meet: a list that is at its end is a loop that waits.
--
-- Parameters. tokio's copy is a function, postcard and serde_json are encodings with their round
-- trip, SHA-256 a function, iroh's text of a key a printer and a parser that reads what it prints,
-- and a signature's check a test. Ble/Exchange has the ciphers and the key agreement as a record,
-- with what is documented of them: a key agreement that both ends come to, a cipher of sixteen
-- bytes more than the text, and a text that is opened as it was sealed. That a signature cannot be
-- forged is not assumed.
--
-- Not modelled: the parsing of the command line (clap's, in src/main.rs), the calls of iroh,
-- bluer, wpa_supplicant and sshd, which are values chosen from outside, logs, the boot image
-- (boot/), and the vendored crate under vendor/noq-udp. The flushes of the command's sinks in
-- `recv_exec_output` are left out: a sink has what it took. The requests of one connection are
-- handled by tasks that run at once; Agent/Serve takes each request as one step, and a command's
-- changes to the files, which may be any, as made within its step. Controller/Serve takes a
-- publication of the sessions as one step too, and Controller/Publish the two moments of it. The
-- service over Bluetooth waits for events without a limit: Ble/Serving takes a list of them, and its
-- end as the end of the service. Within `approve`, nobody else writes the approved file between its
-- two reads; the second one may fail.
pub mod Agent
pub mod Ble
pub mod Cli
pub mod Controller
pub mod Disk
pub mod Hex
pub mod Io
pub mod Link
pub mod Net
pub mod Pipe
pub mod Prelude
pub mod Proto
pub mod Remote
pub mod Ssh
pub mod State
pub mod Tests
