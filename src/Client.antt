-- ===== src/Client.antt =====
-- src/client.rs: the connection to the server, the handshake, and the controller of the client.
pub mod Handshake
pub mod Connecting
use Prim.Native.String.{◌++◌}
use iperf3_rust.Common.{String, Option, some, none}
use iperf3_rust.Constant.{internal_port_buffer}
use iperf3_rust.Message.{client, ClientMessage, Parameters, from_opts}
use iperf3_rust.Message.Opts.{CommonOpts, ClientOpts}
use iperf3_rust.Error.{Error}
use iperf3_rust.Outcome.{ok, panic, Action, continue_with, ◌>>=◌, ◌>>◌, pure}
use iperf3_rust.Net.Interface.{Net}
use iperf3_rust.Net.Messages.{client_write_message, client_read_message}
use iperf3_rust.Host.{Host}
use iperf3_rust.Socket.{new_socket, io_error, parsed}
use iperf3_rust.Perf.{new_with_stats_receiver}
use iperf3_rust.Controller.State.{Controller, new}

-- The messages of `start_client` on the control socket, in their order.
unfoldable pub introduce : (n : Net) → String → Parameters → Action Error n.Stream (Unit {0})
introduce n cookie params = do
  client_write_message n (ClientMessage.hello cookie)
  answer ← client_read_message n
  client_write_message n (ClientMessage.send_parameters params)

abbrev unwrap : {S A : Type 0} → Option A → Action Error S A
unwrap (some a) s = (ok a, s)
unwrap none s = (panic, s)

-- An action on the control socket, beside the world.
abbrev on_socket : {W S A : Type 0} → Action Error S A → S → Action Error W S
on_socket m s w = let (r, s') = m s in continue_with (r, w) λ _. pure s'

module _ {n : Net} (h : Host n) where
  -- Up to the controller that is spawned; `version` is what the build puts for the package's.
  unfoldable pub start_client :
      String → CommonOpts → ClientOpts → Action Error h.World (Controller n h)
  start_client version common_opts client_opts = do
    host ← unwrap client_opts.client
    let server_addr = host ++ ":" ++ h.display_port common_opts.port
    socket ← new_socket h common_opts.bind client_opts.prefer_ipv6
    addr ← parsed (h.parse_addr server_addr)
    control_socket ← λ w. io_error (h.connect addr socket w)
    cookie ← λ w. let (cookie, w') = h.new_uuid w in (ok cookie, w')
    let params = from_opts version client_opts
    control_socket' ← on_socket (introduce n cookie params) control_socket
    tx ← λ w. let (tx, w') = h.stats_channel internal_port_buffer w in (ok tx, w')
    let perf =
        new_with_stats_receiver common_opts.bind (some server_addr) cookie client params
          control_socket' tx
    λ w. (ok (new perf w), w)
