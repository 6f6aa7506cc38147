-- ===== src/Perf.antt =====
-- src/perf.rs: the state of one test run, and the number of streams each way.
pub mod Atomic
use iperf3_rust.Common.{ℕ, String, Option, some}
use iperf3_rust.Message.{
  Role, client, server, Direction, client_to_server, server_to_client, bidirectional, Parameters,
  ServerMessage, State, start,
}
use iperf3_rust.Error.{Error}
use iperf3_rust.Outcome.{ok, Action, continue_with}
use iperf3_rust.Net.Interface.{Net}
use iperf3_rust.Net.Messages.{server_write_message}

-- `Stats` is the type of `stats_sender`'s channel. `state` is the value under its lock: the
-- server's accept loop reads it. The broadcast `shutdown` is an input of the controller.
pub record Perf (n : Net) (Stats : Type 0) : Type 0 where
  pub bind_address : Option String
  pub server_address : Option String
  pub cookie : String
  pub state : State
  pub control_socket : n.Stream
  pub role : Role
  pub params : Parameters
  pub num_send_streams : ℕ  -- u16
  pub num_receive_streams : ℕ  -- u16
  pub stats_sender : Option Stats

-- The pair `(num_send_streams, num_receive_streams)` that the `match` on the direction gives.
abbrev pub streams_of : Direction → ℕ → ℕ × ℕ
streams_of client_to_server parallel = (parallel, 0)
streams_of server_to_client parallel = (0, parallel)
streams_of bidirectional parallel = (parallel, parallel)

-- `std::mem::swap` if this is the server.
abbrev pub swap_if_server : Role → ℕ × ℕ → ℕ × ℕ
swap_if_server server (send, receive) = (receive, send)
swap_if_server client (send, receive) = (send, receive)

module _ {n : Net} {Stats : Type 0} where
  unfoldable pub new_with_stats_receiver :
      Option String → Option String → String → Role → Parameters → n.Stream → Stats → Perf n Stats
  new_with_stats_receiver bind_address server_address cookie role params control_socket tx =
      let (send, receive) = swap_if_server role (streams_of params.direction params.parallel) in
      record {
        bind_address = bind_address;
        server_address = server_address;
        cookie = cookie;
        state = start;
        control_socket = control_socket;
        role = role;
        params = params;
        num_send_streams = send;
        num_receive_streams = receive;
        stats_sender = some tx;
      }

  -- A read or a write on the control socket.
  abbrev pub on_control_socket :
      {A : Type 0} → Action Error n.Stream A → Action Error (Perf n Stats) A
  on_control_socket m p = let (r, s) = m p.control_socket in (r, record p { control_socket = s })

  -- The server tells its peer first; if that fails the state stays.
  abbrev pub announce : Role → State → Action Error (Perf n Stats) (Unit {0})
  announce server state p =
      on_control_socket (server_write_message n (ServerMessage.set_state state)) p
  announce client state p = (ok tt, p)

  unfoldable pub set_state : State → Action Error (Perf n Stats) (Unit {0})
  set_state state p =
      continue_with (announce p.role state p) λ _ p'. (ok tt, record p' { state = state })
