-- ===== src/Tests/OnController.antt =====
-- The theorems on the controller, for a test of two streams.
use iperf3_rust.Common.{ℕ, ◌+◌, ◌≡◌, refl, not, true, false, some, none, arith}
use iperf3_rust.Message.{Role, client, State, Parameters, from_opts}
use iperf3_rust.Message.Opts.{ClientOpts}
use iperf3_rust.Outcome.{ok}
use iperf3_rust.Perf.{Perf, new_with_stats_receiver}
use iperf3_rust.Socket.{new_socket}
use iperf3_rust.Net.Messages.{client_write_message, client_read_message}
use iperf3_rust.Net.Frame.{write_control_message, read_control_message, read_payload, read_body}
use iperf3_rust.Controller.Streams.{
  total_streams, is_sending_end, create_streams, create_and_register_stream_worker,
  connect_data_stream, connect_streams,
}
use iperf3_rust.Controller.Registered.{HasRegistered}
use iperf3_rust.Controller.Directions.{
  client_side, server_side, ends_opposite, total_streams_wraps, options_streams,
}
use iperf3_rust.Controller.Connecting.{create_streams_complete}
use iperf3_rust.Tests.Wire.{Pipe, pipes, sample_parameters}
use iperf3_rust.Tests.Machine.{empty_pipe, side}

abbrev client_perf : Parameters → Perf pipes ℕ
client_perf p =
    client_side pipes {Stats = ℕ} {Stats' = ℕ} none none "ours" p empty_pipe empty_pipe 1 2

abbrev server_perf : Parameters → Perf pipes ℕ
server_perf p =
    server_side pipes {Stats = ℕ} {Stats' = ℕ} none none "ours" p empty_pipe empty_pipe 1 2

abbrev wide : Parameters
wide = record sample_parameters { parallel = 40000 }

ends_opposite_example :
    is_sending_end (client_perf sample_parameters) 1
    ≡ not (is_sending_end (server_perf sample_parameters) 1)
unfolding new_with_stats_receiver
ends_opposite_example =
    ends_opposite pipes {Stats = ℕ} {Stats' = ℕ} none none "ours" sample_parameters empty_pipe
      empty_pipe 1 2 1 (omega arith)

total_streams_wraps_example : total_streams (client_perf wide) + 65536 ≡ 80000
total_streams_wraps_example =
    total_streams_wraps pipes {Stats = ℕ} {Stats' = ℕ} none none "ours" wide empty_pipe empty_pipe 1
      2 refl (omega arith) (omega arith)

abbrev pub backwards : ClientOpts
backwards = record {
  client = some "10.0.0.1";
  time = 10;
  bytes = none;
  length = none;
  parallel = 3;
  reverse = true;
  bidir = false;
  window = none;
  set_mss = none;
  no_delay = false;
  prefer_ipv6 = false;
  interval = none;
}

options_streams_example :
    let params = from_opts "0.1.0" backwards in
    let c : Perf pipes ℕ = client_perf params in
    let s : Perf pipes ℕ = server_perf params in
    (c.num_send_streams ≡ 0)
    × (c.num_receive_streams ≡ 3)
    × (s.num_send_streams ≡ c.num_receive_streams)
    × (s.num_receive_streams ≡ c.num_send_streams)
    × (total_streams c ≡ c.num_send_streams + c.num_receive_streams)
    × (total_streams s ≡ total_streams c)
options_streams_example =
    options_streams pipes {Stats = ℕ} {Stats' = ℕ} none none "0.1.0" "ours" backwards empty_pipe
      empty_pipe 1 2 (omega arith)

pub fresh : (r : Role) (s : State) (p : Pipe) → HasRegistered r 0 (side r s p)
fresh r s p = record { serves = refl; next = refl; keys = tt; count = refl; stats = (tt, refl) }

create_streams_complete_example :
    let c = side client (State.create_streams "ours") empty_pipe in
    let c' = (create_streams c).1 in
    HasRegistered client 2 c' × (c'.perf ≡ c.perf) × (create_streams c' ≡ (ok tt, c'))
unfolding create_streams connect_streams connect_data_stream create_and_register_stream_worker
    new_socket client_write_message write_control_message client_read_message read_control_message
    read_payload read_body
create_streams_complete_example =
    create_streams_complete (side client (State.create_streams "ours") empty_pipe)
      (fresh client _ _) refl
