-- ===== src/Tests/Machine.antt =====
-- A host that keeps what is sent to controllers, on which every stream ends with its result.
use iperf3_rust.Common.{ℕ, true, some, none, List, [], ◌∷◌, ◌++◌}
use iperf3_rust.Message.{Role, State}
use iperf3_rust.Error.{os_error, done}
use iperf3_rust.Outcome.{ok}
use iperf3_rust.Host.{Host, ControllerMessage, completed, in_time}
use iperf3_rust.Controller.State.{Controller}
use iperf3_rust.Tests.Wire.{Pipe, pipes, sample_parameters, sample_stats}

abbrev pub empty_pipe : Pipe
empty_pipe = record { incoming = []; outgoing = [] }

-- A frame with a one-byte payload.
abbrev pub frame_of : ℕ → List ℕ
frame_of x = 0 ∷ 0 ∷ 0 ∷ 1 ∷ x ∷ []

abbrev pub machine : Host pipes
machine = record {
  World = List (ControllerMessage Pipe);
  SocketAddr = Unit {0};
  Socket = Unit {0};
  parse_addr = λ s. some tt;
  unspecified_v4 = λ port. tt;
  unspecified_v6 = λ port. tt;
  is_ipv4 = λ a. true;
  new_v4 = λ w. (done tt, w);
  new_v6 = λ w. (done tt, w);
  bind = λ a s w. (done tt, w);
  connect = λ a s w. (done (record { incoming = frame_of 1; outgoing = [] }), w);
  local_addr = λ s. done tt;
  peer_addr = λ s. done tt;
  display_addr = λ a. "10.0.0.1:9201";
  debug_io_error = λ e. "Os";
  TcpListener = Unit {0};
  listen_at = λ s w. (done tt, w);
  listen_on = λ addrs w. (done tt, w);
  setsockopt_maxseg = λ mss s w. (0, w);
  last_os_error = λ w. os_error 1;
  display_port = λ port. "9201";
  new_uuid = λ w. ("ours", w);
  Sender = Unit {0};
  Stats = Unit {0};
  Publisher = Unit {0};
  channel = λ k w. (tt, w);
  stats_channel = λ k w. (tt, w);
  broadcast = λ k w. (tt, w);
  try_send = λ m s w. w ++ m ∷ [];
  send_stats = λ stats s w. (true, w);
  send_perf_stats = λ stats w. w;
  Subscription = Unit {0};
  publish = λ m p w. (true, w);
  subscribe = λ p w. (tt, w);
  JoinHandle = ℕ;
  spawn = λ worker s w. (worker.id, w);
  join = λ id w. (completed (ok (sample_stats id)), w);
  join_timeout = λ id w. (in_time (completed (ok (sample_stats id))), w);
}

-- One side of a test in both directions with one stream each way, before any is there.
abbrev pub side : Role → State → Pipe → Controller pipes machine
side role state socket = record {
  sender = tt;
  perf = record {
    bind_address = none;
    server_address = some "10.0.0.1:9201";
    cookie = "ours";
    state = state;
    control_socket = socket;
    role = role;
    params = sample_parameters;
    num_send_streams = 1;
    num_receive_streams = 1;
    stats_sender = some tt;
  };
  stream_index = 0;
  publisher = tt;
  workers = [];
  stream_results = [];
  world = [];
}
