-- ===== src/Host.antt =====
-- What src/controller.rs, src/server.rs, src/net_util.rs and src/net_util_linux.rs use of tokio's runtime and
-- channels and of the operating system, as an interface: sockets, tasks, the channels between
-- them, and `setsockopt`. `World` is the state of all this, handed from call to call.
use iperf3_rust.Common.{ℕ, String, Bool, Option, List}
use iperf3_rust.Message.{Parameters, StreamStats}
use iperf3_rust.Error.{Error, IoError, Io}
use iperf3_rust.Outcome.{Result}
use iperf3_rust.Net.Interface.{Net}

-- `WorkerMessage` of src/stream_workers.rs.
pub data WorkerMessage : Type 0 where
  start_load terminate : WorkerMessage

-- `StreamWorker` of src/stream_workers.rs, over the types of its socket and its channels.
pub record StreamWorker (Stream Stats Subscription : Type 0) : Type 0 where
  pub id : ℕ
  pub stream : Stream
  pub is_sending : Bool
  pub params : Parameters
  pub sender : Stats
  pub receiver : Subscription

-- `StreamWorker::new`
abbrev pub new_stream_worker :
    {Stream Stats Subscription : Type 0}
    → (id : ℕ) → Stream
    → Parameters
    → (is_sending : Bool) → Stats
    → Subscription
    → StreamWorker Stream Stats Subscription
new_stream_worker id stream params is_sending sender receiver = record {
  id = id;
  stream = stream;
  is_sending = is_sending;
  params = params;
  sender = sender;
  receiver = receiver;
}

-- `ControllerMessage` of src/controller.rs.
pub data ControllerMessage (Stream : Type 0) : Type 0 where
  create_stream : Stream → ControllerMessage Stream
  stream_terminated : ℕ → ControllerMessage Stream
  terminate : ControllerMessage Stream

-- `PerfStats` of src/server.rs, over the type of the channel of the statistics.
pub record PerfStats (Stats : Type 0) : Type 0 where
  pub peer_addr : String
  pub receiver : Stats

-- What awaiting a `JoinHandle` gives: the task's result, or a `JoinError`.
pub data Joined : Type 0 where
  completed : Result Error StreamStats → Joined
  not_joined : Joined

-- The same under a `timeout`.
pub data TimedJoin : Type 0 where
  in_time : Joined → TimedJoin
  elapsed : TimedJoin

pub record Host (n : Net) : Type 1 where
  pub World : Type 0
  -- Addresses and sockets.
  pub SocketAddr : Type 0
  pub Socket : Type 0
  pub parse_addr : String → Option SocketAddr
  -- `UNSPECIFIED` with a port.
  pub unspecified_v4 : ℕ → SocketAddr
  pub unspecified_v6 : ℕ → SocketAddr
  pub is_ipv4 : SocketAddr → Bool
  pub new_v4 : World → Io Socket × World
  pub new_v6 : World → Io Socket × World
  pub bind : SocketAddr → Socket → World → Io (Unit {0}) × World
  pub connect : SocketAddr → Socket → World → Io n.Stream × World
  pub local_addr : n.Stream → Io SocketAddr
  pub peer_addr : n.Stream → Io SocketAddr
  -- `SocketAddr` and, with `{:?}`, `io::Error` in `format!`.
  pub display_addr : SocketAddr → String
  pub debug_io_error : IoError → String
  -- `TcpListener::bind` on a text, and on addresses of which the first that works is taken.
  pub TcpListener : Type 0
  pub listen_at : String → World → Io TcpListener × World
  pub listen_on : List SocketAddr → World → Io TcpListener × World
  -- `setsockopt` for `TCP_MAXSEG`, the value as a 32-bit pattern, and what it returns.
  pub setsockopt_maxseg : ℕ → Socket → World → ℕ × World
  pub last_os_error : World → IoError
  -- `u16` in `format!`, and `Uuid::new_v4().hyphenated()`.
  pub display_port : ℕ → String
  pub new_uuid : World → String × World
  -- The senders of `mpsc::channel(capacity)` and `broadcast::channel(capacity)`.
  pub Sender : Type 0
  pub Stats : Type 0
  pub Publisher : Type 0
  pub channel : ℕ → World → Sender × World
  pub stats_channel : ℕ → World → Stats × World
  pub broadcast : ℕ → World → Publisher × World
  -- `mpsc::Sender<ControllerMessage>`; a failed `try_send` is only logged.
  pub try_send : ControllerMessage n.Stream → Sender → World → World
  -- `mpsc::Sender<StreamStats>`; `false` says that the receiver is gone.
  pub send_stats : StreamStats → Stats → World → Bool × World
  -- `mpsc::Sender<PerfStats>` of the server; what it returns is dropped.
  pub send_perf_stats : PerfStats Stats → World → World
  -- `broadcast::Sender<WorkerMessage>`; `false` says that nobody is subscribed.
  pub Subscription : Type 0
  pub publish : WorkerMessage → Publisher → World → Bool × World
  pub subscribe : Publisher → World → Subscription × World
  -- `tokio::spawn` of the task round `run_worker`.
  pub JoinHandle : Type 0
  pub spawn : StreamWorker n.Stream Stats Subscription → Sender → World → JoinHandle × World
  pub join : JoinHandle → World → Joined × World
  -- `timeout(Duration::from_secs(5), handle)`
  pub join_timeout : JoinHandle → World → TimedJoin × World
