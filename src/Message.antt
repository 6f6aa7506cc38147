-- ===== src/Message.antt =====
-- src/message.rs: what travels on the control connection, and the parameters of a test; with
-- the two errors of src/error.rs that are sent to the peer, and the options of src/opts.rs.
use iperf3_rust.Common.{ℕ, String, Bool, Option, none, some, if◌then◌else◌}
use iperf3_rust.Common.HashMap.{HashMap}
use iperf3_rust.Constant.{default_block_size, default_interval_sec}
pub mod Opts
use Opts.{ClientOpts}

pub data Role : Type 0 where
  client server : Role

pub data Direction : Type 0 where
  client_to_server server_to_client bidirectional : Direction

pub record Parameters : Type 0 where
  pub prefer_ipv6 : Bool
  pub direction : Direction
  pub duration : ℕ  -- u64, seconds
  pub parallel : ℕ  -- u16
  pub client_version : String
  pub block_size : ℕ
  pub no_delay : Bool
  pub socket_buffers : Option ℕ
  pub mss : Option ℕ
  pub interval : ℕ  -- u64, seconds
  pub max_length : Option ℕ

pub record StreamStats : Type 0 where
  pub id : ℕ
  pub index : Option ℕ
  pub duration : ℕ  -- u64, milliseconds
  pub bytes_transferred : ℕ
  pub retransmits : Option ℕ
  pub cwnd : Option ℕ
  pub is_sending : Bool
  pub is_peer : Bool
  pub is_summary : Bool

pub data State : Type 0 where
  start : State
  create_streams : String → State
  running : State
  exchange_results : State
  terminate : State

-- `enum ClientError {}`
pub data ClientError : Type 0 where

pub data ServerError : Type 0 where
  perf_test_already_in_flight : ServerError

pub data ClientMessage : Type 0 where
  hello : String → ClientMessage
  send_parameters : Parameters → ClientMessage
  send_results : HashMap StreamStats → ClientMessage

pub data ServerMessage : Type 0 where
  welcome : ServerMessage
  set_state : State → ServerMessage
  send_results : HashMap StreamStats → ServerMessage

pub data ClientEnvelope : Type 0 where
  message : ClientMessage → ClientEnvelope
  error : ClientError → ClientEnvelope

pub data ServerEnvelope : Type 0 where
  message : ServerMessage → ServerEnvelope
  error : ServerError → ServerEnvelope

abbrev pub unwrap_or {ℓ} : {A : Type ℓ} → Option A → A → A
unwrap_or none d = d
unwrap_or (some a) d = a

-- `Parameters::from_opts`. The version is what the build puts for `CARGO_PKG_VERSION`.
unfoldable pub from_opts : String → ClientOpts → Parameters
from_opts version opts = record {
  prefer_ipv6 = opts.prefer_ipv6;
  direction =
      if opts.bidir
      then Direction.bidirectional
      else if opts.reverse
      then Direction.server_to_client
      else Direction.client_to_server;
  duration = opts.time;
  parallel = opts.parallel;
  client_version = version;
  block_size = unwrap_or opts.length default_block_size;
  no_delay = opts.no_delay;
  socket_buffers = opts.window;
  mss = opts.set_mss;
  interval = unwrap_or opts.interval default_interval_sec;
  max_length = opts.bytes;
}
