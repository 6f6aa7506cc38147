-- ===== src/Worker/Meter.antt =====
-- What a worker keeps while it runs, and the statistics that it sends. Times are nanoseconds since
-- `start_time`; sums wrap as on `usize`.
use iperf3_rust.Common.{
  ℕ, ◌+◌, ◌-◌, ◌*◌, ◌/◌, ◌%◌, ◌^◌, Bool, false, Option, none, some, List, [], ◌∷◌, ◌++◌, ltb,
  if◌then◌else◌,
}
use iperf3_rust.Message.{Parameters, StreamStats}
use iperf3_rust.Error.{Error, stream_worker_error, stream_worker_send_error}
use iperf3_rust.Outcome.{ok, err, hang, Action}
use iperf3_rust.Linux.{TcpInfo, TcpInfoCall, tcp_info_or_default}

-- The parts of `StreamWorker` that its own code reads.
pub record Worker : Type 0 where
  pub id : ℕ
  pub is_sending : Bool
  pub params : Parameters

-- The local variables of the loop, and what went to the user interface so far.
pub record Meter : Type 0 where
  pub index : ℕ
  pub bytes_transferred : ℕ
  pub total_bytes_transferred : ℕ
  pub last_cwnd : Option ℕ
  pub current_interval_start : ℕ
  pub reported : List StreamStats
  pub draining : Bool  -- whether a task that drains the socket is left behind

abbrev pub initial : ℕ → Meter
initial now = record {
  index = 0;
  bytes_transferred = 0;
  total_bytes_transferred = 0;
  last_cwnd = none;
  current_interval_start = now;
  reported = [];
  draining = false;
}

-- `a + b` and `a * b` on `usize`, `Duration::from_secs` and `as_millis() as u64`.
abbrev pub add_usize : ℕ → ℕ → ℕ
add_usize a b = (a + b) % 2 ^ 64

abbrev pub mul_usize : ℕ → ℕ → ℕ
mul_usize a b = a * b % 2 ^ 64

abbrev pub from_secs : ℕ → ℕ
from_secs s = s * 1_000_000_000

abbrev pub as_millis : ℕ → ℕ
as_millis d = d / 1_000_000 % 2 ^ 64

unfoldable pub window : TcpInfo → ℕ
window info = mul_usize info.tcpi_snd_cwnd info.tcpi_snd_mss

unfoldable pub current_stats : Worker → ℕ → ℕ → ℕ → TcpInfoCall → StreamStats
unfolding window
current_stats self index current_duration bytes_transferred call =
    let tcp_info = tcp_info_or_default call in
    record {
      id = self.id;
      index = some index;
      duration = as_millis current_duration;
      bytes_transferred = bytes_transferred;
      retransmits = some tcp_info.tcpi_retransmits;
      cwnd = some (window tcp_info);
      is_sending = self.is_sending;
      is_peer = false;
      is_summary = false;
    }

-- What the bounded channel to the user interface does with `self.sender.send(stats).await`: it takes
-- the statistics, its receiver is gone, or it stays full and the worker waits for ever.
pub data Delivery : Type 0 where
  taken refused unanswered : Delivery

-- The same with its error mapped.
abbrev pub send : Delivery → StreamStats → Action Error Meter (Unit {0})
send taken stats m = (ok tt, record m { reported = m.reported ++ stats ∷ [] })
send refused stats m = (err (stream_worker_error (stream_worker_send_error stats)), m)
send unanswered stats m = (hang, m)

unfoldable pub send_current_stats :
    Worker → ℕ → ℕ → ℕ → TcpInfoCall → Delivery → Action Error Meter (Unit {0})
unfolding current_stats
send_current_stats self index current_duration bytes_transferred call delivery =
    send delivery (current_stats self index current_duration bytes_transferred call)

-- The requests that `configure_stream_socket` makes of the socket; each may fail, which is logged.
pub data SocketOption : Type 0 where
  nodelay : Bool → SocketOption
  recv_buffer_size send_buffer_size : ℕ → SocketOption

-- `socket_buffers.try_into().unwrap_or(u32::MAX)`
abbrev to_u32_or_max : ℕ → ℕ
to_u32_or_max x = if ltb x (2 ^ 32) then x else 2 ^ 32 - 1

abbrev buffer_options : Option ℕ → List SocketOption
buffer_options none = []
buffer_options (some x) =
    recv_buffer_size (to_u32_or_max x) ∷ send_buffer_size (to_u32_or_max x) ∷ []

unfoldable pub configure_stream_socket : Parameters → List SocketOption
configure_stream_socket params =
    (if params.no_delay then nodelay params.no_delay ∷ [] else [])
    ++ buffer_options params.socket_buffers
