-- ===== src/Worker/Loop.antt =====
-- `run_worker`. What one round of its loop is given from outside is a `Round`.
use iperf3_rust.Common.{
  ℕ, ◌-◌, Bool, true, false, Option, none, some, List, [], ◌∷◌, ltb, leb, not, if◌then◌else◌,
}
use iperf3_rust.Message.{StreamStats}
use iperf3_rust.Error.{
  Error, worker_terminated, stream_worker_error, receive_error, stream_worker_io_error, IoError,
}
use iperf3_rust.Outcome.{Result, ok, err, hang, Action, continue_with}
use iperf3_rust.Host.{WorkerMessage}
use iperf3_rust.Linux.{TcpInfoCall, tcp_info_or_default}
use iperf3_rust.Worker.Meter.{
  Worker, Meter, initial, add_usize, from_secs, as_millis, window, current_stats,
  send_current_stats, send, Delivery, SocketOption, configure_stream_socket,
}

-- `self.receiver.recv().now_or_never()`, and the first `recv().await` (never `pending`).
pub data Signal : Type 0 where
  pending receive_failed : Signal
  received : WorkerMessage → Signal

-- `timeout(100 ms, read_or_write)`: too slow, an error, or the number of bytes moved.
pub data Transfer : Type 0 where
  slow : Transfer
  broken : IoError → Transfer
  moved : ℕ → Transfer

pub record Round : Type 0 where
  pub elapsed : ℕ  -- `start_time.elapsed()` at the head of the loop
  pub signal : Signal
  pub transfer : Transfer
  pub now : ℕ
  pub tcp_info : TcpInfoCall
  pub delivery : Delivery  -- of the statistics, if the interval is over

-- Whether the loop goes on to the next round.
pub data Next : Type 0 where
  again leave : Next

-- `self.params.max_length.is_some_and(|v| v < total_bytes_transferred)`
abbrev pub exceeds : Option ℕ → ℕ → Bool
exceeds none total = false
exceeds (some v) total = ltb v total

-- The end of a round: the statistics of an interval that is over.
unfoldable pub close_interval : Worker → Round → Action Error Meter Next
unfolding current_stats
close_interval self r m =
    let current_duration = r.now - m.current_interval_start in
    let stats = current_stats self m.index current_duration m.bytes_transferred r.tcp_info in
    if leb (from_secs self.params.interval) current_duration
    then continue_with (send r.delivery stats (record m { last_cwnd = stats.cwnd })) (λ _ m'. (
      ok again,
      record m' {
        current_interval_start = r.now;
        bytes_transferred = 0;
        index = add_usize m'.index 1;
      },
    ))
    else (ok again, m)

unfoldable pub count_transfer : Worker → Round → Transfer → Action Error Meter Next
unfolding close_interval
count_transfer self r slow m = close_interval self r m
count_transfer self r (broken e) m = (err (stream_worker_error (stream_worker_io_error e)), m)
count_transfer self r (moved bytes_count) m =
    if ltb 0 bytes_count
    then close_interval self r (record m {
      bytes_transferred = add_usize m.bytes_transferred bytes_count;
      total_bytes_transferred = add_usize m.total_bytes_transferred bytes_count;
    })
    else (ok leave, m)

unfoldable pub check_signal : Worker → Round → Signal → Action Error Meter Next
unfolding count_transfer
check_signal self r receive_failed m = (err (stream_worker_error receive_error), m)
check_signal self r (received WorkerMessage.terminate) m = (ok leave, m)
check_signal self r (received WorkerMessage.start_load) m = count_transfer self r r.transfer m
check_signal self r pending m = count_transfer self r r.transfer m

unfoldable pub round : Worker → Round → Action Error Meter Next
unfolding check_signal
round self r m =
    if ltb (from_secs self.params.duration) r.elapsed
    then (ok leave, m)
    else if exceeds self.params.max_length m.total_bytes_transferred
    then (ok leave, m)
    else check_signal self r r.signal m

-- The loop, for as many rounds as are given.
unfoldable pub transfer_loop : Worker → List Round → Action Error Meter (Unit {0})
transfer_loop self [] m = (hang, m)
transfer_loop self (r ∷ rs) m =
    continue_with (round self r m)
      λ next m'. elim next [ leave ↦ (ok tt, m') | again ↦ transfer_loop self rs m' ]

-- What the code behind the loop is given: the time, the two `tcp_info`s, and the channel.
pub record Ending : Type 0 where
  pub now : ℕ
  pub delivery : Delivery
  pub last_info : TcpInfoCall
  pub summary_info : TcpInfoCall
  pub elapsed : ℕ

-- `total_retransmits` is still `None` here, so the branch under `is_none` is always taken.
unfoldable pub summary : Worker → Ending → Meter → StreamStats
unfolding window
summary self e m =
    let tcp_info = tcp_info_or_default e.summary_info in
    record {
      id = self.id;
      index = none;
      duration = as_millis e.elapsed;
      bytes_transferred = m.total_bytes_transferred;
      retransmits = some (add_usize 0 tcp_info.tcpi_retransmits);
      cwnd = some (window tcp_info);
      is_sending = self.is_sending;
      is_peer = false;
      is_summary = true;
    }

-- The last report and the summary. A receiving end leaves the task `drain` behind.
unfoldable pub conclude : Worker → Ending → Action Error Meter StreamStats
unfolding send_current_stats summary
conclude self e m =
    continue_with
      (send_current_stats self m.index (e.now - m.current_interval_start) m.bytes_transferred
        e.last_info e.delivery m)
      λ _ m'. (ok (summary self e m'), record m' { draining = not self.is_sending })

unfoldable pub measure : Worker → List Round → Ending → Action Error Meter StreamStats
unfolding transfer_loop conclude
measure self rounds e m = continue_with (transfer_loop self rounds m) λ _ m'. conclude self e m'

-- The first signal decides whether the load starts at all.
unfoldable pub await_start : Worker → Signal → List Round → Ending → Action Error Meter StreamStats
unfolding measure
await_start self (received WorkerMessage.start_load) rounds e m = measure self rounds e m
await_start self (received WorkerMessage.terminate) rounds e m = (err worker_terminated, m)
await_start self receive_failed rounds e m = (err (stream_worker_error receive_error), m)
await_start self pending rounds e m = (hang, m)

-- With the socket options that it asks for first. `started` is the time of the second
-- `Instant::now()`, which starts the first interval.
pub record Inputs : Type 0 where
  pub first_signal : Signal
  pub started : ℕ
  pub rounds : List Round
  pub ending : Ending

unfoldable pub run_worker : Worker → Inputs → List SocketOption × (Result Error StreamStats × Meter)
unfolding await_start configure_stream_socket
run_worker self i = (
  configure_stream_socket self.params,
  await_start self i.first_signal i.rounds i.ending (initial i.started),
)
