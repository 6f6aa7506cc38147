-- ===== src/Tests/OnWorker.antt =====
-- The theorems on a worker that moves three blocks in two intervals.
use iperf3_rust.Common.{
  ℕ, suc, ◌+◌, ◌≤◌, ◌≡◌, refl, true, false, some, none, List, [], ◌∷◌, ◌++◌, arith,
}
use iperf3_rust.Message.{StreamStats}
use iperf3_rust.Outcome.{ok}
use iperf3_rust.Error.{os_error}
use iperf3_rust.Linux.{TcpInfoCall, default_tcp_info, tcp_info_or_default}
use iperf3_rust.Worker.Meter.{Worker, Meter, initial, taken}
use iperf3_rust.Worker.Loop.{
  Round, Ending, Transfer, moved, slow, pending, measure, transfer_loop, round,
}
use iperf3_rust.Worker.Conservation.{reported_bytes, reported_bytes-measure}
use iperf3_rust.Worker.Termination.{Ends, measure_terminates}
use iperf3_rust.Worker.Limit.{transfer_loop_overshoot, round_at_limit}
use iperf3_rust.Worker.Intervals.{AllCover, IsOwn, measure_covers}
use iperf3_rust.Worker.Reports.{indices, numbered, indices-measure}
use iperf3_rust.Tests.Wire.{sample_parameters}

abbrev info : TcpInfoCall
info = record { ret = 0; filled = default_tcp_info; os_error = os_error 0 }

abbrev pub sender : Worker
sender = record {
  id = 0;
  is_sending = true;
  params = record sample_parameters { max_length = some 9000; block_size = 4096 };
}

abbrev round_of : ℕ → Transfer → Round
round_of elapsed transfer = record {
  elapsed = elapsed;
  signal = pending;
  transfer = transfer;
  now = elapsed;
  tcp_info = info;
  delivery = taken;
}

abbrev pub late : Round
late = round_of 10_000_000_001 slow

abbrev pub early : List Round
early =
    round_of 1 (moved 4096)
    ∷ round_of 1_000_000_000 (moved 4096)
    ∷ round_of 1_500_000_000 (moved 100)
    ∷ []

abbrev pub ending : Ending
ending = record {
  now = 10_000_000_001;
  delivery = taken;
  last_info = info;
  summary_info = info;
  elapsed = 10_000_000_001;
}

abbrev outcome : StreamStats
outcome = record {
  id = 0;
  index = none;
  duration = 10000;
  bytes_transferred = 8292;
  retransmits = some 0;
  cwnd = some 0;
  is_sending = true;
  is_peer = false;
  is_summary = true;
}

measured : (measure sender (early ++ late ∷ []) ending (initial 0)).0 ≡ ok outcome
unfolding measure round default_tcp_info tcp_info_or_default
measured = refl

reported_bytes-measure_example :
    reported_bytes (measure sender (early ++ late ∷ []) ending (initial 0)).1.reported ≡ 8292
reported_bytes-measure_example =
    reported_bytes-measure sender (early ++ late ∷ []) ending 0 outcome (omega arith) measured

measure_terminates_example :
    Ends sender early ending (measure sender (early ++ late ∷ []) ending (initial 0))
measure_terminates_example =
    measure_terminates sender early late [] ending (initial 0) (omega arith)

transfer_loop_overshoot_example :
    (transfer_loop sender early (initial 0)).1.total_bytes_transferred ≤ 9000 + 4096
transfer_loop_overshoot_example =
    transfer_loop_overshoot sender early 0 9000 refl (omega arith) (omega arith)

abbrev full : Meter
full = record (initial 0) { bytes_transferred = 9000; total_bytes_transferred = 9000 }

round_at_limit_example :
    (round sender (round_of 1 (moved 4096)) full).1.total_bytes_transferred ≡ 13096
round_at_limit_example =
    round_at_limit sender (round_of 1 (moved 4096)) full 9000 4096 refl refl (omega arith) refl refl
      (omega arith)

indices-measure_example :
    (k : ℕ) × (indices (measure sender (early ++ late ∷ []) ending (initial 0)).1.reported
      ≡ numbered (suc k))
indices-measure_example =
    indices-measure sender (early ++ late ∷ []) ending 0 outcome (omega arith) measured

measure_covers_example :
    (covering : List StreamStats) × (last : StreamStats) × ((measure sender
        (early ++ late ∷ [])
        ending
        (initial 0)).1.reported
      ≡ covering ++ last ∷ [])
    × AllCover sender covering
    × IsOwn sender last
measure_covers_example =
    measure_covers sender (early ++ late ∷ []) ending 0 outcome (omega arith) measured
