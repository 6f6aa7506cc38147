-- ===== src/Tests/OnDrain.antt =====
-- A receiving worker that leaves a socket with seven bytes behind.
use iperf3_rust.Common.{◌≡◌, refl, false, true, some, none, [], ◌∷◌, arith}
use iperf3_rust.Message.{StreamStats}
use iperf3_rust.Outcome.{ok}
use iperf3_rust.Linux.{default_tcp_info, tcp_info_or_default}
use iperf3_rust.Worker.Meter.{Worker, initial}
use iperf3_rust.Worker.Loop.{measure, round}
use iperf3_rust.Worker.Drain.{after_worker, receiver_drains}
use iperf3_rust.Tests.Wire.{Pipe, pipes, pipes-Behaves}
use iperf3_rust.Tests.OnWorker.{sender, late, ending}

abbrev receiver : Worker
receiver = record sender { is_sending = false }

abbrev leftover : Pipe
leftover = record { incoming = 1 ∷ 2 ∷ 3 ∷ 4 ∷ 5 ∷ 6 ∷ 7 ∷ []; outgoing = [] }

abbrev nothing_moved : StreamStats
nothing_moved = record {
  id = 0;
  index = none;
  duration = 10000;
  bytes_transferred = 0;
  retransmits = some 0;
  cwnd = some 0;
  is_sending = false;
  is_peer = false;
  is_summary = true;
}

measured_nothing : (measure receiver (late ∷ []) ending (initial 0)).0 ≡ ok nothing_moved
unfolding measure round default_tcp_info tcp_info_or_default
measured_nothing = refl

receiver_drains_example :
    (s' : Pipe) × (after_worker pipes 8 receiver
        (measure receiver (late ∷ []) ending (initial 0)).1
        leftover
      ≡ (ok tt, s'))
    × (s'.incoming ≡ [])
    × (s'.outgoing ≡ [])
receiver_drains_example =
    receiver_drains pipes pipes-Behaves receiver (late ∷ []) ending 0 8 nothing_moved leftover
      measured_nothing refl tt (omega arith) (omega arith)
