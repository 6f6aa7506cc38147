-- ===== src/Worker/Conservation.antt =====
-- The statistics that a worker sends add up to its summary.
use iperf3_rust.Common.{ℕ, ◌+◌, ◌-◌, ◌^◌, ◌≤◌, ◌<◌, ◌≡◌, List, [], ◌∷◌, ◌++◌, arith}
use iperf3_rust.Message.{StreamStats}
use iperf3_rust.Outcome.{ok, continue_with-eq-ok}
use iperf3_rust.Host.{WorkerMessage}
use iperf3_rust.Worker.Meter.{Worker, Meter, initial, add_usize, current_stats}
use iperf3_rust.Worker.Loop.{
  Round, Transfer, slow, broken, moved, Ending, round, close_interval, count_transfer, check_signal,
  transfer_loop, conclude, measure, Signal, pending, receive_failed, received,
}

abbrev pub reported_bytes : List StreamStats → ℕ
reported_bytes [] = 0
reported_bytes (s ∷ ss) = s.bytes_transferred + reported_bytes ss

abbrev pub volume_of : Transfer → ℕ
volume_of slow = 0
volume_of (broken e) = 0
volume_of (moved bytes) = bytes

-- What the socket moves in all rounds.
abbrev pub volume : List Round → ℕ
volume [] = 0
volume (r ∷ rs) = volume_of r.transfer + volume rs

reported_bytes-append :
    (ss ts : List StreamStats) → reported_bytes (ss ++ ts) ≡ reported_bytes ss + reported_bytes ts
reported_bytes-append [] ts = omega arith
reported_bytes-append (s ∷ ss) ts = omega (arith, reported_bytes-append ss ts)

-- Every byte counted is in a report that was sent, or in the interval that is open.
abbrev pub IsBalanced : Meter → Type 0
IsBalanced m = reported_bytes m.reported + m.bytes_transferred ≡ m.total_bytes_transferred

close_interval-IsBalanced :
    (self : Worker) (r : Round) (m : Meter)
    → IsBalanced m
    → IsBalanced (close_interval self r m).1
      × ((close_interval self r m).1.total_bytes_transferred ≡ m.total_bytes_transferred)
unfolding close_interval
close_interval-IsBalanced self r m b = ground (
  arith,
  reported_bytes-append m.reported (
      current_stats self m.index (r.now - m.current_interval_start) m.bytes_transferred r.tcp_info
      ∷ []),
)

-- One round, if the sum does not overflow.
count_transfer-Keeps :
    (self : Worker) (r : Round) (t : Transfer) (m : Meter)
    → IsBalanced m
    → m.total_bytes_transferred + volume_of t < 2 ^ 64
    → IsBalanced (count_transfer self r t m).1
      × ((count_transfer self r t m).1.total_bytes_transferred
          ≤ m.total_bytes_transferred + volume_of t)
unfolding count_transfer
count_transfer-Keeps self r slow m b h =
    let k = close_interval-IsBalanced self r m b in (k.0, omega (arith, k.1))
count_transfer-Keeps self r (broken e) m b h = (b, omega arith)
count_transfer-Keeps self r (moved bytes) m b h = ground (
  arith,
  close_interval-IsBalanced self r (record m {
    bytes_transferred = add_usize m.bytes_transferred bytes;
    total_bytes_transferred = add_usize m.total_bytes_transferred bytes;
  }),
)

check_signal-Keeps :
    (self : Worker) (r : Round) (g : Signal) (m : Meter)
    → IsBalanced m
    → m.total_bytes_transferred + volume_of r.transfer < 2 ^ 64
    → IsBalanced (check_signal self r g m).1
      × ((check_signal self r g m).1.total_bytes_transferred
          ≤ m.total_bytes_transferred + volume_of r.transfer)
unfolding check_signal
check_signal-Keeps self r pending m b h = count_transfer-Keeps self r r.transfer m b h
check_signal-Keeps self r receive_failed m b h = (b, omega arith)
check_signal-Keeps self r (received WorkerMessage.start_load) m b h =
    count_transfer-Keeps self r r.transfer m b h
check_signal-Keeps self r (received WorkerMessage.terminate) m b h = (b, omega arith)

round-Keeps :
    (self : Worker) (r : Round) (m : Meter)
    → IsBalanced m
    → m.total_bytes_transferred + volume_of r.transfer < 2 ^ 64
    → IsBalanced (round self r m).1
      × ((round self r m).1.total_bytes_transferred
          ≤ m.total_bytes_transferred + volume_of r.transfer)
unfolding round
round-Keeps self r m b h = ground (arith, check_signal-Keeps self r r.signal m b h)

loop-IsBalanced :
    (self : Worker) (rs : List Round) (m : Meter)
    → IsBalanced m
    → m.total_bytes_transferred + volume rs < 2 ^ 64
    → IsBalanced (transfer_loop self rs m).1
unfolding transfer_loop
loop-IsBalanced self [] m b h = b
loop-IsBalanced self (r ∷ rs) m b h =
    let k = round-Keeps self r m b (omega arith) in
    ground (arith, k, loop-IsBalanced self rs (round self r m).1)

conclude_balanced :
    (self : Worker) (e : Ending) (m : Meter) (s : StreamStats)
    → IsBalanced m
    → (conclude self e m).0 ≡ ok s
    → reported_bytes (conclude self e m).1.reported ≡ s.bytes_transferred
unfolding conclude
conclude_balanced self e m s b q = ground (
  arith,
  reported_bytes-append m.reported (
      current_stats self m.index (e.now - m.current_interval_start) m.bytes_transferred e.last_info
      ∷ []),
)

-- If a worker comes to its end with a summary, and all that its socket moved is less than 2^64
-- bytes, then the bytes of the reports that it sent, the last one for the open interval included,
-- add up to the bytes of the summary.
pub reported_bytes-measure :
    (self : Worker) (rs : List Round) (e : Ending) (started : ℕ) (s : StreamStats)
    → volume rs < 2 ^ 64
    → (measure self rs e (initial started)).0 ≡ ok s
    → reported_bytes (measure self rs e (initial started)).1.reported ≡ s.bytes_transferred
unfolding measure
reported_bytes-measure self rs e started s h q =
    let k = loop-IsBalanced self rs (initial started) (omega arith) (omega arith) in
    let (a, done, same) = continue_with-eq-ok (transfer_loop self rs (initial started)) _ q in
    rw same (conclude_balanced self e _ s k (rw same at q))
