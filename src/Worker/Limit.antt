-- ===== src/Worker/Limit.antt =====
-- `max_length`: how far past it a worker goes.
use iperf3_rust.Common.{ℕ, ◌+◌, ◌^◌, ◌≤◌, ◌<◌, ◌≡◌, some, List, [], ◌∷◌, arith}
use iperf3_rust.Worker.Meter.{Worker, Meter, initial, add_usize, from_secs}
use iperf3_rust.Worker.Loop.{
  Round, Transfer, slow, broken, moved, round, close_interval, count_transfer, check_signal,
  transfer_loop, pending,
}
use iperf3_rust.Worker.Conservation.{volume_of}

-- A read or a write moves at most one buffer.
abbrev pub WithinBlock : ℕ → List Round → Type 0
WithinBlock block [] = Unit
WithinBlock block (r ∷ rs) = (volume_of r.transfer ≤ block) × WithinBlock block rs

close_interval_total :
    (self : Worker) (r : Round) (m : Meter)
    → (close_interval self r m).1.total_bytes_transferred ≡ m.total_bytes_transferred
unfolding close_interval
close_interval_total self r m = ground arith

count_transfer_total :
    (self : Worker) (r : Round) (t : Transfer) (m : Meter) (limit : ℕ)
    → m.total_bytes_transferred + volume_of t ≤ limit
    → limit < 2 ^ 64
    → (count_transfer self r t m).1.total_bytes_transferred ≤ limit
unfolding count_transfer
count_transfer_total self r slow m limit h w = omega (arith, close_interval_total self r m)
count_transfer_total self r (broken e) m limit h w = omega arith
count_transfer_total self r (moved bytes) m limit h w = ground (
  arith,
  close_interval_total self r (record m {
    bytes_transferred = add_usize m.bytes_transferred bytes;
    total_bytes_transferred = add_usize m.total_bytes_transferred bytes;
  }),
)

round_total :
    (self : Worker) (r : Round) (m : Meter) (v block : ℕ)
    → self.params.max_length ≡ some v
    → volume_of r.transfer ≤ block
    → v + block < 2 ^ 64
    → m.total_bytes_transferred ≤ v + block
    → (round self r m).1.total_bytes_transferred ≤ v + block
unfolding round check_signal
round_total self r m v block e h w t =
    ground (arith, count_transfer_total self r r.transfer m (v + block))

loop_total :
    (self : Worker) (rs : List Round) (m : Meter) (v block : ℕ)
    → self.params.max_length ≡ some v
    → WithinBlock block rs
    → v + block < 2 ^ 64
    → m.total_bytes_transferred ≤ v + block
    → (transfer_loop self rs m).1.total_bytes_transferred ≤ v + block
unfolding transfer_loop
loop_total self [] m v block e h w t = t
loop_total self (r ∷ rs) m v block e h w t =
    let k = round_total self r m v block e h.0 w t in
    ground (arith, loop_total self rs (round self r m).1 v block e h.1 w k)

-- If the test has a maximum length, no transfer moves more than a block, and the sum of the two is
-- less than 2^64, the loop of a worker moves at most the maximum length and one block.
pub transfer_loop_overshoot :
    (self : Worker) (rs : List Round) (started v : ℕ)
    → self.params.max_length ≡ some v
    → WithinBlock self.params.block_size rs
    → v + self.params.block_size < 2 ^ 64
    → (transfer_loop self rs (initial started)).1.total_bytes_transferred
      ≤ v + self.params.block_size
transfer_loop_overshoot self rs started v e h w =
    loop_total self rs (initial started) v self.params.block_size e h w (omega arith)

-- If exactly the maximum length is through, the time is not up, and no signal has come, a round
-- still counts all the bytes that its transfer moves, if the sum is less than 2^64.
pub round_at_limit :
    (self : Worker) (r : Round) (m : Meter) (v bytes : ℕ)
    → self.params.max_length ≡ some v
    → m.total_bytes_transferred ≡ v
    → r.elapsed ≤ from_secs self.params.duration
    → r.signal ≡ pending
    → r.transfer ≡ moved bytes
    → v + bytes < 2 ^ 64
    → (round self r m).1.total_bytes_transferred ≡ v + bytes
unfolding round check_signal count_transfer close_interval
round_at_limit self r m v bytes e t h g q w = ground arith
