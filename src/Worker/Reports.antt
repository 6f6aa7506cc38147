-- ===== src/Worker/Reports.antt =====
-- The reports of a worker: their order, whose they are, and the window that they state.
use native.Mathlib.Nat.{mul-le-mul, mod-eq_of_lt}
use iperf3_rust.Common.{
  ℕ, zero, suc, ◌+◌, ◌*◌, ◌-◌, ◌^◌, ◌≤◌, ◌<◌, ◌≡◌, refl, ap, Option, some, List, [], ◌∷◌, ◌++◌, map,
  arith, length,
}
use iperf3_rust.Message.{StreamStats}
use iperf3_rust.Outcome.{ok, continue_with-eq-ok}
use iperf3_rust.Linux.{TcpInfo}
use iperf3_rust.Worker.Meter.{Worker, Meter, initial, add_usize, current_stats, window}
use iperf3_rust.Worker.Loop.{
  Round, Transfer, slow, broken, moved, Ending, round, close_interval, count_transfer, check_signal,
  transfer_loop, conclude, measure,
}

-- The numbers 0 to k - 1, as the field `index` holds them.
abbrev pub numbered : ℕ → List (Option ℕ)
numbered zero = []
numbered (suc k) = numbered k ++ some k ∷ []

abbrev pub indices : List StreamStats → List (Option ℕ)
indices = map (λ s. s.index)

mul_bound : (a b : ℕ) → a < 2 ^ 32 → b < 2 ^ 32 → a * b < 2 ^ 64
mul_bound a b h k =
    let top : a * b ≤ (2 ^ 32 - 1) * (2 ^ 32 - 1) =
      mul-le-mul {n₂ = 2 ^ 32 - 1} {m₂ = 2 ^ 32 - 1} (omega arith) (omega arith) in
    omega arith

-- For a congestion window and a segment size that are 32-bit numbers, their product in `usize`
-- does not overflow.
window_exact :
    (info : TcpInfo)
    → info.tcpi_snd_cwnd < 2 ^ 32
    → info.tcpi_snd_mss < 2 ^ 32
    → window info ≡ info.tcpi_snd_cwnd * info.tcpi_snd_mss
unfolding window
window_exact info h k = mod-eq_of_lt (mul_bound info.tcpi_snd_cwnd info.tcpi_snd_mss h k)

abbrev IsNumbered : Meter → Type 0
IsNumbered m = indices m.reported ≡ numbered m.index

indices-append :
    (ss : List StreamStats) (s : StreamStats) → indices (ss ++ s ∷ []) ≡ indices ss ++ s.index ∷ []
indices-append [] s = refl
indices-append (t ∷ ss) s = ap (◌∷◌ t.index) (indices-append ss s)

numbered_next :
    (ss : List StreamStats) (s : StreamStats) (k : ℕ)
    → indices ss ≡ numbered k
    → s.index ≡ some k
    → k + 1 < 2 ^ 64
    → indices (ss ++ s ∷ []) ≡ numbered (add_usize k 1)
numbered_next ss s k e q h =
    let next : add_usize k 1 ≡ suc k = omega arith in rw (next, indices-append ss s, e, q) refl

close_interval-IsNumbered :
    (self : Worker) (r : Round) (m : Meter)
    → IsNumbered m
    → m.index + 1 < 2 ^ 64
    → IsNumbered (close_interval self r m).1 × ((close_interval self r m).1.index ≤ m.index + 1)
unfolding close_interval
close_interval-IsNumbered self r m b h = ground (
  arith,
  numbered_next m.reported
      (current_stats self m.index (r.now - m.current_interval_start) m.bytes_transferred r.tcp_info)
      m.index b refl h,
)

count_transfer-IsNumbered :
    (self : Worker) (r : Round) (t : Transfer) (m : Meter)
    → IsNumbered m
    → m.index + 1 < 2 ^ 64
    → IsNumbered (count_transfer self r t m).1 × ((count_transfer self r t m).1.index ≤ m.index + 1)
unfolding count_transfer
count_transfer-IsNumbered self r slow m b h = close_interval-IsNumbered self r m b h
count_transfer-IsNumbered self r (broken e) m b h = (b, omega arith)
count_transfer-IsNumbered self r (moved bytes) m b h =
    let m' : Meter = record m {
      bytes_transferred = add_usize m.bytes_transferred bytes;
      total_bytes_transferred = add_usize m.total_bytes_transferred bytes;
    } in
    ground (arith, close_interval-IsNumbered self r m' b h)

round-IsNumbered :
    (self : Worker) (r : Round) (m : Meter)
    → IsNumbered m
    → m.index + 1 < 2 ^ 64
    → IsNumbered (round self r m).1 × ((round self r m).1.index ≤ m.index + 1)
unfolding round check_signal
round-IsNumbered self r m b h = ground (arith, count_transfer-IsNumbered self r r.transfer m b h)

loop-IsNumbered :
    (self : Worker) (rs : List Round) (m : Meter)
    → IsNumbered m
    → m.index + length rs < 2 ^ 64
    → IsNumbered (transfer_loop self rs m).1
unfolding transfer_loop
loop-IsNumbered self [] m b h = b
loop-IsNumbered self (r ∷ rs) m b h =
    let k = round-IsNumbered self r m b (omega arith) in
    ground (arith, k, loop-IsNumbered self rs (round self r m).1)

conclude-numbered :
    (self : Worker) (e : Ending) (m : Meter) (s : StreamStats)
    → IsNumbered m
    → (conclude self e m).0 ≡ ok s
    → indices (conclude self e m).1.reported ≡ numbered (suc m.index)
unfolding conclude
conclude-numbered self e m s b q = ground (
  arith,
  indices-append m.reported (
      current_stats self m.index (e.now - m.current_interval_start) m.bytes_transferred
        e.last_info),
)

-- If a worker comes to its end with a summary after fewer than 2^64 rounds, the reports that it
-- sent are numbered 0, 1 and so on to some k, in this order.
pub indices-measure :
    (self : Worker) (rs : List Round) (e : Ending) (started : ℕ) (s : StreamStats)
    → length rs < 2 ^ 64
    → (measure self rs e (initial started)).0 ≡ ok s
    → let reported = (measure self rs e (initial started)).1.reported in
      (k : ℕ) × (indices reported ≡ numbered (suc k))
unfolding measure
indices-measure self rs e started s h q =
    let k = loop-IsNumbered self rs (initial started) refl (omega arith) in
    let (a, done, same) = continue_with-eq-ok (transfer_loop self rs (initial started)) _ q in
    (
      (transfer_loop self rs (initial started)).1.index,
      rw same (conclude-numbered self e _ s k (rw same at q)),
    )
