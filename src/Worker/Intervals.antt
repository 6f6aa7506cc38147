-- ===== src/Worker/Intervals.antt =====
-- Whose the reports of a worker are, and how long their intervals.
use iperf3_rust.Common.{ℕ, ◌*◌, ◌-◌, ◌^◌, ◌≤◌, ◌<◌, ◌≡◌, refl, false, List, [], ◌∷◌, ◌++◌, arith}
use iperf3_rust.Message.{StreamStats}
use iperf3_rust.Outcome.{ok, continue_with-eq-ok}
use iperf3_rust.Worker.Meter.{Worker, Meter, initial, add_usize, current_stats}
use iperf3_rust.Worker.Loop.{
  Round, Transfer, slow, broken, moved, Ending, round, close_interval, count_transfer, check_signal,
  transfer_loop, conclude, measure,
}

-- A report of this worker on an interval, not a summary and not of the peer.
pub record IsOwn (self : Worker) (s : StreamStats) : Type 0 where
  pub same_id : s.id ≡ self.id
  pub same_end : s.is_sending ≡ self.is_sending
  pub local : s.is_peer ≡ false
  pub partial : s.is_summary ≡ false

-- All are the worker's, and each covers at least the interval that the parameters ask for.
abbrev pub AllCover : Worker → List StreamStats → Type 0
AllCover self [] = Unit
AllCover self (s ∷ ss) =
    (IsOwn self s × (self.params.interval * 1000 ≤ s.duration)) × AllCover self ss

-- The clock, in milliseconds, does not overflow a `u64`.
abbrev pub InTime : List Round → Type 0
InTime [] = Unit
InTime (r ∷ rs) = (r.now < 2 ^ 64 * 1_000_000) × InTime rs

AllCover-append :
    (self : Worker) (ss : List StreamStats) (s : StreamStats)
    → AllCover self ss
    → IsOwn self s
    → self.params.interval * 1000 ≤ s.duration
    → AllCover self (ss ++ s ∷ [])
AllCover-append self [] s a o l = ((o, l), tt)
AllCover-append self (t ∷ ss) s a o l = (a.0, AllCover-append self ss s a.1 o l)

close_interval-AllCover :
    (self : Worker) (r : Round) (m : Meter)
    → AllCover self m.reported
    → r.now < 2 ^ 64 * 1_000_000
    → AllCover self (close_interval self r m).1.reported
unfolding close_interval current_stats
close_interval-AllCover self r m a h =
    let d = r.now - m.current_interval_start in
    let s = current_stats self m.index d m.bytes_transferred r.tcp_info in
    ground (
      arith,
      AllCover-append self m.reported s a
          (record { same_id = refl; same_end = refl; local = refl; partial = refl }),
    )

count_transfer-AllCover :
    (self : Worker) (r : Round) (t : Transfer) (m : Meter)
    → AllCover self m.reported
    → r.now < 2 ^ 64 * 1_000_000
    → AllCover self (count_transfer self r t m).1.reported
unfolding count_transfer
count_transfer-AllCover self r slow m a h = close_interval-AllCover self r m a h
count_transfer-AllCover self r (broken e) m a h = a
count_transfer-AllCover self r (moved bytes) m a h =
    let m' : Meter = record m {
      bytes_transferred = add_usize m.bytes_transferred bytes;
      total_bytes_transferred = add_usize m.total_bytes_transferred bytes;
    } in
    ground (arith, close_interval-AllCover self r m' a h)

round-AllCover :
    (self : Worker) (r : Round) (m : Meter)
    → AllCover self m.reported
    → r.now < 2 ^ 64 * 1_000_000
    → AllCover self (round self r m).1.reported
unfolding round check_signal
round-AllCover self r m a h = ground (arith, count_transfer-AllCover self r r.transfer m a h)

loop-AllCover :
    (self : Worker) (rs : List Round) (m : Meter)
    → AllCover self m.reported
    → InTime rs
    → AllCover self (transfer_loop self rs m).1.reported
unfolding transfer_loop
loop-AllCover self [] m a h = a
loop-AllCover self (r ∷ rs) m a h =
    let k = round-AllCover self r m a h.0 in
    ground (arith, k, loop-AllCover self rs (round self r m).1 k h.1)

conclude_last :
    (self : Worker) (e : Ending) (m : Meter) (s : StreamStats)
    → (conclude self e m).0 ≡ ok s
    → (last : StreamStats) × ((conclude self e m).1.reported ≡ m.reported ++ last ∷ [])
      × IsOwn self last
unfolding conclude current_stats
conclude_last self e m s q = (
  current_stats self m.index (e.now - m.current_interval_start) m.bytes_transferred e.last_info,
  ground arith,
  record { same_id = refl; same_end = refl; local = refl; partial = refl },
)

-- If a worker comes to its end with a summary, and the clock in milliseconds stays in a u64, then
-- all its reports are its own, none of them a summary or of the peer, and each but the last covers
-- at least the interval of the parameters.
pub measure_covers :
    (self : Worker) (rs : List Round) (e : Ending) (started : ℕ) (s : StreamStats)
    → InTime rs
    → (measure self rs e (initial started)).0 ≡ ok s
    → (covering : List StreamStats) × (last : StreamStats) × ((measure self rs e
          (initial started)).1.reported
        ≡ covering ++ last ∷ [])
      × AllCover self covering
      × IsOwn self last
unfolding measure
measure_covers self rs e started s h q =
    let a = loop-AllCover self rs (initial started) tt h in
    let (x, done, same) = continue_with-eq-ok (transfer_loop self rs (initial started)) _ q in
    let (last, r, own) =
      conclude_last self e (transfer_loop self rs (initial started)).1 s (rw same at q) in
    ((transfer_loop self rs (initial started)).1.reported, last, rw same r, a, own)
