-- ===== src/Tests/OnResults.antt =====
-- The theorems on the results that a controller collects, and on its announcements.
use iperf3_rust.Common.{ℕ, arith, ◌≡◌, ◌≢◌, refl, ◌⊎◌, some, [], ◌∷◌}
use iperf3_rust.Common.HashMap.{HashMap, get}
use iperf3_rust.Message.{client, server, State, StreamStats}
use iperf3_rust.Outcome.{ok}
use iperf3_rust.Perf.{Perf, set_state}
use iperf3_rust.Perf.Atomic.{set_state_atomic}
use iperf3_rust.Controller.State.{Controller}
use iperf3_rust.Controller.Results.{collect_stream_results}
use iperf3_rust.Controller.Unordered.{entries, collect_unordered}
use iperf3_rust.Controller.Collecting.{collect_keeps, collect_takes}
use iperf3_rust.Tests.Wire.{pipes, sample_stats}
use iperf3_rust.Tests.Desk.{desk, desk-Cooperates, at_desk}
use iperf3_rust.Tests.Machine.{machine, side, empty_pipe}

-- Stream 0 has ended before, and stream 1 is at work.
abbrev halfway : Controller pipes machine
halfway = record (side client State.exchange_results empty_pipe) {
  workers = (1, 1) ∷ [];
  stream_results = (0, sample_stats 0) ∷ [];
}

collect_keeps_example :
    (results : HashMap StreamStats) × (c' : Controller pipes machine) × (collect_stream_results
        halfway
      ≡ (ok results, c'))
    × (get 0 results ≡ get 0 halfway.stream_results)
    × (c'.stream_results ≡ results)
    × (c'.workers ≡ [])
    × (c'.perf ≡ halfway.perf)
unfolding get
collect_keeps_example = collect_keeps machine halfway 0 refl

collect_takes_example :
    (results : HashMap StreamStats) × (c' : Controller pipes machine) × (collect_stream_results
        halfway
      ≡ (ok results, c'))
    × (get 1 results ≡ some (sample_stats 1))
unfolding get
collect_takes_example = collect_takes machine halfway 1 1 (sample_stats 1) (refl, tt) refl λ w. refl

abbrev announcing : Perf pipes (Unit {0})
announcing = (side server State.start empty_pipe).perf

set_state_atomic_example :
    ((set_state State.running announcing).0 ≡ ok tt)
      × ((set_state State.running announcing).1.state ≡ State.running)
    ⊎ ((set_state State.running announcing).0 ≢ ok tt)
      × ((set_state State.running announcing).1.state ≡ State.start)
set_state_atomic_example = set_state_atomic pipes (Unit {0}) State.running announcing

abbrev two_at_work : Controller pipes desk
two_at_work = at_desk client State.exchange_results empty_pipe ((0, 0) ∷ (1, 1) ∷ [])

same_workers : (k : ℕ) → get k two_at_work.workers ≡ get {V = ℕ} k ((1, 1) ∷ (0, 0) ∷ [])
unfolding get
same_workers k = ground arith

collect_unordered_example :
    entries (collect_stream_results two_at_work).1.stream_results
    ≡ entries
        (collect_stream_results
          (record two_at_work { workers = (1, 1) ∷ (0, 0) ∷ [] })).1.stream_results
unfolding get
collect_unordered_example =
    collect_unordered desk desk-Cooperates two_at_work ((1, 1) ∷ (0, 0) ∷ []) (refl, (refl, tt))
      (refl, (refl, tt)) same_workers
