-- ===== src/Controller/Cooperation.antt =====
-- A host on which all goes well: somebody is subscribed to every signal, every worker ends with a
-- result, and the user interface takes what it is sent. `seen` is what it has been sent so far.
use iperf3_rust.Common.{◌≡◌, true, List, [], ◌∷◌, ◌++◌}
use iperf3_rust.Message.{StreamStats}
use iperf3_rust.Outcome.{ok}
use iperf3_rust.Net.Interface.{Net}
use iperf3_rust.Host.{Host, WorkerMessage, completed, in_time}

pub record Cooperates {n : Net} (h : Host n) : Type 0 where
  pub result : h.JoinHandle → StreamStats
  pub seen : h.World → List StreamStats
  pub publish_heard :
      (m : WorkerMessage) (p : h.Publisher) (w : h.World) → (h.publish m p w).0 ≡ true
  pub join_ends : (k : h.JoinHandle) (w : h.World) → (h.join k w).0 ≡ completed (ok (result k))
  pub join_timeout_ends :
      (k : h.JoinHandle) (w : h.World)
      → (h.join_timeout k w).0 ≡ in_time (completed (ok (result k)))
  pub send_stats_taken :
      (stats : StreamStats) (sender : h.Stats) (w : h.World)
      → (w' : h.World) × (h.send_stats stats sender w ≡ (true, w'))
        × (seen w' ≡ seen w ++ stats ∷ [])
