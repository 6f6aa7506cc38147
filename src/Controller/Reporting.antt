-- ===== src/Controller/Reporting.antt =====
-- What the user interface sees of the results of a test.
use iperf3_rust.Common.{
  ◌≡◌, refl, sym, ap, ◌∙◌, some, none, List, [], ◌∷◌, ◌++◌, append_assoc, append-nil,
}
use iperf3_rust.Common.HashMap.{HashMap, values}
use iperf3_rust.Message.{StreamStats}
use iperf3_rust.Outcome.{ok}
use iperf3_rust.Net.Interface.{Net}
use iperf3_rust.Host.{Host}
use iperf3_rust.Controller.State.{Controller}
use iperf3_rust.Controller.Results.{send_all, deliver, report}
use iperf3_rust.Controller.Cooperation.{Cooperates}

abbrev pub all_values : List (HashMap StreamStats) → List StreamStats
all_values [] = []
all_values (results ∷ batches) = values results ++ all_values batches

module _ {n : Net} (h : Host n) (p : Cooperates h) where
  open p use {seen}

  send_all_done :
      (results : HashMap StreamStats) (sender : h.Stats) (w : h.World)
      → (w' : h.World) × (send_all h results sender w ≡ (ok tt, w'))
        × (seen w' ≡ seen w ++ values results)
  unfolding send_all
  send_all_done [] sender w = (w, refl, sym (append-nil (seen w)))
  send_all_done ((id, stats) ∷ results) sender w =
      let (w1, r1, e1) = p.send_stats_taken stats sender w in
      let (w2, r2, e2) = send_all_done results sender w1 in
      (
        w2,
        rw (r1, send_all) r2,
        e2 ∙ ap (λ x. x ++ values results) e1 ∙ append_assoc (seen w) (stats ∷ []) (values results),
      )

  deliver_done :
      (batches : List (HashMap StreamStats)) (sender : h.Stats) (w : h.World)
      → (w' : h.World) × (deliver h batches (some sender) w ≡ (ok tt, w'))
        × (seen w' ≡ seen w ++ all_values batches)
  unfolding deliver
  deliver_done [] sender w = (w, refl, sym (append-nil (seen w)))
  deliver_done (results ∷ batches) sender w =
      let (w1, r1, e1) = send_all_done results sender w in
      let (w2, r2, e2) = deliver_done batches sender w1 in
      (
        w2,
        rw (r1, deliver) r2,
        e2
            ∙ ap (λ x. x ++ all_values batches) e1
            ∙ append_assoc (seen w) (values results) (all_values batches),
      )

  -- All results are sent in their order, and the sender is given up.
  pub report_done :
      (batches : List (HashMap StreamStats)) (sender : h.Stats) (c : Controller n h)
      → c.stats_sender ≡ some sender
      → (w : h.World) × (report batches c
          ≡ (ok tt, record c { perf = record (c.perf) { stats_sender = none }; world = w }))
        × (seen w ≡ seen c.world ++ all_values batches)
  unfolding report
  report_done batches sender c e =
      let (w, r, s) = deliver_done batches sender c.world in (w, rw (e, r, report) refl, s)
