-- ===== src/Controller/Finishing.antt =====
-- The last pass of a test that goes well, after the streams and after a termination.
use iperf3_rust.Common.{◌≡◌, true, refl, ap, ◌∙◌, some, none, List, [], ◌∷◌, ◌++◌, append-nil}
use iperf3_rust.Common.HashMap.{HashMap, insert, values}
use iperf3_rust.Message.{StreamStats, State, Role, client, server}
use iperf3_rust.Outcome.{ok}
use iperf3_rust.Net.Interface.{Net}
use iperf3_rust.Host.{Host, WorkerMessage}
use iperf3_rust.Controller.State.{Controller}
use iperf3_rust.Controller.Results.{
  keep_result, collect_from, collect_stream_results, exchange_as, exchange_results,
}
use iperf3_rust.Controller.Run.{
  Turn, finish, enter, finish_test, abort_test, pass, pass_at, after_arm, run_from, run_controller,
}
use iperf3_rust.Controller.Cooperation.{Cooperates}
use iperf3_rust.Controller.Reporting.{report_done}

module _ {n : Net} (h : Host n) (p : Cooperates h) where
  open p use {seen, result}

  -- The results of workers that all end in time, beside those that are there already.
  unfoldable pub collected : HashMap h.JoinHandle → HashMap StreamStats → HashMap StreamStats
  collected [] results = results
  collected ((id, handler) ∷ workers) results =
      collected workers (insert id (result handler) results)

  collect_from-collected :
      (workers : HashMap h.JoinHandle) (results : HashMap StreamStats) (w : h.World)
      → (collect_from h workers results w).0 ≡ collected workers results
  unfolding collect_from collected
  collect_from-collected [] results w = refl
  collect_from-collected ((id, handler) ∷ workers) results w =
      ap (λ o. (collect_from h workers (keep_result id o results) (h.join_timeout handler w).1).0)
        (p.join_timeout_ends handler w)
      ∙ collect_from-collected workers (insert id (result handler) results)
          (h.join_timeout handler w).1

  abbrev pub closed : HashMap StreamStats → n.Stream → h.World → Controller n h → Controller n h
  closed results socket w c = record c {
    perf = record (c.perf) { control_socket = socket; stats_sender = none };
    workers = [];
    stream_results = results;
    world = w;
  }

  -- The workers' results are collected and exchanged, and both sides' are reported, in this order.
  pub finish_test_done :
      (sender : h.Stats) (remote : HashMap StreamStats) (s : n.Stream) (c : Controller n h)
      → c.stats_sender ≡ some sender
      → exchange_as n c.role (collected c.workers c.stream_results) c.control_socket
        ≡ (ok remote, s)
      → (w v : h.World) × (finish_test c
          ≡ (ok finish, closed (collected c.workers c.stream_results) s w c))
        × (seen w ≡ seen v ++ (values (collected c.workers c.stream_results) ++ values remote))
  unfolding finish_test collect_stream_results exchange_results
  finish_test_done sender remote s c e r =
      let w1 = (h.publish WorkerMessage.terminate c.publisher c.world).1 in
      let w2 = (collect_from h c.workers c.stream_results w1).1 in
      let c2 = record (closed (collected c.workers c.stream_results) s w2 c) {
        perf = record (c.perf) { control_socket = s };
      } in
      let (w, told, saw) =
        report_done h p (collected c.workers c.stream_results ∷ remote ∷ []) sender c2 e in
      (
        w,
        w2,
        rw (collect_from-collected c.workers c.stream_results w1, r, told) refl,
        saw ∙ rw (append-nil (values remote)) refl,
      )

  abort_test_done :
      (sender : h.Stats) (c : Controller n h)
      → c.stats_sender ≡ some sender
      → (w v : h.World) × (abort_test c
          ≡ (ok finish, closed (collected c.workers c.stream_results) c.control_socket w c))
        × (seen w ≡ seen v ++ values (collected c.workers c.stream_results))
  unfolding abort_test collect_stream_results
  abort_test_done sender c e =
      let w1 = (h.publish WorkerMessage.terminate c.publisher c.world).1 in
      let w2 = (collect_from h c.workers c.stream_results w1).1 in
      let c2 = record c {
        workers = [];
        stream_results = collected c.workers c.stream_results;
        world = w2;
      } in
      let (w, told, saw) =
        report_done h p (collected c.workers c.stream_results ∷ []) sender c2 e in
      (
        w,
        w2,
        rw (collect_from-collected c.workers c.stream_results w1, told) refl,
        saw ∙ rw (append-nil (values (collected c.workers c.stream_results))) refl,
      )

  enter-exchange_results :
      (r : Role) (old : State) (c : Controller n h)
      → enter r old State.exchange_results c ≡ finish_test c
  unfolding enter
  enter-exchange_results client old c = refl
  enter-exchange_results server old c = refl

  enter-terminate :
      (r : Role) (old : State) (c : Controller n h) → enter r old State.terminate c ≡ abort_test c
  unfolding enter
  enter-terminate client old c = refl
  enter-terminate server old c = refl

  -- A pass in the state of exchanging results leaves the loop.
  pub pass_finishes :
      (turn : Turn n.Stream) (old : State) (sender : h.Stats) (remote : HashMap StreamStats)
      (s : n.Stream) (c : Controller n h)
      → c.state ≡ State.exchange_results
      → c.stats_sender ≡ some sender
      → exchange_as n c.role (collected c.workers c.stream_results) c.control_socket
        ≡ (ok remote, s)
      → (w v : h.World) × (pass turn old c
          ≡ (ok none, closed (collected c.workers c.stream_results) s w c))
        × (seen w ≡ seen v ++ (values (collected c.workers c.stream_results) ++ values remote))
  unfolding pass pass_at after_arm
  pass_finishes turn old sender remote s c at e r =
      let (w, v, done, saw) = finish_test_done sender remote s c e r in
      (
        w,
        v,
        ap (λ x. pass_at c.role x turn old c) at
            ∙ rw (enter-exchange_results c.role old c, done, after_arm) refl,
        saw,
      )

  -- A loop that comes to the terminated state is left in the next pass.
  pub run_aborts :
      (turn : Turn n.Stream) (turns : List (Turn n.Stream)) (old : State) (sender : h.Stats)
      (c : Controller n h)
      → c.state ≡ State.terminate
      → c.stats_sender ≡ some sender
      → (w v : h.World) × (run_from (turn ∷ turns) old c
          ≡ (ok true, closed (collected c.workers c.stream_results) c.control_socket w c))
        × (seen w ≡ seen v ++ values (collected c.workers c.stream_results))
  unfolding run_from pass pass_at after_arm
  run_aborts turn turns old sender c at e =
      let (w, v, done, saw) = abort_test_done sender c e in
      let last : pass turn old c
          ≡ (ok none, closed (collected c.workers c.stream_results) c.control_socket w c) =
        ap (λ x. pass_at c.role x turn old c) at
        ∙ rw (enter-terminate c.role old c, done, after_arm) refl in
      (w, v, rw (last, run_from) refl, saw)

  -- On a host that cooperates, a controller of either role in the terminated state leaves its loop
  -- in the first pass with success; it has collected the results of all its workers, has written
  -- and read nothing on the control connection, and the last that the user interface has seen is
  -- these results.
  pub terminated_test_ends :
      (turn : Turn n.Stream) (turns : List (Turn n.Stream)) (sender : h.Stats) (c : Controller n h)
      → c.state ≡ State.terminate
      → c.stats_sender ≡ some sender
      → (w v : h.World) × (run_controller (turn ∷ turns) c
          ≡ (ok true, closed (collected c.workers c.stream_results) c.control_socket w c))
        × (seen w ≡ seen v ++ values (collected c.workers c.stream_results))
  unfolding run_controller
  terminated_test_ends turn turns sender c at e = run_aborts turn turns c.state sender c at e
