-- ===== src/Worker/Task.antt =====
-- The task that `create_and_register_stream_worker` of src/controller.rs spawns round `run_worker`.
use iperf3_rust.Common.{ℕ, ◌≡◌, refl, ◌<◌, ◌⊎◌, inl, inr, List, ◌∷◌, ◌++◌}
use iperf3_rust.Message.{StreamStats}
use iperf3_rust.Error.{Error}
use iperf3_rust.Outcome.{Result, ok, err, panic, hang, Action, continue_with}
use iperf3_rust.Net.Interface.{Net}
use iperf3_rust.Host.{Host, WorkerMessage, ControllerMessage}
use iperf3_rust.Worker.Meter.{Worker, Meter, initial, from_secs, unanswered}
use iperf3_rust.Worker.Loop.{Round, Ending, Inputs, received, await_start, run_worker}
use iperf3_rust.Worker.Termination.{Any, IsUnanswered, Ends, measure_terminates}

module _ {n : Net} (h : Host n) where
  -- `?` leaves the task before the controller is told.
  abbrev notify : ℕ → h.Sender → Result Error StreamStats → Action Error h.World StreamStats
  notify id controller_sender result w =
      continue_with (result, w)
        λ stats v.
          (ok stats, h.try_send (ControllerMessage.stream_terminated id) controller_sender v)

  unfoldable pub worker_task : Worker → Inputs → h.Sender → Action Error h.World StreamStats
  unfolding run_worker
  worker_task self i controller_sender w =
      notify self.id controller_sender (run_worker self i).1.0 w

  -- The task has a result and the controller is told, or it has none and nothing is told. It has
  -- none for ever only if the user interface never takes a report of one of these rounds, or the
  -- last one.
  abbrev pub Told :
      ℕ → h.Sender → h.World → List Round → Ending → Result Error StreamStats × h.World → Type 0
  Told id controller_sender w rounds e (r, v) =
      ((stats : StreamStats) × (r ≡ ok stats)
        × (v ≡ h.try_send (ControllerMessage.stream_terminated id) controller_sender w))
      ⊎ ((x : Error) × (r ≡ err x) × (v ≡ w))
      ⊎ ((r ≡ hang) × (v ≡ w) × (Any IsUnanswered rounds ⊎ (e.delivery ≡ unanswered)))

  notify-Told :
      (self : Worker) (controller_sender : h.Sender) (rounds : List Round) (e : Ending)
      (p : Result Error StreamStats × Meter) (w : h.World)
      → Ends self rounds e p
      → Told self.id controller_sender w rounds e (notify self.id controller_sender p.0 w)
  notify-Told self tx rounds e (ok stats, m) w ends = inl (stats, refl, refl)
  notify-Told self tx rounds e (err x, m) w ends = inr (inl (x, refl, refl))
  notify-Told self tx rounds e (panic, m) w ends = absurd ends
  notify-Told self tx rounds e (hang, m) w ends = inr (inr (refl, refl, ends))

  -- If a worker is told to start and some round begins after the duration of the test, its task
  -- comes to an end, either with a result, and then the controller is sent StreamTerminated with
  -- the worker's number, once, or with an error, and then nothing is sent; unless the worker waits
  -- for ever in a report of a round before, or in the last report, that the user interface never
  -- takes, and then nothing is sent either.
  pub worker_task-Told :
      (self : Worker) (controller_sender : h.Sender) (w : h.World) (started : ℕ)
      (before : List Round) (r : Round) (after : List Round) (e : Ending)
      → from_secs self.params.duration < r.elapsed
      → Told self.id controller_sender w before e (
          worker_task self
            (record {
              first_signal = received WorkerMessage.start_load;
              started = started;
              rounds = before ++ r ∷ after;
              ending = e;
            })
            controller_sender
            w)
  unfolding worker_task run_worker await_start
  worker_task-Told self controller_sender w started before r after e late =
      notify-Told self controller_sender before e _ w
        (measure_terminates self before r after e (initial started) late)
