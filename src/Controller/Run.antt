-- ===== src/Controller/Run.antt =====
-- The loop of `run_controller`, one pass at a time, with `process_internal_message` and
-- `process_server_message`. What a pass is given from outside is a `Turn`.
use iperf3_rust.Common.{
  ℕ, Bool, true, false, ◌&&◌, Option, none, some, List, [], ◌∷◌, if◌then◌else◌,
}
use iperf3_rust.Common.HashMap.{get, remove, insert}
use iperf3_rust.Message.{Role, client, server, ServerMessage, State}
use iperf3_rust.Error.{Error, join_task_error, publish_worker_message_error}
use iperf3_rust.Outcome.{ok, err, hang, Action, continue_with, ◌>>=◌, ◌>>◌, pure, throw}
use iperf3_rust.Net.Interface.{Net}
use iperf3_rust.Net.Frame.{Progress, dropped_read}
use iperf3_rust.Net.Messages.{client_read_message}
use iperf3_rust.Host.{Host, WorkerMessage, ControllerMessage, Joined, completed, not_joined}
use iperf3_rust.Perf.{set_state, on_control_socket}
use iperf3_rust.Controller.State.{Controller, on_perf, publish}
use iperf3_rust.Controller.Streams.{is_server, create_streams, accept_stream}
use iperf3_rust.Controller.Results.{collect_stream_results, exchange_results, report}

-- The branch of `select!` that is ready first: `self.receiver.recv()` with what it yields, the
-- control socket (polled by the client only), or the shutdown signal. An `interrupting` message
-- comes when the client has begun to read its control socket: that read is dropped, as far as it
-- is. Behind a shutdown the client does not read it again.
pub data Wake (Stream : Type 0) : Type 0 where
  internal : Option (ControllerMessage Stream) → Wake Stream
  interrupting : Progress → Option (ControllerMessage Stream) → Wake Stream
  control : Wake Stream
  shutdown : Wake Stream

-- `shutdown_seen` is `self.perf.shutdown.try_recv().is_ok()`.
pub record Turn (Stream : Type 0) : Type 0 where
  pub shutdown_seen : Bool
  pub wake : Wake Stream

-- How the `match` on the state ends: `continue`, on to `select!`, or out of the loop.
pub data Arm : Type 0 where
  repeat listen finish : Arm

abbrev pub is_running : State → Bool
is_running State.running = true
is_running _ = false

abbrev pub is_empty {ℓ} : {A : Type ℓ} → List A → Bool
is_empty [] = true
is_empty (x ∷ xs) = false

module _ {n : Net} {h : Host n} where
  -- A finished worker's result is kept; its error is only logged.
  abbrev pub keep_joined : ℕ → Joined → Action Error (Controller n h) (Unit {0})
  keep_joined id (completed (ok result)) c =
      (ok tt, record c { stream_results = insert id result c.stream_results })
  keep_joined id (completed _) c = (ok tt, c)
  keep_joined id not_joined c = (err join_task_error, c)

  abbrev pub join_worker : ℕ → Option h.JoinHandle → Action Error (Controller n h) (Unit {0})
  join_worker id none c = (ok tt, c)
  join_worker id (some handler) c =
      let (outcome, w) = h.join handler c.world in
      keep_joined id outcome (record c { workers = remove id c.workers; world = w })

  unfoldable pub stream_terminated : ℕ → Action Error (Controller n h) (Unit {0})
  stream_terminated id c = continue_with (join_worker id (get id c.workers) c) λ _ c'.
      if is_empty c'.workers && is_server c'.role
      then on_perf (set_state State.exchange_results) c'
      else (ok tt, c')

  unfoldable pub process_internal_message :
      Option (ControllerMessage n.Stream) → Action Error (Controller n h) (Unit {0})
  unfolding stream_terminated
  process_internal_message (some (ControllerMessage.create_stream stream)) c =
      accept_stream stream c
  process_internal_message (some (ControllerMessage.stream_terminated id)) c =
      stream_terminated id c
  process_internal_message (some ControllerMessage.terminate) c =
      on_perf (set_state State.terminate) c
  process_internal_message none c = (ok tt, c)

  unfoldable pub process_server_message : ServerMessage → Action Error (Controller n h) (Unit {0})
  process_server_message (ServerMessage.set_state state) c = on_perf (set_state state) c
  process_server_message _ c = (ok tt, c)

  -- `_ = self.publisher.send(StartLoad)?`
  unfoldable pub start_load : Action Error (Controller n h) (Unit {0})
  start_load = do
    heard ← publish WorkerMessage.start_load
    if heard then pure tt else throw publish_worker_message_error

  -- The arm of `State::ExchangeResults`.
  unfoldable pub finish_test : Action Error (Controller n h) Arm
  finish_test = do
    heard ← publish WorkerMessage.terminate
    local_results ← collect_stream_results
    remote_results ← exchange_results
    report (local_results ∷ remote_results ∷ [])
    pure finish

  -- The arm of `State::Terminate`.
  unfoldable pub abort_test : Action Error (Controller n h) Arm
  abort_test = do
    heard ← publish WorkerMessage.terminate
    local_results ← collect_stream_results
    report (local_results ∷ [])
    pure finish

  -- The load is started on the transition only.
  unfoldable pub start_if_new : (was_running : Bool) → Action Error (Controller n h) Arm
  unfolding start_load
  start_if_new true c = (ok listen, c)
  start_if_new false c = (do start_load; pure listen) c

  -- The `match` on the state; `old_state` is the state of the pass before.
  unfoldable pub enter : (role : Role) (old_state state : State) → Action Error (Controller n h) Arm
  unfolding start_if_new finish_test abort_test
  enter server old_state State.start c =
      (do on_perf (set_state (State.create_streams c.cookie)); pure repeat) c
  enter client old_state State.start c = (ok listen, c)
  enter server old_state (State.create_streams cookie) c = (ok listen, c)
  enter client old_state (State.create_streams cookie) c = (do create_streams; pure listen) c
  enter role old_state State.running c = start_if_new (is_running old_state) c
  enter role old_state State.exchange_results c = finish_test c
  enter role old_state State.terminate c = abort_test c

  -- The `select!`. The server does not poll its control socket, so it goes on waiting.
  unfoldable pub select : Role → Wake n.Stream → Action Error (Controller n h) (Unit {0})
  unfolding process_internal_message process_server_message
  select role (internal message) c = process_internal_message message c
  select server (interrupting progress message) c = process_internal_message message c
  select client (interrupting progress message) c = process_internal_message message (record c {
    perf = record (c.perf) { control_socket = dropped_read n progress c.control_socket };
  })
  select role shutdown c = on_perf (set_state State.terminate) c
  select server control c = (hang, c)
  select client control c =
      (do
        message ← on_perf (on_control_socket (client_read_message n))
        process_server_message message)
        c

  abbrev pub forward_shutdown : Bool → Controller n h → Controller n h
  forward_shutdown false c = c
  forward_shutdown true c = record c {
    world = h.try_send ControllerMessage.terminate c.sender c.world;
  }

  -- What follows the `match` in one pass: the `old_state` of the next pass, or the end.
  unfoldable pub after_arm :
      State → State → Turn n.Stream → Arm → Action Error (Controller n h) (Option State)
  unfolding select
  after_arm old_state state turn repeat c = (ok (some old_state), c)
  after_arm old_state state turn finish c = (ok none, c)
  after_arm old_state state turn listen c =
      let c' = forward_shutdown turn.shutdown_seen c in
      continue_with (select c'.role turn.wake c') λ _ c''. (ok (some state), c'')

  -- One pass, in the state that it reads at its head.
  unfoldable pub pass_at :
      Role → State → Turn n.Stream → State → Action Error (Controller n h) (Option State)
  unfolding enter after_arm
  pass_at role state turn old_state c =
      continue_with (enter role old_state state c) λ arm c'. after_arm old_state state turn arm c'

  unfoldable pub pass : Turn n.Stream → State → Action Error (Controller n h) (Option State)
  unfolding pass_at
  pass turn old_state c = pass_at c.role c.state turn old_state c

  -- All passes: `true` once the loop is left, `false` if the turns are used up before.
  unfoldable pub run_from : List (Turn n.Stream) → State → Action Error (Controller n h) Bool
  run_from [] old_state c = (ok false, c)
  run_from (turn ∷ turns) old_state c =
      continue_with (pass turn old_state c)
        λ next c'. elim next [ none ↦ (ok true, c') | some state ↦ run_from turns state c' ]

  unfoldable pub run_controller : List (Turn n.Stream) → Action Error (Controller n h) Bool
  unfolding run_from
  run_controller turns c = run_from turns c.state c
