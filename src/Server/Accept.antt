-- ===== src/Server/Accept.antt =====
-- `start_server`: the listener, and the task with the loop over `select!`, one event at a time, up
-- to the controllers that it dispatches.
use iperf3_rust.Common.{ℕ, suc, String, Bool, Option, none, some, List, [], ◌∷◌}
use iperf3_rust.Common.HashMap.{HashMap, get, insert, remove}
use iperf3_rust.Constant.{internal_port_buffer}
use iperf3_rust.Message.{State}
use iperf3_rust.Error.{Error}
use iperf3_rust.Outcome.{Result, ok, err, panic, hang, Action, continue_with, ◌>>=◌}
use iperf3_rust.Net.Interface.{Net}
use iperf3_rust.Host.{Host, ControllerMessage, PerfStats}
use iperf3_rust.Message.Opts.{CommonOpts}
use iperf3_rust.Socket.{peer_addr_string, io_error}
use Prim.Native.String.{◌++◌}
use iperf3_rust.Perf.{Perf}
use iperf3_rust.Controller.State.{Controller, new}
use iperf3_rust.Server.Handshake.{create_perf, handle_create_stream}

-- The variables of the task, and the tests that live: a controller owns its test's state, and the
-- state is gone when the controller is. A `Weak` is the number of the state that it refers to.
pub record Listener (n : Net) (h : Host n) : Type 0 where
  pub in_flight_test_state : Option ℕ
  pub controller_channel : Option h.Sender
  pub tests : HashMap State
  pub allocated : ℕ
  pub world : h.World

-- The branch of `select!` that is ready first, with what it yields; of an accepted connection also
-- whether its parameters come within the timeout. The last two are what controllers do meanwhile.
pub data Event (Stream : Type 0) : Type 0 where
  shutdown accept_error : Event Stream
  inbound : Stream → Bool → Event Stream
  state_set : ℕ → State → Event Stream
  controller_ended : ℕ → Event Stream

-- Whether the loop goes on or the task returns.
pub data Flow : Type 0 where
  again returned : Flow

-- `Weak::upgrade`, with the value under the lock.
abbrev pub upgrade : Option ℕ → HashMap State → Option State
upgrade none tests = none
upgrade (some k) tests = get k tests

-- A state is set only while its test lives.
abbrev pub set_test : ℕ → State → Option State → HashMap State → HashMap State
set_test k state none tests = tests
set_test k state (some _) tests = insert k state tests

module _ {n : Net} {h : Host n} where
  unfoldable pub listening : h.World → Listener n h
  listening w = record {
    in_flight_test_state = none;
    controller_channel = none;
    tests = [];
    allocated = 0;
    world = w;
  }

  abbrev pub unwrap : {A : Type 0} → Option A → Action Error (Listener n h) A
  unwrap (some a) l = (ok a, l)
  unwrap none l = (panic, l)

  -- An error of `handle_create_stream` is told to the controller as `Terminate`.
  abbrev pub after_create_stream :
      h.Sender → Result Error (Unit {0}) × (n.Stream × h.World) → Action Error (Listener n h) Flow
  after_create_stream sender (ok _, (s, w)) l = (ok again, record l { world = w })
  after_create_stream sender (err e, (s, w)) l =
      (ok again, record l { world = h.try_send ControllerMessage.terminate sender w })
  after_create_stream sender (panic, (s, w)) l = (panic, record l { world = w })
  after_create_stream sender (hang, (s, w)) l = (hang, record l { world = w })

  abbrev pub dispatched : Perf n h.Stats → h.World → Listener n h → Listener n h
  dispatched perf w l =
      let controller : Controller n h = new perf w in
      record l {
        in_flight_test_state = some l.allocated;
        controller_channel = some controller.sender;
        tests = insert l.allocated perf.state l.tests;
        allocated = suc l.allocated;
        world = controller.world;
      }

  -- The user interface gets the receiver of the statistics before the controller starts. An error
  -- of `create_perf` is only logged.
  abbrev pub after_create_perf :
      PerfStats h.Stats → Result Error (Perf n h.Stats) → h.World → Action Error (Listener n h) Flow
  after_create_perf stats (ok perf) w l = (ok again, dispatched perf (h.send_perf_stats stats w) l)
  after_create_perf stats (err e) w l = (ok again, l)
  after_create_perf stats panic w l = (panic, l)
  after_create_perf stats hang w l = (hang, l)

  unfoldable pub accept_inbound : n.Stream → Bool → Option State → Action Error (Listener n h) Flow
  unfolding create_perf handle_create_stream
  accept_inbound stream in_time (some state) l =
      continue_with (unwrap l.controller_channel l) λ sender l'.
        after_create_stream sender (handle_create_stream h state sender (stream, l'.world)) l'
  accept_inbound stream in_time none l =
      let (tx, w) = h.stats_channel internal_port_buffer l.world in
      after_create_perf (record { peer_addr = peer_addr_string h stream; receiver = tx })
        (create_perf n in_time tx stream) w l

  unfoldable pub accept_step : Event n.Stream → Action Error (Listener n h) Flow
  unfolding accept_inbound
  accept_step shutdown l = (ok returned, l)
  accept_step accept_error l = (ok returned, l)
  accept_step (inbound stream in_time) l =
      accept_inbound stream in_time (upgrade l.in_flight_test_state l.tests) l
  accept_step (state_set k state) l =
      (ok again, record l { tests = set_test k state (get k l.tests) l.tests })
  accept_step (controller_ended k) l = (ok again, record l { tests = remove k l.tests })

  -- After `return` no event is handled.
  abbrev pub go_on :
      Flow → Action Error (Listener n h) (Unit {0}) → Action Error (Listener n h) (Unit {0})
  go_on again rest l = rest l
  go_on returned rest l = (ok tt, l)

  unfoldable pub accept_loop : List (Event n.Stream) → Action Error (Listener n h) (Unit {0})
  unfolding accept_step
  accept_loop [] l = (hang, l)
  accept_loop (e ∷ events) l =
      continue_with (accept_step e l) λ flow. go_on flow (accept_loop events)

  -- The task after the given events.
  abbrev pub listener_after : List (Event n.Stream) → h.World → Listener n h
  listener_after events w = (accept_loop events (listening w)).1

module _ {n : Net} (h : Host n) where
  abbrev bind_listener : Option String → ℕ → Action Error h.World h.TcpListener
  bind_listener (some bind) port w = io_error (h.listen_at (bind ++ ":" ++ h.display_port port) w)
  bind_listener none port w =
      io_error (h.listen_on (h.unspecified_v4 port ∷ h.unspecified_v6 port ∷ []) w)

  -- The listener, and what the task that it spawns makes of the events.
  unfoldable pub start_server :
      CommonOpts
      → List (Event n.Stream)
      → Action Error h.World (h.TcpListener × (Result Error (Unit {0}) × Listener n h))
  unfolding accept_loop listening
  start_server common_opts events = do
    listener ← bind_listener common_opts.bind common_opts.port
    λ w. (ok (listener, accept_loop events (listening w)), w)
