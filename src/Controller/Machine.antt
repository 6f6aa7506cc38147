-- ===== src/Controller/Machine.antt =====
-- The states of a test on the server as an abstract machine: what each of its steps waits for.
use iperf3_rust.Common.{ℕ, String, Bool, true, false, Option, none, some, ◌≡◌, ◌⊎◌, [], length}
use iperf3_rust.Message.{State}
use iperf3_rust.Error.{Error}
use iperf3_rust.Outcome.{Result, ok, err, panic, hang}
use iperf3_rust.Net.Interface.{Net}
use iperf3_rust.Host.{Host, ControllerMessage}
use iperf3_rust.Controller.State.{Controller}
use iperf3_rust.Controller.Streams.{total_streams}
use iperf3_rust.Controller.Run.{Wake, internal, interrupting, control, shutdown}

-- The message of its own channel that is ready first.
abbrev pub heard : {Stream : Type 0} → Wake Stream → Option (ControllerMessage Stream)
heard (internal message) = message
heard (interrupting progress message) = message
heard control = none
heard shutdown = none

-- A data stream comes, a worker has ended, the test is broken off.
abbrev pub Opens : {Stream : Type 0} → Wake Stream → Type 0
Opens {Stream} wake = (s : Stream) × (heard wake ≡ some (ControllerMessage.create_stream s))

abbrev pub Closes : {Stream : Type 0} → Wake Stream → Type 0
Closes wake = (id : ℕ) × (heard wake ≡ some (ControllerMessage.stream_terminated id))

abbrev pub Breaks : {Stream : Type 0} → Wake Stream → Type 0
Breaks wake = (heard wake ≡ some ControllerMessage.terminate) ⊎ (wake ≡ shutdown)

-- The states in which the server listens, and those in which the loop ends.
abbrev pub Listens : State → Type 0
Listens State.start = ⊥
Listens (State.create_streams k) = Unit
Listens State.running = Unit
Listens State.exchange_results = ⊥
Listens State.terminate = ⊥

abbrev pub IsLast : State → Type 0
IsLast State.start = ⊥
IsLast (State.create_streams k) = ⊥
IsLast State.running = ⊥
IsLast State.exchange_results = Unit
IsLast State.terminate = Unit

module _ {n : Net} {h : Host n} where
  -- The steps of the machine, under the cookie of the test, where `wake` is ready first and `c` is
  -- the controller behind the step. Streams may still come or end in the other order, so that a test
  -- can end before it runs.
  pub data Step (cookie : String) (wake : Wake n.Stream) (c : Controller n h)
      : State → State → Type 0 where
    announce : Step cookie wake c State.start (State.create_streams cookie)
    begin :
        (k : String)
        → Opens wake
        → length c.workers ≡ total_streams c.perf
        → Step cookie wake c (State.create_streams k) State.running
    end : Closes wake → c.workers ≡ [] → Step cookie wake c State.running State.exchange_results
    end_early :
        (k : String)
        → Closes wake
        → c.workers ≡ []
        → Step cookie wake c (State.create_streams k) State.exchange_results
    break_off : Breaks wake → Step cookie wake c State.running State.terminate
    break_early :
        (k : String) → Breaks wake → Step cookie wake c (State.create_streams k) State.terminate

  -- What a pass from the state `s` comes to: the loop is left in one of the last two states; or it
  -- goes on, behind one step of the machine, or in the same state if that is one to listen in; or
  -- the pass fails or waits for ever, and the state is as before.
  abbrev pub Passes : String → Wake n.Stream → State → Result Error Bool × Controller n h → Type 0
  Passes cookie wake s (ok true, c) = IsLast s × (c.state ≡ s)
  Passes cookie wake s (ok false, c) = Step cookie wake c s c.state ⊎ (Listens s × (c.state ≡ s))
  Passes cookie wake s (err e, c) = c.state ≡ s
  Passes cookie wake s (panic, c) = c.state ≡ s
  Passes cookie wake s (hang, c) = c.state ≡ s
