-- ===== src/Main.antt =====
-- src/main.rs: the choice between server and client, once the options are parsed, and the signal
-- that ends the program.
use iperf3_rust.Common.{ℕ, String, List, if◌then◌else◌}
use iperf3_rust.Message.{StreamStats}
use iperf3_rust.Message.Opts.{Opts}
use iperf3_rust.Error.{Error, Io}
use iperf3_rust.Outcome.{Result}
use iperf3_rust.Ui.{Float}
use iperf3_rust.Ui.Lines.{Printing, run_client, run_server}

-- What is used of tokio: `broadcast::channel(capacity)` of `()`, and `send`, the result of which is
-- dropped.
pub record Signals : Type 1 where
  pub World : Type 0
  pub Sender : Type 0
  pub Receiver : Type 0
  pub channel : ℕ → World → (Sender × Receiver) × World
  pub send : Sender → World → World

module _ (s : Signals) where
  open s use {World, Sender, Receiver}

  -- The task that `new_shutdown` spawns, once `ctrl_c` has given its result: an error of it is taken
  -- for the signal.
  abbrev pub shutdown_task : Sender → Io (Unit {0}) → World → World
  shutdown_task tx ctrl_c w = s.send tx w

  -- The receiver, and the task that is spawned.
  unfoldable pub new_shutdown : World → (Receiver × (Io (Unit {0}) → World → World)) × World
  new_shutdown w = let ((tx, rx), w') = s.channel 1 w in ((rx, shutdown_task tx), w')

  -- What is printed, with the task. What the two sides make of the receiver is an input.
  unfoldable pub main :
      Float
      → Opts
      → (Receiver → Result Error (List (String × List StreamStats)))
      → (Receiver → Result Error (List StreamStats))
      → World
      → (Printing × (Io (Unit {0}) → World → World)) × World
  unfolding new_shutdown run_server run_client
  main f opts server_started client_started w =
      let ((shutdown, task), w') = new_shutdown w in
      let printing =
        if opts.server.server
        then run_server f opts.common (server_started shutdown)
        else run_client f opts.common opts.client (client_started shutdown) in
      ((printing, task), w')
