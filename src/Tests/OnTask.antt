-- ===== src/Tests/OnTask.antt =====
-- The task of a worker that is told to start, and whose time is up.
use iperf3_rust.Common.{[], ◌∷◌, ◌++◌, arith}
use iperf3_rust.Host.{WorkerMessage}
use iperf3_rust.Worker.Loop.{received}
use iperf3_rust.Worker.Task.{worker_task, Told, worker_task-Told}
use iperf3_rust.Tests.Machine.{machine}
use iperf3_rust.Tests.OnWorker.{sender, early, late, ending}

worker_task-Told_example : Told machine 0 tt [] early ending (
    worker_task machine sender
      (record {
        first_signal = received WorkerMessage.start_load;
        started = 0;
        rounds = early ++ late ∷ [];
        ending = ending;
      })
      tt
      [])
worker_task-Told_example =
    worker_task-Told machine sender tt [] 0 early late [] ending (omega arith)
