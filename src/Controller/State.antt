-- ===== src/Controller/State.antt =====
-- The fields of `Controller`, `Controller::new`, and how an action on a part is one on the whole.
use iperf3_rust.Common.{ℕ, Bool, []}
use iperf3_rust.Common.HashMap.{HashMap}
use iperf3_rust.Constant.{internal_port_buffer}
use iperf3_rust.Message.{StreamStats}
use iperf3_rust.Error.{Error}
use iperf3_rust.Outcome.{ok, Action}
use iperf3_rust.Net.Interface.{Net}
use iperf3_rust.Host.{Host, WorkerMessage}
use iperf3_rust.Perf.{Perf}

-- `receiver` is not here: what it yields is an input of `Controller.Run`. `world` is the rest of
-- the process and the operating system.
pub record Controller (n : Net) (h : Host n) : Type 0 where
  pub sender : h.Sender
  pub perf : Perf n h.Stats
  pub open perf use *
  pub stream_index : ℕ  -- u16
  pub publisher : h.Publisher
  pub workers : HashMap h.JoinHandle
  pub stream_results : HashMap StreamStats
  pub world : h.World

module _ {n : Net} {h : Host n} where
  -- With its two channels, made in the world that it starts in.
  unfoldable pub new : Perf n h.Stats → h.World → Controller n h
  new perf w =
      let (sender, w1) = h.channel internal_port_buffer w in
      let (publisher, w2) = h.broadcast 1 w1 in
      record {
        sender = sender;
        perf = perf;
        stream_index = 0;
        publisher = publisher;
        workers = [];
        stream_results = [];
        world = w2;
      }

  abbrev pub on_perf :
      {A : Type 0} → Action Error (Perf n h.Stats) A → Action Error (Controller n h) A
  on_perf m c = let (r, p) = m c.perf in (r, record c { perf = p })

  abbrev pub on_world : {A : Type 0} → Action Error h.World A → Action Error (Controller n h) A
  on_world m c = let (r, w) = m c.world in (r, record c { world = w })

  -- `self.publisher.send(message)`: whether somebody is subscribed.
  abbrev pub publish : WorkerMessage → Action Error (Controller n h) Bool
  publish message c =
      let (heard, w) = h.publish message c.publisher c.world in (ok heard, record c { world = w })
