-- ===== src/Controller/Registered.antt =====
-- Registering the workers of data streams, on either side.
use iperf3_rust.Common.{ℕ, suc, ◌^◌, ◌<◌, ◌≡◌, refl, some, length, arith}
use iperf3_rust.Common.HashMap.{KeysBelow, insert_top}
use iperf3_rust.Message.{Role}
use iperf3_rust.Outcome.{ok}
use iperf3_rust.Net.Interface.{Net}
use iperf3_rust.Host.{Host}
use iperf3_rust.Controller.State.{Controller}
use iperf3_rust.Controller.Streams.{create_and_register_stream_worker, registered, subscribed}

module _ {n : Net} {h : Host n} where
  -- A side of a test that has registered the streams 0 to k - 1, none of which has ended.
  pub record HasRegistered (r : Role) (k : ℕ) (c : Controller n h) : Type 0 where
    pub serves : c.role ≡ r
    pub next : c.stream_index ≡ k
    pub keys : KeysBelow k c.workers
    pub count : length c.workers ≡ k
    pub stats : (tx : h.Stats) × (c.stats_sender ≡ some tx)

  registered-HasRegistered :
      (r : Role) (k : ℕ) (stream : n.Stream) (stats : h.Stats) (receiver : h.Subscription)
      (c : Controller n h)
      → HasRegistered r k c
      → suc k < 2 ^ 16
      → HasRegistered r (suc k) (registered stream stats receiver c)
  unfolding registered
  registered-HasRegistered r k stream stats receiver c a w = record {
    serves = a.serves;
    next = omega (arith, a.next);
    keys = (insert_top k _ _ c.workers a.next a.keys).0;
    count = omega (arith, (insert_top k _ _ c.workers a.next a.keys).1, a.count);
    stats = a.stats;
  }

  subscribed-HasRegistered :
      (r : Role) (k : ℕ) (c : Controller n h)
      → HasRegistered r k c
      → HasRegistered r k (subscribed c)
  subscribed-HasRegistered r k c a = record {
    serves = a.serves;
    next = a.next;
    keys = a.keys;
    count = a.count;
    stats = a.stats;
  }

  -- One stream is registered under the next number; nothing else of the test changes.
  pub register_next :
      (r : Role) (k : ℕ) (stream : n.Stream) (c : Controller n h)
      → HasRegistered r k c
      → suc k < 2 ^ 16
      → (c' : Controller n h) × (create_and_register_stream_worker stream c ≡ (ok tt, c'))
        × (c'.perf ≡ c.perf)
        × HasRegistered r (suc k) c'
  unfolding create_and_register_stream_worker
  register_next r k stream c a w =
      let (tx, e) = a.stats in
      let receiver = (h.subscribe c.publisher c.world).0 in
      (
        registered stream tx receiver (subscribed c),
        rw (e, create_and_register_stream_worker) refl,
        refl,
        registered-HasRegistered r k stream tx receiver (subscribed c)
            (subscribed-HasRegistered r k c a) w,
      )
