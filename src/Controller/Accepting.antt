-- ===== src/Controller/Accepting.antt =====
-- The server counts data streams in, and starts the test with the last one.
use iperf3_rust.Common.{
  ℕ, suc, ◌^◌, ◌<◌, ◌≡◌, ◌≢◌, refl, sym, subst, ◌∙◌, true, false, length, ◌==◌, eq→==, ne→==,
}
use iperf3_rust.Message.{server, ServerMessage, ServerEnvelope, State}
use iperf3_rust.Outcome.{ok}
use iperf3_rust.Net.Interface.{Bytes, Net, Behaves}
use iperf3_rust.Net.Specification.{Sent, Fits}
use iperf3_rust.Host.{Host}
use iperf3_rust.Perf.{Perf}
use iperf3_rust.Controller.State.{Controller}
use iperf3_rust.Controller.Streams.{total_streams, accept_stream}
use iperf3_rust.Controller.Registered.{HasRegistered, register_next}
use iperf3_rust.Controller.Agreement.{set_state_announced}

module _ {n : Net} {h : Host n} where
  -- A stream that is not the last one only adds a worker.
  pub accept_next :
      (k : ℕ) (stream : n.Stream) (c : Controller n h)
      → HasRegistered server k c
      → suc k < 2 ^ 16
      → suc k ≢ total_streams c.perf
      → (c' : Controller n h) × (accept_stream stream c ≡ (ok tt, c'))
        × (c'.perf ≡ c.perf)
        × HasRegistered server (suc k) c'
  unfolding accept_stream
  accept_next k stream c a w ne =
      let (c1, r, same, a1) = register_next server k stream c a w in
      let t : (length c1.workers == total_streams c.perf) ≡ false =
        ne→== _ _ (λ e. ne (sym a1.count ∙ e)) in
      (c1, simp (a.serves, r, t, accept_stream), same, a1)

  -- With the last stream the test is set running, which the client is told.
  pub accept_last :
      (b : Behaves n) (payload : Bytes) (k : ℕ) (stream : n.Stream) (c : Controller n h)
      → HasRegistered server k c
      → suc k < 2 ^ 16
      → suc k ≡ total_streams c.perf
      → b.IsUp c.control_socket
      → Fits n.server_codec (ServerEnvelope.message (ServerMessage.set_state State.running)) payload
      → (c' : Controller n h) × (accept_stream stream c ≡ (ok tt, c'))
        × (c'.state ≡ State.running)
        × Sent b payload c.control_socket c'.control_socket
        × HasRegistered server (suc k) c'
  unfolding accept_stream
  accept_last b payload k stream c a w last up fits =
      let (c1, r, same, a1) = register_next server k stream c a w in
      let t : (length c1.workers == total_streams c.perf) ≡ true = eq→== _ _ (a1.count ∙ last) in
      let up1 : b.IsUp c1.control_socket =
        subst (λ (p : Perf n h.Stats). b.IsUp p.control_socket) (sym same) up in
      let (s', q, sent) =
        set_state_announced n b State.running payload c1.perf a1.serves up1 fits in
      let sent' : Sent b payload c.control_socket s' =
        subst (λ (p : Perf n h.Stats). Sent b payload p.control_socket s') same sent in
      (
        record c1 { perf = record (c1.perf) { state = State.running; control_socket = s' } },
        simp (a.serves, r, t, accept_stream) (rw q),
        refl,
        sent',
        record {
          serves = a1.serves;
          next = a1.next;
          keys = a1.keys;
          count = a1.count;
          stats = a1.stats;
        },
      )
