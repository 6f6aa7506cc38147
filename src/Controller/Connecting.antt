-- ===== src/Controller/Connecting.antt =====
-- The client connects its data streams.
use iperf3_rust.Common.{
  ℕ, zero, suc, ◌+◌, ◌^◌, ◌≤◌, ◌<◌, ◌≡◌, refl, sym, ap, subst, ◌∙◌, inl, inr, Bool-cases, ltb,
  ltb→lt, ltb→le, lt→ltb, le→ltb, arith,
}
use iperf3_rust.Message.{client}
use iperf3_rust.Error.{Error}
use iperf3_rust.Outcome.{Result, ok, continue_with-eq-ok}
use iperf3_rust.Net.Interface.{Net}
use iperf3_rust.Host.{Host}
use iperf3_rust.Controller.State.{Controller}
use iperf3_rust.Controller.Registered.{HasRegistered, register_next}
use iperf3_rust.Controller.Streams.{
  total_streams, connect_data_stream, create_and_register_stream_worker, connect_streams,
  create_streams,
}

module _ {n : Net} {h : Host n} where
  -- A connection changes the world alone.
  pub connect-world :
      (c : Controller n h)
      → (connect_data_stream c).1 ≡ record c { world = (connect_data_stream c).1.world }
  unfolding connect_data_stream
  connect-world c = ground arith

  pub connect-HasRegistered :
      (k : ℕ) (c : Controller n h)
      → HasRegistered client k c
      → HasRegistered client k (connect_data_stream c).1
  connect-HasRegistered k c a =
      subst (HasRegistered client k) (sym (connect-world c)) (record {
        serves = a.serves;
        next = a.next;
        keys = a.keys;
        count = a.count;
        stats = a.stats;
      })

  -- One round of the loop that connects its stream.
  pub connect_round :
      (fuel total : ℕ) (stream : n.Stream) (c c1 c2 : Controller n h)
      → c.stream_index < total
      → connect_data_stream c ≡ (ok stream, c1)
      → create_and_register_stream_worker stream c1 ≡ (ok tt, c2)
      → connect_streams (suc fuel) total c ≡ connect_streams fuel total c2
  unfolding connect_streams
  connect_round fuel total stream c c1 c2 l e r =
      simp (lt→ltb c.stream_index total l, e, connect_streams) (rw r refl)

  -- A loop that succeeds has connected its first stream.
  connect_first :
      (fuel total : ℕ) (c : Controller n h)
      → c.stream_index < total
      → (connect_streams (suc fuel) total c).0 ≡ ok tt
      → (stream : n.Stream) × (connect_data_stream c ≡ (ok stream, (connect_data_stream c).1))
  unfolding connect_streams
  connect_first fuel total c l q =
      let (stream, e, same) =
        continue_with-eq-ok (connect_data_stream c) _
          (simp (lt→ltb c.stream_index total l, connect_streams) at q) in
      (stream, λ i. (e i, (connect_data_stream c).1))

  pub connect_stop :
      (fuel total : ℕ) (c : Controller n h)
      → total ≤ c.stream_index
      → connect_streams fuel total c ≡ (ok tt, c)
  unfolding connect_streams
  connect_stop zero total c l = rw (le→ltb c.stream_index total l, connect_streams) refl
  connect_stop (suc fuel) total c l = rw (le→ltb c.stream_index total l, connect_streams) refl

  -- What a loop that is done leaves.
  abbrev IsComplete : ℕ → Controller n h → Result Error (Unit {0}) × Controller n h → Type 0
  IsComplete total c r = HasRegistered client total r.1 × (r.1.perf ≡ c.perf)

  stopped-IsComplete :
      (fuel total : ℕ) (c : Controller n h)
      → HasRegistered client total c
      → IsComplete total c (connect_streams fuel total c)
  stopped-IsComplete fuel total c a =
      subst (IsComplete total c) (sym (connect_stop fuel total c (omega (arith, a.next)))) (a, refl)

  connect_streams-IsComplete :
      (fuel k total : ℕ) (c : Controller n h)
      → HasRegistered client k c
      → k ≤ total
      → total < 2 ^ 16
      → total ≤ fuel + k
      → (connect_streams fuel total c).0 ≡ ok tt
      → IsComplete total c (connect_streams fuel total c)
  connect_streams-IsComplete zero k total c a l w f q =
      let all : k ≡ total = omega arith in stopped-IsComplete zero total c (rw all at a)
  connect_streams-IsComplete (suc fuel) k total c a l w f q = elim (Bool-cases (ltb k total)) [
    | inr t ↦
        let all : k ≡ total = omega (arith, ltb→le k total t) in
        stopped-IsComplete (suc fuel) total c (rw all at a)
    | inl t ↦
        let less : c.stream_index < total = omega (arith, ltb→lt k total t, a.next) in
        let (stream, e) = connect_first fuel total c less q in
        let c1 = (connect_data_stream c).1 in
        let (c2, r, same, a2) =
          register_next client k stream c1 (connect-HasRegistered k c a) (omega (arith, a.next)) in
        let round = connect_round fuel total stream c c1 c2 less e r in
        let q' : (connect_streams fuel total c2).0 ≡ ok tt = rw round at q in
        let (a3, same3) =
          connect_streams-IsComplete fuel (suc k) total c2 a2 (omega (arith, a.next)) w
            (omega arith) q' in
        subst (IsComplete total c) (sym round)
          (a3, same3 ∙ same ∙ ap (λ (d : Controller n h). d.perf) (connect-world c))
  ]

  pub create_streams_lem :
      (c : Controller n h)
      → c.role ≡ client
      → create_streams c ≡ connect_streams (total_streams c.perf) (total_streams c.perf) c
  unfolding create_streams
  create_streams_lem c e = simp (e, create_streams)

  -- Asked again once its streams are connected, it connects no other.
  create_streams_again :
      (total : ℕ) (c : Controller n h)
      → HasRegistered client total c
      → total_streams c.perf ≡ total
      → create_streams c ≡ (ok tt, c)
  create_streams_again total c a e =
      create_streams_lem c a.serves
      ∙ connect_stop (total_streams c.perf) (total_streams c.perf) c (omega (arith, a.next))

  -- If a client with no stream yet succeeds in creating its streams, it has one worker for each
  -- stream of the test, numbered from 0, the test is otherwise unchanged, and creating streams
  -- again succeeds and changes nothing.
  pub create_streams_complete :
      (c : Controller n h)
      → HasRegistered client 0 c
      → (create_streams c).0 ≡ ok tt
      → let c' = (create_streams c).1 in
        HasRegistered client (total_streams c.perf) c'
        × (c'.perf ≡ c.perf)
        × (create_streams c' ≡ (ok tt, c'))
  create_streams_complete c a q =
      let total = total_streams c.perf in
      let once = create_streams_lem c a.serves in
      let (a', same) =
        connect_streams-IsComplete total 0 total c a (omega arith) (omega arith) (omega arith)
          (rw once at q) in
      subst
        (λ (r : Result Error (Unit {0}) × Controller n h).
          HasRegistered client total r.1
          × (r.1.perf ≡ c.perf)
          × (create_streams r.1 ≡ (ok tt, r.1)))
        (sym once) (a', same, create_streams_again total _ a' (ap total_streams same))
