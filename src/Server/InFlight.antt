-- ===== src/Server/InFlight.antt =====
-- At most one test is in flight, and what a connection does to it.
use iperf3_rust.Common.{
  ℕ, Bool, ◌≡◌, ◌≢◌, refl, sym, subst, ap, ◌∙◌, none, some, List, [], ◌∷◌, inl, inr, Option-cases,
  arith, ==→eq, Bool-cases, ◌==◌,
}
use iperf3_rust.Common.HashMap.{HashMap, get, get-insert, get-remove-none}
use iperf3_rust.Net.Interface.{Net}
use iperf3_rust.Message.{State}
use iperf3_rust.Perf.{Perf}
use iperf3_rust.Host.{Host, ControllerMessage, PerfStats}
use iperf3_rust.Error.{Error}
use iperf3_rust.Outcome.{Result, ok, err, panic, hang, continue_with}
use iperf3_rust.Controller.State.{new}
use iperf3_rust.Server.Handshake.{handle_create_stream}
use iperf3_rust.Server.Accept.{
  Listener, listening, Event, shutdown, accept_error, inbound, state_set, controller_ended, Flow,
  again, returned, upgrade, accept_inbound, accept_step, accept_loop, listener_after,
  after_create_perf, after_create_stream, go_on, set_test, dispatched,
}

set_test-none :
    (k j : ℕ) (state : State) (tests : HashMap State)
    → get j tests ≡ none
    → get j (set_test k state (get k tests) tests) ≡ none
set_test-none k j state tests e = elim (Option-cases (get k tests)) [
  | inl gone ↦ rw gone e
  | inr (old, live) ↦ rw live (ground (arith, get-insert k j state tests))
]

module _ {n : Net} {h : Host n} where
  -- Every test that lives is the one that the loop knows of, and the loop has its channel.
  record IsAlone (l : Listener n h) : Type 0 where
    alone : (k : ℕ) → get k l.tests ≢ none → l.in_flight_test_state ≡ some k
    channel :
        (k : ℕ)
        → l.in_flight_test_state ≡ some k
        → (tx : h.Sender) × (l.controller_channel ≡ some tx)

  dispatched-IsAlone :
      (perf : Perf n h.Stats) (w : h.World) (l : Listener n h)
      → IsAlone l
      → upgrade l.in_flight_test_state l.tests ≡ none
      → IsAlone (dispatched perf w l)
  dispatched-IsAlone perf w l a gone = record {
    alone = λ j e. elim (Bool-cases (l.allocated == j)) [
      | inl t ↦ ap some (==→eq l.allocated j t)
      | inr t ↦
          let live : get j l.tests ≢ none =
            λ none. e (rw (get-insert l.allocated j perf.state l.tests, t) none) in
          absurd (live (subst (λ x. upgrade x l.tests ≡ none) (a.alone j live) gone))
    ];
    channel = λ k e. ((new {h = h} perf w).sender, refl);
  }

  after_create_perf-IsAlone :
      (stats : PerfStats h.Stats) (r : Result Error (Perf n h.Stats)) (w : h.World)
      (l : Listener n h)
      → IsAlone l
      → upgrade l.in_flight_test_state l.tests ≡ none
      → IsAlone (after_create_perf stats r w l).1
  after_create_perf-IsAlone stats (ok perf) w l a gone =
      dispatched-IsAlone perf (h.send_perf_stats stats w) l a gone
  after_create_perf-IsAlone stats (err e) w l a gone = a
  after_create_perf-IsAlone stats panic w l a gone = a
  after_create_perf-IsAlone stats hang w l a gone = a

  in_world-IsAlone : (l : Listener n h) (w : h.World) → IsAlone l → IsAlone (record l { world = w })
  in_world-IsAlone l w a = record { alone = a.alone; channel = a.channel }

  pub after_create_stream-world :
      (sender : h.Sender) (r : Result Error (Unit {0}) × (n.Stream × h.World)) (l : Listener n h)
      → (w : h.World) × ((after_create_stream sender r l).1 ≡ record l { world = w })
  after_create_stream-world sender (ok _, (s, w)) l = (w, refl)
  after_create_stream-world sender (err e, (s, w)) l =
      (h.try_send ControllerMessage.terminate sender w, refl)
  after_create_stream-world sender (panic, (s, w)) l = (w, refl)
  after_create_stream-world sender (hang, (s, w)) l = (w, refl)

  has_channel :
      (l : Listener n h) (state : State)
      → IsAlone l
      → upgrade l.in_flight_test_state l.tests ≡ some state
      → (tx : h.Sender) × (l.controller_channel ≡ some tx)
  has_channel l state a live = elim (Option-cases l.in_flight_test_state) [
    | inl gone ↦ cc
    | inr (k, e) ↦ a.channel k e
  ]

  -- While a test lives, a connection is handed to `handle_create_stream` with the state of that
  -- test and the sender of its controller.
  busy_inbound :
      (l : Listener n h) (state : State) (stream : n.Stream) (in_time : Bool)
      → IsAlone l
      → upgrade l.in_flight_test_state l.tests ≡ some state
      → (tx : h.Sender) × (l.controller_channel ≡ some tx)
        × (accept_step (inbound stream in_time) l
            ≡ after_create_stream tx (handle_create_stream h state tx (stream, l.world)) l)
  unfolding accept_step accept_inbound
  busy_inbound l state stream in_time a live =
      let (tx, e) = has_channel l state a live in (tx, e, rw (live, e) refl)

  accept_step-IsAlone :
      (e : Event n.Stream) (l : Listener n h) → IsAlone l → IsAlone (accept_step e l).1
  unfolding accept_step
  accept_step-IsAlone shutdown l a = a
  accept_step-IsAlone accept_error l a = a
  accept_step-IsAlone (inbound stream in_time) l a =
      elim (Option-cases (upgrade l.in_flight_test_state l.tests)) [
        | inl gone ↦ rw gone (after_create_perf-IsAlone _ _ _ l a gone)
        | inr (state, live) ↦
            (let (tx, c, e) = busy_inbound l state stream in_time a live in
              let (w, same) =
                after_create_stream-world tx (handle_create_stream h state tx (stream, l.world))
                  l in
              subst IsAlone (sym (ap (λ x. x.1) e ∙ same)) (in_world-IsAlone l w a))
      ]
  accept_step-IsAlone (state_set k state) l a = record {
    alone = λ j e. a.alone j λ none. e (set_test-none k j state l.tests none);
    channel = a.channel;
  }
  accept_step-IsAlone (controller_ended k) l a = record {
    alone = λ j e. a.alone j λ none. e (get-remove-none k j l.tests none);
    channel = a.channel;
  }

  go_on-IsAlone :
      (flow : Flow) (events : List (Event n.Stream)) (l : Listener n h)
      → IsAlone l
      → IsAlone (accept_loop events l).1
      → IsAlone (go_on flow (accept_loop events) l).1
  go_on-IsAlone again events l a k = k
  go_on-IsAlone returned events l a k = a

  next-IsAlone :
      (p : Result Error Flow × Listener n h) (events : List (Event n.Stream))
      → IsAlone p.1
      → IsAlone (accept_loop events p.1).1
      → IsAlone (continue_with p λ flow. go_on flow (accept_loop events)).1
  next-IsAlone (ok flow, l) events a k = go_on-IsAlone flow events l a k
  next-IsAlone (err e, l) events a k = a
  next-IsAlone (panic, l) events a k = a
  next-IsAlone (hang, l) events a k = a

  accept_loop-IsAlone :
      (events : List (Event n.Stream)) (l : Listener n h)
      → IsAlone l
      → IsAlone (accept_loop events l).1
  unfolding accept_loop
  accept_loop-IsAlone [] l a = a
  accept_loop-IsAlone (e ∷ events) l a =
      let a' = accept_step-IsAlone e l a in
      next-IsAlone (accept_step e l) events a' (accept_loop-IsAlone events _ a')

  listening-IsAlone : (w : h.World) → IsAlone (listening {n = n} {h = h} w)
  unfolding listening get
  listening-IsAlone w = record { alone = λ k e. absurd (e refl); channel = λ k e. cc }

  listener-IsAlone :
      (events : List (Event n.Stream)) (w : h.World) → IsAlone (listener_after {h = h} events w)
  listener-IsAlone events w = accept_loop-IsAlone events _ (listening-IsAlone w)

module _ {n : Net} (h : Host n) where
  -- After any sequence of events (connections of any content, tests whose state is set or whose
  -- controller ends), no two tests live: two tests that do are the same.
  pub at_most_one_test :
      (events : List (Event n.Stream)) (w : h.World) (j k : ℕ)
      → get j (listener_after {h = h} events w).tests ≢ none
      → get k (listener_after {h = h} events w).tests ≢ none
      → j ≡ k
  at_most_one_test events w j k p q =
      let one = (listener-IsAlone events w).alone j p in
      let other = (listener-IsAlone events w).alone k q in cc

  -- While a test lives, after any events, the accept loop has the sender of a controller, gives a
  -- connection to `handle_create_stream` with this sender and the state of the test, and changes
  -- nothing of the listener but the world.
  pub busy_connection :
      (events : List (Event n.Stream)) (w : h.World) (l : Listener n h) (state : State)
      (stream : n.Stream) (in_time : Bool)
      → l ≡ listener_after events w
      → upgrade l.in_flight_test_state l.tests ≡ some state
      → (tx : h.Sender) × (w' : h.World) × (l.controller_channel ≡ some tx)
        × (accept_step (inbound stream in_time) l
            ≡ after_create_stream tx (handle_create_stream h state tx (stream, l.world)) l)
        × ((accept_step (inbound stream in_time) l).1 ≡ record l { world = w' })
  busy_connection events w l state stream in_time reached live =
      let a = subst IsAlone (sym reached) (listener-IsAlone events w) in
      let (tx, c, e) = busy_inbound l state stream in_time a live in
      let (w', same) =
        after_create_stream-world tx (handle_create_stream h state tx (stream, l.world)) l in
      (tx, w', c, e, ap (λ x. x.1) e ∙ same)
