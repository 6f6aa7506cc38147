-- ===== src/Server/Ownership.antt =====
-- Whose sender the accept loop keeps: that of the controller made with the test in flight.
use iperf3_rust.Common.{
  ℕ, Bool, ◌≡◌, refl, sym, subst, ap, Option, none, some, List, [], ◌∷◌, ◌++◌, ◌⊎◌, inl, inr,
  Option-cases,
}
use iperf3_rust.Net.Interface.{Net}
use iperf3_rust.Message.{State}
use iperf3_rust.Perf.{Perf}
use iperf3_rust.Host.{Host, PerfStats}
use iperf3_rust.Error.{Error}
use iperf3_rust.Outcome.{Result, ok, err, panic, hang, continue_with}
use iperf3_rust.Controller.State.{new}
use iperf3_rust.Server.Handshake.{create_perf, handle_create_stream}
use iperf3_rust.Server.Accept.{
  Listener, listening, Event, shutdown, accept_error, inbound, state_set, controller_ended, Flow,
  again, returned, upgrade, accept_inbound, accept_step, accept_loop, listener_after,
  after_create_perf, after_create_stream, go_on, dispatched, unwrap,
}
use iperf3_rust.Constant.{internal_port_buffer}
use iperf3_rust.Socket.{peer_addr_string}
use iperf3_rust.Server.InFlight.{after_create_stream-world}

module _ {n : Net} {h : Host n} where
  -- The event `e` makes test `k`, and `tx` is the sender of the controller that it makes for it.
  abbrev pub Makes : Event n.Stream → Listener n h → ℕ → h.Sender → Type 0
  Makes e l k tx =
      (perf : Perf n h.Stats) × (w : h.World) × (accept_step e l ≡ (ok again, dispatched perf w l))
      × ((dispatched perf w l).in_flight_test_state ≡ some k)
      × (l.allocated ≡ k)
      × (tx ≡ (new {h = h} perf w).sender)

  -- One of the events makes test `k`, with the controller that `tx` leads to.
  abbrev pub IsMade : List (Event n.Stream) → Listener n h → ℕ → h.Sender → Type 0
  IsMade events l k tx =
      (earlier : List (Event n.Stream)) × (e : Event n.Stream) × (later : List (Event n.Stream))
      × (events ≡ earlier ++ e ∷ later)
      × Makes e (accept_loop earlier l).1 k tx

  -- The sender that the loop has is in the relation `Q` to the test in flight.
  abbrev Owns : (ℕ → h.Sender → Type 0) → Listener n h → Type 0
  Owns Q l =
      (k : ℕ)
      → l.in_flight_test_state ≡ some k
      → (tx : h.Sender) × (l.controller_channel ≡ some tx) × Q k tx

  Owns-map :
      (Q R : ℕ → h.Sender → Type 0) (l : Listener n h)
      → ((k : ℕ) (tx : h.Sender) → Q k tx → R k tx)
      → Owns Q l
      → Owns R l
  Owns-map Q R l f o k e = let (tx, c, q) = o k e in (tx, c, f k tx q)

  after_create_perf-Owns :
      (Q : ℕ → h.Sender → Type 0) (e : Event n.Stream) (stats : PerfStats h.Stats)
      (r : Result Error (Perf n h.Stats)) (w : h.World) (l : Listener n h)
      → accept_step e l ≡ after_create_perf stats r w l
      → Owns Q l
      → Owns (λ k tx. Q k tx ⊎ Makes e l k tx) (after_create_perf stats r w l).1
  after_create_perf-Owns Q e stats (ok perf) w l step o = λ k f. (
    (new {h = h} perf (h.send_perf_stats stats w)).sender,
    refl,
    inr (perf, h.send_perf_stats stats w, step, f, cc, refl),
  )
  after_create_perf-Owns Q e stats (err x) w l step o = Owns-map Q _ l (λ k tx q. inl q) o
  after_create_perf-Owns Q e stats panic w l step o = Owns-map Q _ l (λ k tx q. inl q) o
  after_create_perf-Owns Q e stats hang w l step o = Owns-map Q _ l (λ k tx q. inl q) o

  idle_Owns :
      (Q : ℕ → h.Sender → Type 0) (stream : n.Stream) (in_time : Bool) (l : Listener n h)
      → upgrade l.in_flight_test_state l.tests ≡ none
      → Owns Q l
      → Owns
          (λ k tx. Q k tx ⊎ Makes (inbound stream in_time) l k tx)
          (accept_step (inbound stream in_time) l).1
  unfolding accept_step accept_inbound
  idle_Owns Q stream in_time l gone o =
      let (tx, w) = h.stats_channel internal_port_buffer l.world in
      let stats : PerfStats h.Stats = record {
        peer_addr = peer_addr_string h stream;
        receiver = tx;
      } in
      let r = create_perf n in_time tx stream in
      let step : accept_step (inbound stream in_time) l ≡ after_create_perf stats r w l =
        rw gone refl in
      subst (λ x. Owns (λ k tx. Q k tx ⊎ Makes (inbound stream in_time) l k tx) x.1) (sym step)
        (after_create_perf-Owns Q (inbound stream in_time) stats r w l step o)

  unwrapped :
      (o : Option h.Sender) (stream : n.Stream) (state : State) (l : Listener n h)
      → (w : h.World) × ((continue_with (unwrap o l) λ sender l'.
            after_create_stream sender
              (handle_create_stream h state sender (stream, l'.world))
              l').1
          ≡ record l { world = w })
  unwrapped none stream state l = (l.world, refl)
  unwrapped (some tx) stream state l =
      after_create_stream-world tx (handle_create_stream h state tx (stream, l.world)) l

  -- A connection while a test lives changes the world at most.
  busy_step :
      (stream : n.Stream) (in_time : Bool) (l : Listener n h) (state : State)
      → upgrade l.in_flight_test_state l.tests ≡ some state
      → (w : h.World) × ((accept_step (inbound stream in_time) l).1 ≡ record l { world = w })
  unfolding accept_step accept_inbound
  busy_step stream in_time l state live = rw live (unwrapped l.controller_channel stream state l)

  accept_step-Owns :
      (Q : ℕ → h.Sender → Type 0) (e : Event n.Stream) (l : Listener n h)
      → Owns Q l
      → Owns (λ k tx. Q k tx ⊎ Makes e l k tx) (accept_step e l).1
  unfolding accept_step
  accept_step-Owns Q shutdown l o = Owns-map Q _ l (λ k tx q. inl q) o
  accept_step-Owns Q accept_error l o = Owns-map Q _ l (λ k tx q. inl q) o
  accept_step-Owns Q (inbound stream in_time) l o =
      elim (Option-cases (upgrade l.in_flight_test_state l.tests)) [
        | inl gone ↦ idle_Owns Q stream in_time l gone o
        | inr (state, live) ↦
            (let (w, same) = busy_step stream in_time l state live in
              subst (Owns (λ k tx. Q k tx ⊎ Makes (inbound stream in_time) l k tx)) (sym same)
                (λ k f. let (tx, c, q) = o k f in (tx, c, inl q)))
      ]
  accept_step-Owns Q (state_set j state) l o = λ k f. let (tx, c, q) = o k f in (tx, c, inl q)
  accept_step-Owns Q (controller_ended j) l o = λ k f. let (tx, c, q) = o k f in (tx, c, inl q)

  -- What a later event makes, it makes behind the first event too.
  IsMade-cons :
      (e : Event n.Stream) (events : List (Event n.Stream)) (l l' : Listener n h)
      → accept_step e l ≡ (ok again, l')
      → (k : ℕ) (tx : h.Sender) → IsMade events l' k tx
      → IsMade (e ∷ events) l k tx
  unfolding accept_loop
  IsMade-cons e events l l' step k tx (earlier, e', later, split, made) =
      (e ∷ earlier, e', later, ap (λ es. e ∷ es) split, rw step made)

  -- Where the loop stands behind an event, by what the event gave.
  next-Owns :
      (Q R : ℕ → h.Sender → Type 0) (p : Result Error Flow × Listener n h)
      (events : List (Event n.Stream))
      → Owns Q p.1
      → ((k : ℕ) (tx : h.Sender) → Q k tx → R k tx)
      → ((l' : Listener n h) → p ≡ (ok again, l') → Owns R (accept_loop events l').1)
      → Owns R (continue_with p λ flow. go_on flow (accept_loop events)).1
  next-Owns Q R (ok again, l) events o f rest = rest l refl
  next-Owns Q R (ok returned, l) events o f rest = Owns-map Q R l f o
  next-Owns Q R (err e, l) events o f rest = Owns-map Q R l f o
  next-Owns Q R (panic, l) events o f rest = Owns-map Q R l f o
  next-Owns Q R (hang, l) events o f rest = Owns-map Q R l f o

  accept_loop-Owns :
      (events : List (Event n.Stream)) (Q : ℕ → h.Sender → Type 0) (l : Listener n h)
      → Owns Q l
      → Owns (λ k tx. Q k tx ⊎ IsMade events l k tx) (accept_loop events l).1
  unfolding accept_loop
  accept_loop-Owns [] Q l o = λ k f. let (tx, c, q) = o k f in (tx, c, inl q)
  accept_loop-Owns (e ∷ events) Q l o =
      let first : (k : ℕ) (tx : h.Sender) → Makes e l k tx → IsMade (e ∷ events) l k tx =
        λ k tx m. ([], e, events, refl, m) in
      let step = accept_step-Owns Q e l o in
      next-Owns (λ k tx. Q k tx ⊎ Makes e l k tx) (λ k tx. Q k tx ⊎ IsMade (e ∷ events) l k tx)
        (accept_step e l) events step
        (λ k tx x. elim x [ inl q ↦ inl q | inr m ↦ inr (first k tx m) ])
        λ l' again_at.
          let step' = subst (λ p. Owns (λ k tx. Q k tx ⊎ Makes e l k tx) p.1) again_at step in
          Owns-map (λ k tx. (Q k tx ⊎ Makes e l k tx) ⊎ IsMade events l' k tx)
            (λ k tx. Q k tx ⊎ IsMade (e ∷ events) l k tx) (accept_loop events l').1
            (λ k tx x. elim x [
              | inl (inl q) ↦ inl q
              | inl (inr m) ↦ inr (first k tx m)
              | inr m ↦ inr (IsMade-cons e events l l' again_at k tx m)
            ])
            (accept_loop-Owns events (λ k tx. Q k tx ⊎ Makes e l k tx) l' step')

  -- The sender that the loop has is that of the controller which was made with the test in flight.
  pub owns_channel :
      (events : List (Event n.Stream)) (w : h.World) (k : ℕ)
      → (listener_after {h = h} events w).in_flight_test_state ≡ some k
      → (tx : h.Sender) × ((listener_after {h = h} events w).controller_channel ≡ some tx)
        × IsMade events (listening w) k tx
  unfolding listening
  owns_channel events w k f =
      let (tx, c, q) = accept_loop-Owns events (λ k tx. ⊥) (listening w) (λ k e. cc) k f in
      (tx, c, elim q [ inl x ↦ absurd x | inr m ↦ m ])
