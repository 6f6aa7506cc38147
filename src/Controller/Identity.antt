-- ===== src/Controller/Identity.antt =====
-- The role and the cookie of a test stay what they are through every pass of the server's loop.
use iperf3_rust.Common.{
  ℕ, ◌≡◌, refl, sym, ap, subst, ◌∙◌, inl, inr, Bool-cases, Option, some, none, List, [], ◌∷◌, arith,
}
use iperf3_rust.Common.HashMap.{get}
use iperf3_rust.Message.{server, State}
use iperf3_rust.Error.{Error}
use iperf3_rust.Outcome.{Result, ok, err, panic, hang, Action, continue_with}
use iperf3_rust.Net.Interface.{Net}
use iperf3_rust.Host.{Host, ControllerMessage}
use iperf3_rust.Perf.{Perf, set_state}
use iperf3_rust.Controller.State.{Controller}
use iperf3_rust.Controller.Streams.{create_and_register_stream_worker, accept_stream}
use iperf3_rust.Controller.Results.{collect_stream_results, exchange_results, report}
use iperf3_rust.Controller.Run.{
  Wake, internal, interrupting, control, shutdown, Turn, select, process_internal_message,
  stream_terminated, join_worker, after_arm, forward_shutdown, finish_test, abort_test, Arm, listen,
  repeat, finish, enter, start_if_new, is_running, pass, pass_at, run_from,
}
use iperf3_rust.Controller.Lifecycle.{
  register-perf, join_worker-perf, forward_shutdown-perf, start_load-perf,
}
use iperf3_rust.Controller.Turns.{after_pass}

module _ {n : Net} {Stats : Type 0} where
  abbrev pub SameTest : Perf n Stats → Perf n Stats → Type 0
  SameTest p p' = (p'.cookie ≡ p.cookie) × (p'.role ≡ p.role)

  pub set_state-SameTest : (state : State) (p : Perf n Stats) → SameTest p (set_state state p).1
  unfolding set_state
  set_state-SameTest state p = ground arith

module _ {n : Net} {h : Host n} where
  accept_stream-SameTest :
      (stream : n.Stream) (c : Controller n h) → SameTest c.perf (accept_stream stream c).1.perf
  unfolding accept_stream
  accept_stream-SameTest stream c = ground (
    arith,
    register-perf stream c,
    set_state-SameTest State.running (create_and_register_stream_worker stream c).1.perf,
  )

  stream_terminated-SameTest :
      (id : ℕ) (c : Controller n h) → SameTest c.perf (stream_terminated id c).1.perf
  unfolding stream_terminated
  stream_terminated-SameTest id c = ground (
    arith,
    join_worker-perf id (get id c.workers) c,
    set_state-SameTest State.exchange_results (join_worker id (get id c.workers) c).1.perf,
  )

  internal-SameTest :
      (message : Option (ControllerMessage n.Stream)) (c : Controller n h)
      → SameTest c.perf (process_internal_message message c).1.perf
  unfolding process_internal_message
  internal-SameTest none c = (refl, refl)
  internal-SameTest (some (ControllerMessage.create_stream stream)) c =
      accept_stream-SameTest stream c
  internal-SameTest (some (ControllerMessage.stream_terminated id)) c =
      stream_terminated-SameTest id c
  internal-SameTest (some ControllerMessage.terminate) c = set_state-SameTest State.terminate c.perf

  select-SameTest :
      (wake : Wake n.Stream) (c : Controller n h) → SameTest c.perf (select server wake c).1.perf
  unfolding select
  select-SameTest (internal message) c = internal-SameTest message c
  select-SameTest (interrupting progress message) c = internal-SameTest message c
  select-SameTest control c = (refl, refl)
  select-SameTest shutdown c = set_state-SameTest State.terminate c.perf

  pub listen-SameTest :
      (old state : State) (turn : Turn n.Stream) (c : Controller n h)
      → c.role ≡ server
      → SameTest c.perf (after_arm old state turn listen c).1.perf
  unfolding after_arm
  listen-SameTest old state turn c serves =
      let d = forward_shutdown turn.shutdown_seen c in
      let same : d.perf ≡ c.perf = forward_shutdown-perf turn.shutdown_seen c in
      let m : SameTest c.perf (select server turn.wake d).1.perf =
        subst (λ (p : Perf n h.Stats). SameTest p (select server turn.wake d).1.perf) same
          (select-SameTest turn.wake d) in
      let role : d.role ≡ server = ap (λ (p : Perf n h.Stats). p.role) same ∙ serves in
      let m' : SameTest c.perf (select d.role turn.wake d).1.perf =
        subst (λ r. SameTest c.perf (select r turn.wake d).1.perf) (sym role) m in
      ground arith

  -- What the last passes do to the test leaves its state alone too.
  abbrev pub Keeps : Controller n h → Controller n h → Type 0
  Keeps c c' = SameTest c.perf c'.perf × (c'.state ≡ c.state)

  pub finish_test-Keeps : (c : Controller n h) → Keeps c (finish_test c).1
  unfolding finish_test collect_stream_results exchange_results report
  finish_test-Keeps c = ground arith

  pub abort_test-Keeps : (c : Controller n h) → Keeps c (abort_test c).1
  unfolding abort_test collect_stream_results report
  abort_test-Keeps c = ground arith

  after_arm-SameTest :
      (old s : State) (turn : Turn n.Stream) (arm : Arm) (c : Controller n h)
      → c.role ≡ server
      → SameTest c.perf (after_arm old s turn arm c).1.perf
  unfolding after_arm
  after_arm-SameTest old s turn repeat c serves = (refl, refl)
  after_arm-SameTest old s turn finish c serves = (refl, refl)
  after_arm-SameTest old s turn listen c serves = listen-SameTest old s turn c serves

  -- An action and what follows it.
  then-SameTest :
      {A B : Type 0} (p : Perf n h.Stats) (r : Result Error A × Controller n h)
      (f : A → Action Error (Controller n h) B)
      → p.role ≡ server
      → SameTest p r.1.perf
      → ((a : A) (c : Controller n h) → c.role ≡ server → SameTest c.perf (f a c).1.perf)
      → SameTest p (continue_with r f).1.perf
  then-SameTest p (ok a, c) f serves first rest =
      let next = rest a c (first.1 ∙ serves) in (next.0 ∙ first.0, next.1 ∙ first.1)
  then-SameTest p (err e, c) f serves first rest = first
  then-SameTest p (panic, c) f serves first rest = first
  then-SameTest p (hang, c) f serves first rest = first

  enter-SameTest :
      (s old : State) (c : Controller n h) → SameTest c.perf (enter server old s c).1.perf
  unfolding enter start_if_new
  enter-SameTest State.start old c =
      ground (arith, set_state-SameTest (State.create_streams c.cookie) c.perf)
  enter-SameTest (State.create_streams k) old c = (refl, refl)
  enter-SameTest State.running old c = elim (Bool-cases (is_running old)) [
    | inl was ↦ rw was (refl, refl)
    | inr new ↦ rw new (ground (arith, start_load-perf c))
  ]
  enter-SameTest State.exchange_results old c = (finish_test-Keeps c).0
  enter-SameTest State.terminate old c = (abort_test-Keeps c).0

  pass-SameTest :
      (turn : Turn n.Stream) (old : State) (c : Controller n h)
      → c.role ≡ server
      → SameTest c.perf (pass turn old c).1.perf
  unfolding pass pass_at
  pass-SameTest turn old c serves =
      subst (λ r. SameTest c.perf (pass_at r c.state turn old c).1.perf) (sym serves)
        (then-SameTest c.perf (enter server old c.state c) (after_arm old c.state turn) serves
          (enter-SameTest c.state old c) (after_arm-SameTest old c.state turn))

  next-SameTest :
      (turns : List (Turn n.Stream)) (next : Option State) (c : Controller n h)
      → ((old : State) → SameTest c.perf (run_from turns old c).1.perf)
      → SameTest c.perf (after_pass turns (ok next, c)).1.perf
  next-SameTest turns none c more = (refl, refl)
  next-SameTest turns (some old) c more = more old

  pub run_from-SameTest :
      (turns : List (Turn n.Stream)) (old : State) (c : Controller n h)
      → c.role ≡ server
      → SameTest c.perf (run_from turns old c).1.perf
  unfolding run_from
  run_from-SameTest [] old c serves = (refl, refl)
  run_from-SameTest (turn ∷ turns) old c serves =
      then-SameTest c.perf (pass turn old c) (λ next c'. after_pass turns (ok next, c')) serves
        (pass-SameTest turn old c serves)
        λ next c' serves'.
          next-SameTest turns next c' λ old'. run_from-SameTest turns old' c' serves'
