-- ===== src/Controller/Turns.antt =====
-- Turns of the controller's loop, and how it goes from one to the next.
use iperf3_rust.Common.{◌≡◌, refl, ap, Bool, true, false, Option, some, none, List, [], ◌∷◌, ◌++◌}
use iperf3_rust.Message.{State}
use iperf3_rust.Error.{Error}
use iperf3_rust.Outcome.{Result, ok, err, panic, hang, continue_with}
use iperf3_rust.Net.Interface.{Net}
use iperf3_rust.Host.{Host}
use iperf3_rust.Controller.State.{Controller}
use iperf3_rust.Controller.Run.{Turn, Wake, pass, run_from}

-- The turn in which `wake` is ready first, and no shutdown is.
abbrev pub hears : {Stream : Type 0} → Wake Stream → Turn Stream
hears wake = record { shutdown_seen = false; wake = wake }

module _ {n : Net} {h : Host n} where
  -- What `run_from` does behind a pass.
  abbrev pub after_pass :
      List (Turn n.Stream)
      → Result Error (Option State) × Controller n h
      → Result Error Bool × Controller n h
  after_pass turns r =
      continue_with r
        λ next c'. elim next [ none ↦ (ok true, c') | some state ↦ run_from turns state c' ]

  pub run_from-step :
      (turn : Turn n.Stream) (turns : List (Turn n.Stream)) (old next : State)
      (c c' : Controller n h)
      → pass turn old c ≡ (ok (some next), c')
      → run_from (turn ∷ turns) old c ≡ run_from turns next c'
  unfolding run_from
  run_from-step turn turns old next c c' e = rw (e, run_from) refl

  -- Turns that are used up leave the loop where further turns take it on.
  run_from_on :
      (turns more : List (Turn n.Stream)) (next : Result Error (Option State) × Controller n h)
      (c' : Controller n h)
      → ((old : State) (c : Controller n h)
          → run_from turns old c ≡ (ok false, c')
          → (old' : State) × (run_from (turns ++ more) old c ≡ run_from more old' c'))
      → after_pass turns next ≡ (ok false, c')
      → (old' : State) × (after_pass (turns ++ more) next ≡ run_from more old' c')
  run_from_on turns more (ok none, c) c' ih e = cc
  run_from_on turns more (ok (some state), c) c' ih e = ih state c e
  run_from_on turns more (err x, c) c' ih e = cc
  run_from_on turns more (panic, c) c' ih e = cc
  run_from_on turns more (hang, c) c' ih e = cc

  pub run_from-append :
      (turns more : List (Turn n.Stream)) (old : State) (c c' : Controller n h)
      → run_from turns old c ≡ (ok false, c')
      → (old' : State) × (run_from (turns ++ more) old c ≡ run_from more old' c')
  unfolding run_from
  run_from-append [] more old c c' e =
      (old, ap (λ (x : Result Error Bool × Controller n h). run_from more old x.1) e)
  run_from-append (turn ∷ turns) more old c c' e =
      run_from_on turns more (pass turn old c) c'
        (λ old1 c1 e1. run_from-append turns more old1 c1 c' e1) e
