-- ===== src/Perf/Atomic.antt =====
-- `set_state` of src/perf.rs either announces and sets the state, or leaves it.
use iperf3_rust.Common.{◌≡◌, ◌≢◌, refl, ◌⊎◌, inl, inr}
use iperf3_rust.Message.{Role, client, server, State}
use iperf3_rust.Error.{Error}
use iperf3_rust.Outcome.{Result, ok, err, panic, hang, continue_with}
use iperf3_rust.Net.Interface.{Net}
use iperf3_rust.Perf.{Perf, set_state, announce}

module _ {n : Net} {Stats : Type 0} where
  announce-state :
      (role : Role) (state : State) (p : Perf n Stats) → (announce role state p).1.state ≡ p.state
  announce-state client state p = refl
  announce-state server state p = refl

  abbrev Sets : State → State → Result Error (Unit {0}) × Perf n Stats → Type 0
  Sets old new (r, p) = ((r ≡ ok tt) × (p.state ≡ new)) ⊎ ((r ≢ ok tt) × (p.state ≡ old))

  then-Sets :
      (old new : State) (a : Result Error (Unit {0}) × Perf n Stats)
      → a.1.state ≡ old
      → Sets old new (continue_with a λ _ p. (ok tt, record p { state = new }))
  then-Sets old new (ok _, p) e = inl (refl, refl)
  then-Sets old new (err x, p) e = inr (λ q. cc, e)
  then-Sets old new (panic, p) e = inr (λ q. cc, e)
  then-Sets old new (hang, p) e = inr (λ q. cc, e)

module _ (n : Net) (Stats : Type 0) where
  -- On either side, `set_state` either succeeds and the state is the new one, or does not succeed
  -- and the state is the old one.
  pub set_state_atomic :
      (state : State) (p : Perf n Stats)
      → ((set_state state p).0 ≡ ok tt) × ((set_state state p).1.state ≡ state)
        ⊎ ((set_state state p).0 ≢ ok tt) × ((set_state state p).1.state ≡ p.state)
  unfolding set_state
  set_state_atomic state p =
      then-Sets p.state state (announce p.role state p) (announce-state p.role state p)
