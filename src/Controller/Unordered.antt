-- ===== src/Controller/Unordered.antt =====
-- `HashMap` up to its iteration order, which the source leaves open: a set quotient.
use mathlib.Core.Quot
use mathlib.Core.Quot.{Quot}
use iperf3_rust.Common.{ℕ, ◌≡◌, sym, ◌∙◌, inl, inr, Option-cases}
use iperf3_rust.Common.HashMap.{HashMap, get}
use iperf3_rust.Message.{StreamStats}
use iperf3_rust.Net.Interface.{Net}
use iperf3_rust.Host.{Host}
use iperf3_rust.Controller.State.{Controller}
use iperf3_rust.Controller.Results.{collect_from, collect_stream_results}
use iperf3_rust.Controller.Cooperation.{Cooperates}
use iperf3_rust.Controller.Collecting.{HasDistinctKeys, get-collect_from, get-collect_from_ended}

abbrev pub SameEntries : {V : Type 0} → HashMap V → HashMap V → Type 0
SameEntries m m' = (k : ℕ) → get k m ≡ get k m'

-- A map as the set of its entries.
abbrev pub Entries : Type 0 → Type 0
Entries V = Quot (SameEntries {V = V})

abbrev pub entries : {V : Type 0} → HashMap V → Entries V
entries = Quot.mk

module _ {n : Net} (h : Host n) (p : Cooperates h) where
  get-collect_from_same :
      (workers workers' : HashMap h.JoinHandle) (results : HashMap StreamStats) (w w' : h.World)
      → HasDistinctKeys workers
      → HasDistinctKeys workers'
      → SameEntries workers workers'
      → SameEntries (collect_from h workers results w).0 (collect_from h workers' results w').0
  get-collect_from_same workers workers' results w w' d d' same k =
      elim (Option-cases (get k workers)) [
        | inl e ↦
            get-collect_from h k workers results w e
            ∙ sym (get-collect_from h k workers' results w' (sym (same k) ∙ e))
        | inr (handler, e) ↦
            get-collect_from_ended h k handler (p.result handler) workers results w d e
              (p.join_timeout_ends handler)
            ∙ sym (
                get-collect_from_ended h k handler (p.result handler) workers' results w' d'
                  (sym (same k) ∙ e) (p.join_timeout_ends handler))
      ]

  -- On a host that cooperates, the set of entries that collecting the results gives depends on the
  -- set of entries of the workers, not on the order in which the map of the workers yields them,
  -- if no key is there twice in either order.
  pub collect_unordered :
      (c : Controller n h) (workers' : HashMap h.JoinHandle)
      → HasDistinctKeys c.workers
      → HasDistinctKeys workers'
      → SameEntries c.workers workers'
      → entries (collect_stream_results c).1.stream_results
        ≡ entries (collect_stream_results (record c { workers = workers' })).1.stream_results
  unfolding collect_stream_results
  collect_unordered c workers' d d' same =
      Quot.sound
        (get-collect_from_same c.workers workers' c.stream_results c.world c.world d d' same)
