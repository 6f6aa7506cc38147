-- ===== src/Controller/Collecting.antt =====
-- What `collect_stream_results` keeps.
use iperf3_rust.Common.{
  ℕ, ◌≡◌, ◌≢◌, refl, ◌∙◌, none, ne→==, ==→ne, eq→==, ==→eq, ap, subst, ◌==◌, inl, inr, some,
  Bool-cases, [], ◌∷◌,
}
use iperf3_rust.Common.HashMap.{HashMap, get, get-insert}
use iperf3_rust.Message.{StreamStats}
use iperf3_rust.Outcome.{ok, err, panic, hang}
use iperf3_rust.Net.Interface.{Net}
use iperf3_rust.Host.{Host, TimedJoin, in_time, elapsed, completed, not_joined}
use iperf3_rust.Controller.State.{Controller}
use iperf3_rust.Controller.Results.{keep_result, collect_from, collect_stream_results}

get-keep_result :
    (id j : ℕ) (outcome : TimedJoin) (results : HashMap StreamStats)
    → j ≢ id
    → get id (keep_result j outcome results) ≡ get id results
get-keep_result id j (in_time (completed (ok stats))) results ne =
    get-insert j id stats results ∙ rw (ne→== j id ne) refl
get-keep_result id j (in_time (completed (err e))) results ne = refl
get-keep_result id j (in_time (completed panic)) results ne = refl
get-keep_result id j (in_time (completed hang)) results ne = refl
get-keep_result id j (in_time not_joined) results ne = refl
get-keep_result id j elapsed results ne = refl

get-keep_result_same :
    (id j : ℕ) (stats : StreamStats) (outcome : TimedJoin) (results : HashMap StreamStats)
    → j ≡ id
    → outcome ≡ in_time (completed (ok stats))
    → get id (keep_result j outcome results) ≡ some stats
get-keep_result_same id j stats outcome results same e =
    ap (λ o. get id (keep_result j o results)) e
    ∙ get-insert j id stats results
    ∙ rw (eq→== j id same) refl

-- No key is there twice, as in a `HashMap`.
abbrev pub HasDistinctKeys : {V : Type 0} → HashMap V → Type 0
HasDistinctKeys [] = Unit
HasDistinctKeys ((j, v) ∷ m) = (get j m ≡ none) × HasDistinctKeys m

module _ {n : Net} (h : Host n) where
  pub get-collect_from :
      (id : ℕ) (workers : HashMap h.JoinHandle) (results : HashMap StreamStats) (w : h.World)
      → get id workers ≡ none
      → get id (collect_from h workers results w).0 ≡ get id results
  unfolding collect_from get
  get-collect_from id [] results w e = refl
  get-collect_from id ((j, handler) ∷ workers) results w e = elim (Bool-cases (j == id)) [
    | inl t ↦ cc (rw t at e)
    | inr t ↦
        get-collect_from id workers _ _ (rw t at e)
        ∙ get-keep_result id j (h.join_timeout handler w).0 results (==→ne j id t)
  ]

  pub get-collect_from_ended :
      (id : ℕ) (handler : h.JoinHandle) (stats : StreamStats) (workers : HashMap h.JoinHandle)
      (results : HashMap StreamStats) (w : h.World)
      → HasDistinctKeys workers
      → get id workers ≡ some handler
      → ((v : h.World) → (h.join_timeout handler v).0 ≡ in_time (completed (ok stats)))
      → get id (collect_from h workers results w).0 ≡ some stats
  unfolding collect_from get
  get-collect_from_ended id handler stats [] results w d e ended = cc
  get-collect_from_ended id handler stats ((j, k) ∷ workers) results w d e ended =
      elim (Bool-cases (j == id)) [
        | inl t ↦
            let same : k ≡ handler = cc (rw t at e) in
            get-collect_from id workers _ _ (subst (λ x. get x workers ≡ none) (==→eq j id t) d.0)
            ∙ get-keep_result_same id j stats (h.join_timeout k w).0 results (==→eq j id t)
                (ap (λ x. (h.join_timeout x w).0) same ∙ ended w)
        | inr t ↦ get-collect_from_ended id handler stats workers _ _ d.1 (rw t at e) ended
      ]

  -- Collecting the results succeeds; for a stream that is not among the workers it gives the
  -- result that the controller has; the controller keeps what is collected, has no worker left,
  -- and its test is unchanged.
  pub collect_keeps :
      (c : Controller n h) (id : ℕ)
      → get id c.workers ≡ none
      → (results : HashMap StreamStats) × (c' : Controller n h) × (collect_stream_results c
          ≡ (ok results, c'))
        × (get id results ≡ get id c.stream_results)
        × (c'.stream_results ≡ results)
        × (c'.workers ≡ [])
        × (c'.perf ≡ c.perf)
  unfolding collect_stream_results
  collect_keeps c id e =
      (_, _, refl, get-collect_from id c.workers c.stream_results c.world e, refl, refl, refl)

  -- If worker `id` is among the workers, of which no key is there twice, and its task, whenever it
  -- is awaited, ends in time with a result, then collecting the results succeeds, and under `id`
  -- it gives this result.
  pub collect_takes :
      (c : Controller n h) (id : ℕ) (handler : h.JoinHandle) (stats : StreamStats)
      → HasDistinctKeys c.workers
      → get id c.workers ≡ some handler
      → ((w : h.World) → (h.join_timeout handler w).0 ≡ in_time (completed (ok stats)))
      → (results : HashMap StreamStats) × (c' : Controller n h) × (collect_stream_results c
          ≡ (ok results, c'))
        × (get id results ≡ some stats)
  unfolding collect_stream_results
  collect_takes c id handler stats d e ended = (
    _,
    _,
    refl,
    get-collect_from_ended id handler stats c.workers c.stream_results c.world d e ended,
  )
