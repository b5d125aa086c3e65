-- ===== src/Collectors/Robust.antt =====
-- The report of the pools' metadata goes on after the failure of single calls.
use kafkarator.Base.{
  ◌≡◌, refl, sym, ap, ◌∙◌, ◌≢◌, String, List, [], ◌∷◌, ◌++◌, map, Option, none, some,
}
use mathlib.Core.List.{append-nil, append_assoc, map-append}
use kafkarator.Go.{
  Error, Result, ok, err, panic, Sys, Action, pure, fail, call, ◌>>=◌, ◌>>◌, handle,
}
use kafkarator.Go.Success.{bind-ok}
use kafkarator.Metrics.{observe_aiven_latency}
use kafkarator.Collectors.Gauges.{Scrape, within, set_gauges}
use kafkarator.Collectors.Metadata.{
  Service, Metadata, service_name, unless_cancelled, report_service, report_pool, report_pools,
}

module _ {W : Type 0} (m : Metadata W) (project : String) where
  -- The end of the loop's body, on what the resolver has answered.
  abbrev get_named : String → Action (Scrape W) (Unit {0})
  get_named name =
      handle
        (within (observe_aiven_latency "Service_Get" project (call (m.get_service project name))))
        (λ svc. set_gauges (report_service project svc) >> unless_cancelled m)
        (λ _. unless_cancelled m)

-- The pools of the latencies that have been observed.
abbrev pub pools_observed : {W : Type 0} → Sys W → List String
pools_observed s = map (λ o. o.pool) s.observed

module _ {W : Type 0} (m : Metadata W) (calm : (w : W) → m.ctx_err w ≡ none)
    (resolving : (p : String) (w : W) → (m.resolve_kafka_service_name p w).0 ≢ panic)
    (getting : (p name : String) (w : W) → (m.get_service p name w).0 ≢ panic) where
  -- The code has succeeded, and has observed the latency of one call for the project.
  abbrev Visited : String → Sys (Scrape W) → Result (Unit {0}) × Sys (Scrape W) → Type 0
  Visited project s x = (x.0 ≡ ok tt) × (pools_observed x.1 ≡ pools_observed s ++ (project ∷ []))

  unless_cancelled-Visited :
      (project : String) (s t : Sys (Scrape W))
      → pools_observed t ≡ pools_observed s ++ (project ∷ [])
      → Visited project s (unless_cancelled m t)
  unfolding unless_cancelled
  unless_cancelled-Visited project s t h =
      let next : Option Error → Action (Scrape W) (Unit {0}) =
        λ c. elim c [ some e ↦ fail e | none ↦ pure tt ] in
      let same = ap (λ c. next c t) (calm t.world.outside) in
      (ap (λ x. x.0) same, ap (λ x. pools_observed x.1) same ∙ h)

  gotten-Visited :
      (project : String) (x : Result Service × W) (s : Sys (Scrape W))
      → x.0 ≢ panic
      → Visited project s (
          handle
            (within (observe_aiven_latency "Service_Get" project (call (λ _. x))))
            (λ svc. set_gauges (report_service project svc) >> unless_cancelled m)
            (λ _. unless_cancelled m)
            s)
  unfolding observe_aiven_latency
  gotten-Visited project (ok svc, w) s h =
      unless_cancelled-Visited project s _ (map-append (λ o. o.pool) s.observed _)
  gotten-Visited project (err e, w) s h =
      unless_cancelled-Visited project s _ (map-append (λ o. o.pool) s.observed _)
  gotten-Visited project (panic, w) s h = absurd (h refl)

  get_named-Visited :
      (project name : String) (s : Sys (Scrape W)) → Visited project s (get_named m project name s)
  unfolding observe_aiven_latency
  get_named-Visited project name s =
      gotten-Visited project (m.get_service project name s.world.outside) s
        (getting project name s.world.outside)

  resolved-Visited :
      (project : String) (y : Result String × W) (s : Sys (Scrape W))
      → y.0 ≢ panic
      → Visited project s (
          (within (handle (call (λ _. y)) (λ name. pure name) (λ _. pure m.name_on_error))
              >>= get_named m project)
            s)
  resolved-Visited project (ok name, w) s h = get_named-Visited project name _
  resolved-Visited project (err _, w) s h = get_named-Visited project m.name_on_error _
  resolved-Visited project (panic, w) s h = absurd (h refl)

  report_pool-Visited :
      (project : String) (s : Sys (Scrape W)) → Visited project s (report_pool m project s)
  unfolding report_pool service_name
  report_pool-Visited project s =
      resolved-Visited project (m.resolve_kafka_service_name project s.world.outside) s
        (resolving project s.world.outside)

  -- As long as the context has not ended, and no call panics, the report of the metadata succeeds, and
  -- it has observed the latency of one call for each project, in order and nothing else, also after
  -- calls of the resolver or of Aiven that fail.
  pub report_pools-visits :
      (projects : List String) (s : Sys (Scrape W))
      → ((report_pools m projects s).0 ≡ ok tt)
        × (pools_observed (report_pools m projects s).1 ≡ pools_observed s ++ projects)
  unfolding report_pools
  report_pools-visits [] s = (refl, sym (append-nil (pools_observed s)))
  report_pools-visits (p ∷ projects) s =
      let (done, seen) = report_pool-Visited p s in
      let t = (report_pool m p s).1 in
      let (h, k) = report_pools-visits projects t in
      let same = bind-ok (report_pool m p) (λ _. report_pools m projects) s tt done in
      (
        ap (λ x. x.0) same ∙ h,
        ap (λ x. pools_observed x.1) same
            ∙ k
            ∙ ap (λ l. l ++ projects) seen
            ∙ append_assoc (pools_observed s) (p ∷ []) projects,
      )
