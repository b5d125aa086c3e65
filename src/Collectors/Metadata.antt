-- ===== src/Collectors/Metadata.antt =====
-- pkg/metrics/collectors/metadata.go, and the closure `report` of run.go
use kafkarator.Base.{ℕ, String, ◌<>◌, List, [], ◌∷◌, Option, none, some, string_eq}
use kafkarator.Go.{
  Error, Result, assert_aiven, error_text, Action, pure, fail, call, ask, ◌>>=◌, ◌>>◌, handle,
}
use kafkarator.Metrics.{observe_aiven_latency}
use kafkarator.Collectors.Tally.{set_gauge}
use kafkarator.Collectors.Gauges.{triple_eq, Gauges, Scrape, within, set_gauges}

-- `aiven.Service`, as far as it is read: `UserConfig["kafka_version"]` if it is a string.
pub record Service : Type 0 where
  pub kafka_version : Option String
  pub plan : String
  pub node_count : ℕ

-- `Metadata`
pub record Metadata (W : Type 0) : Type 0 where
  pub projects : List String
  pub resolve_kafka_service_name : String → W → Result String × W
  -- the name that the resolver returns beside an error
  pub name_on_error : String
  -- `Services.Get`, by project and service
  pub get_service : String → String → W → Result Service × W
  -- `ctx.Err()`
  pub ctx_err : W → Option Error

-- `formatError`
unfoldable pub format_error : Error → String
format_error e = elim (assert_aiven e) [
  | some a ↦ a.message <> ": " <> a.more_info
  | none ↦ error_text e
]

-- The label of a service's version.
unfoldable pub version_of : Service → String
version_of svc = elim svc.kafka_version [ some version ↦ version | none ↦ "unknown" ]

-- `reportService`
unfoldable pub report_service : String → Service → Gauges → Gauges
unfolding version_of set_gauge
report_service project svc g = record g {
  pool_info = set_gauge (project, version_of svc, svc.plan) 1 g.pool_info;
  pool_nodes = set_gauge project svc.node_count g.pool_nodes;
}

module _ {W : Type 0} (m : Metadata W) where
  -- The name of a project's service; a failure to resolve it is logged only.
  unfoldable pub service_name : String → Action W String
  service_name project =
      handle (call (m.resolve_kafka_service_name project)) (λ name. pure name)
        (λ _. pure m.name_on_error)

  -- The end of the loop's body.
  unfoldable pub unless_cancelled : Action (Scrape W) (Unit {0})
  unless_cancelled =
      within (ask m.ctx_err) >>= λ cancelled. elim cancelled [ some e ↦ fail e | none ↦ pure tt ]

  -- The loop's body, for one project.
  unfoldable pub report_pool : String → Action (Scrape W) (Unit {0})
  unfolding service_name report_service unless_cancelled
  report_pool project = within (service_name project) >>= λ name.
      handle
        (within (observe_aiven_latency "Service_Get" project (call (m.get_service project name))))
        (λ svc. set_gauges (report_service project svc) >> unless_cancelled) (λ _. unless_cancelled)

  -- `Report`
  unfoldable pub report_pools : List String → Action (Scrape W) (Unit {0})
  unfolding report_pool
  report_pools [] = pure tt
  report_pools (p ∷ projects) = report_pool p >> report_pools projects
