-- ===== src/Metrics/Laws.antt =====
-- What the latency wrapper keeps: the outcome and the world.
use kafkarator.Base.{String, ◌≡◌, arith}
use kafkarator.Go.{Action, Sys}
use kafkarator.Metrics.{observe_aiven_latency}

module _ {W A : Type 0} (operation pool : String) (fun : Action W A) (s : Sys W) where
  pub observe-outcome : (observe_aiven_latency operation pool fun s).0 ≡ (fun s).0
  unfolding observe_aiven_latency
  observe-outcome = ground arith

  pub observe-world : (observe_aiven_latency operation pool fun s).1.world ≡ (fun s).1.world
  unfolding observe_aiven_latency
  observe-world = ground arith
