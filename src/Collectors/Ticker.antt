-- ===== src/Collectors/Ticker.antt =====
-- pkg/metrics/collectors/run.go: `run`. The timer is left out: the runs of `report` are counted.
use kafkarator.Base.{ℕ, zero, suc}
use kafkarator.Go.{Action, pure, ◌>>◌, handle}

module _ {S : Type 0} where
  -- The closure `report`: an error of `Report` is only logged.
  unfoldable pub report_logged : Action S (Unit {0}) → Action S (Unit {0})
  report_logged report = handle report (λ _. pure tt) (λ _. pure tt)

  -- The first report, and one for each tick.
  unfoldable pub run_collector : Action S (Unit {0}) → ℕ → Action S (Unit {0})
  unfolding report_logged
  run_collector report zero = report_logged report
  run_collector report (suc ticks) = run_collector report ticks >> report_logged report
