-- ===== src/Collectors/Gauges.antt =====
-- The gauges of pkg/metrics/metrics.go that the collectors set, and code that sets them.
use mathlib.Core.Logic.{dite}
use kafkarator.Base.{ℕ, ap, String, Option, Eq, string_eq}
use kafkarator.Go.{ok, Action}

triple-discrete : {A : Type 0} → Discrete A → Discrete (A × A × A)
triple-discrete d (a, b, c) (x, y, z) =
    dite (d a x)
      (λ p.
        dite (d b y)
          (λ q. dite (d c z) (λ r. yes (λ i. (p i, q i, r i))) (λ n. no (λ h. n (ap (λ t. t.2) h))))
          (λ n. no (λ h. n (ap (λ t. t.1) h))))
      (λ n. no (λ h. n (ap (λ t. t.0) h)))

-- Keys of three texts.
instance unfoldable pub triple_eq : Eq (String × String × String)
unfolding triple-discrete
triple_eq = record { dec = triple-discrete string_eq.dec }

-- The labels of `Topics`: source, team and pool.
abbrev pub TopicKey : Type 0
TopicKey = String × String × String

-- The labels of `Acls`: topic, pool and source.
abbrev pub AclKey : Type 0
AclKey = String × String × String

-- The labels of `PoolInfo`: pool, version and plan.
abbrev pub PoolKey : Type 0
PoolKey = String × String × String

-- The gauges; one that has not been set has no value.
pub record Gauges : Type 0 where
  pub topics : TopicKey → Option ℕ
  pub acls : AclKey → Option ℕ
  pub pool_info : PoolKey → Option ℕ
  pub pool_nodes : String → Option ℕ

-- The state of a collector: the world outside, and the gauges.
pub record Scrape (W : Type 0) : Type 0 where
  pub outside : W
  pub gauges : Gauges

module _ {W : Type 0} where
  -- Code that does not set gauges.
  abbrev pub within : {A : Type 0} → Action W A → Action (Scrape W) A
  within m s =
      let (r, t) =
        m (record { world = s.world.outside; observed = s.observed; processed = s.processed }) in
      (
        r,
        record {
          world = record s.world { outside = t.world };
          observed = t.observed;
          processed = t.processed;
        },
      )

  abbrev pub set_gauges : (Gauges → Gauges) → Action (Scrape W) (Unit {0})
  set_gauges f s = (ok tt, record s { world = record s.world { gauges = f s.world.gauges } })
