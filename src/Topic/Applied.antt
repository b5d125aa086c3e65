-- ===== src/Topic/Applied.antt =====
-- A request that Aiven applies: it sets the fields of the request and keeps the others.
use kafkarator.Base.{
  ℤ, ◌≡◌, refl, ◌≢◌, Bool, true, false, Option, none, some, arith, length, map_option,
}
use kafkarator.Base.Int.{pos}
use kafkarator.Base.{if◌then◌else◌}
use kafkarator.Go.{Error, Result, ok, err, panic, ◌>>?◌}
use kafkarator.External.{Numeric, KafkaTopic, UpdateKafkaTopicRequest}
use kafkarator.Topic.Fields.{
  retention_ms, percent_to_ratio, checked_ratio, intp_to_int64p, delete_retention_hour_default,
}
use kafkarator.Topic.Agrees.{Holds, Is, HoldsRatio}

-- A field after an update: the value that was sent, or the one before.
abbrev pub merged : {A : Type 0} → Option A → Option A → Option A
merged (some v) old = some v
merged none old = old

module _ {N : Numeric} (req : UpdateKafkaTopicRequest N) (old new : KafkaTopic N) where
  pub record IsApplied : Type 0 where
    pub replication : Is req.replication new.replication
    pub partitions : Is req.partitions (pos (length new.partitions))
    pub delete_retention_ms :
        new.config.delete_retention_ms
        ≡ merged req.config.delete_retention_ms old.config.delete_retention_ms
    pub max_message_bytes :
        new.config.max_message_bytes
        ≡ merged req.config.max_message_bytes old.config.max_message_bytes
    pub min_insync_replicas :
        new.config.min_insync_replicas
        ≡ merged req.config.min_insync_replicas old.config.min_insync_replicas
    pub retention_bytes :
        new.config.retention_bytes ≡ merged req.config.retention_bytes old.config.retention_bytes
    pub retention_ms :
        new.config.retention_ms ≡ merged req.config.retention_ms old.config.retention_ms
    pub local_retention_bytes :
        new.config.local_retention_bytes
        ≡ merged req.config.local_retention_bytes old.config.local_retention_bytes
    pub local_retention_ms :
        new.config.local_retention_ms
        ≡ merged req.config.local_retention_ms old.config.local_retention_ms
    pub segment_ms : new.config.segment_ms ≡ merged req.config.segment_ms old.config.segment_ms
    pub min_cleanable_dirty_ratio :
        new.config.min_cleanable_dirty_ratio
        ≡ merged req.config.min_cleanable_dirty_ratio old.config.min_cleanable_dirty_ratio
    pub min_compaction_lag_ms :
        new.config.min_compaction_lag_ms
        ≡ merged req.config.min_compaction_lag_ms old.config.min_compaction_lag_ms
    pub max_compaction_lag_ms :
        new.config.max_compaction_lag_ms
        ≡ merged req.config.max_compaction_lag_ms old.config.max_compaction_lag_ms

pub int-Holds : (c old new : Option ℤ) → new ≡ merged (intp_to_int64p c) old → Holds c c new
unfolding intp_to_int64p
int-Holds none old new e = tt
int-Holds (some v) old new e = (v, refl, e)

pub hours-Holds :
    (c : Option ℤ) (dflt : ℤ) (old new : Option ℤ)
    → new ≡ merged (retention_ms c dflt) old
    → Holds c (retention_ms c dflt) new
unfolding retention_ms
hours-Holds none dflt old new e = tt
hours-Holds (some h) dflt old new e = (_, refl, e)

pub stale :
    (c : Option ℤ) (h : ℤ) (old new : Option ℤ)
    → c ≡ some h
    → old ≢ retention_ms (some h) delete_retention_hour_default
    → new ≡ old
    → Holds c (retention_ms c delete_retention_hour_default) new
    → ⊥
stale none h old new set differs kept holds = cc
stale (some k) h old new set differs kept (w, p, q) = differs (cc)

pub mapped-Holds :
    (c : Option ℤ) (f : ℤ → ℤ) (old new : Option ℤ)
    → new ≡ merged (map_option f c) old
    → Holds c (map_option f c) new
mapped-Holds none f old new e = tt
mapped-Holds (some h) f old new e = (f h, refl, e)

module _ (N : Numeric) where
  -- The quotient that `percentToRatio` computes, which is no NaN.
  abbrev pub IsOrdered : Type 0
  IsOrdered =
      (v : ℤ)
      → N.float_eq (N.divide (N.of_int v) (N.of_int (pos 100)))
          (N.divide (N.of_int v) (N.of_int (pos 100)))
        ≡ true

  Ordered : Result (Option N.Float64) → Type 0
  Ordered (ok (some r)) = N.float_eq r r ≡ true
  Ordered _ = Unit

  tested-Ordered :
      (b : Bool) (e : Error) (r : N.Float64)
      → N.float_eq r r ≡ true
      → Ordered ((if b then err e else ok r) >>? λ r. ok (some r))
  unfolding Ordered
  tested-Ordered true e r h = tt
  tested-Ordered false e r h = h

  scaled-Ordered :
      IsOrdered
      → (value : Result ℤ) → Ordered (value >>? λ v. checked_ratio N v >>? λ r. ok (some r))
  unfolding checked_ratio Ordered
  scaled-Ordered o (ok v) = tested-Ordered _ _ _ (o v)
  scaled-Ordered o (err _) = tt
  scaled-Ordered o panic = tt

  percent_to_ratio-Ordered : IsOrdered → (p : Option N.IntOrString) → Ordered (percent_to_ratio N p)
  unfolding percent_to_ratio Ordered
  percent_to_ratio-Ordered o none = tt
  percent_to_ratio-Ordered o (some p) = scaled-Ordered o _

  -- A percentage that parses gives a ratio.
  ratio-is_some :
      (value : Result ℤ) (ratio : Option N.Float64)
      → (value >>? λ v. checked_ratio N v >>? λ r. ok (some r)) ≡ ok ratio
      → (r : N.Float64) × (ratio ≡ some r)
  unfolding checked_ratio
  ratio-is_some (ok v) none h = absurd (ground arith)
  ratio-is_some (ok v) (some r) h = (r, refl)
  ratio-is_some (err _) ratio h = cc
  ratio-is_some panic ratio h = cc

  pub ratio-HoldsRatio :
      IsOrdered
      → (p : Option N.IntOrString) (ratio old new : Option N.Float64)
      → percent_to_ratio N p ≡ ok ratio
      → new ≡ merged ratio old
      → HoldsRatio N p new
  unfolding percent_to_ratio Ordered
  ratio-HoldsRatio o none ratio old new h e = tt
  ratio-HoldsRatio o (some p) none old new h e = let (r, f) = ratio-is_some _ none h in cc
  ratio-HoldsRatio o (some p) (some r) old new h e =
      (r, r, h, e, rw h at (percent_to_ratio-Ordered o (some p)))
