-- ===== src/Topic/Settles.antt =====
-- What an update achieves, if Aiven sets the fields of the request and keeps the others.
use kafkarator.Base.{ℤ, ◌≡◌, ◌≢◌, false, String, Option, none, some, arith}
use kafkarator.Go.{ok}
use kafkarator.External.{Numeric, Config, KafkaTopic, UpdateKafkaTopicRequest}
use kafkarator.Topic.Fields.{
  retention_ms, segment_ms, percent_to_ratio, delete_retention_hour_default,
}
use kafkarator.Topic.Changed.{topic_config_changed}
use kafkarator.Topic.Manager.{checked, update_request}
use kafkarator.Topic.Agrees.{Agrees, Holds, config_differs-Agrees}
use kafkarator.Topic.Applied.{
  IsApplied, IsOrdered, int-Holds, hours-Holds, stale, mapped-Holds, ratio-HoldsRatio,
}

-- The request of an update, with a retention of deleted data.
abbrev pub request_with :
    {N : Numeric} → Config N → Option N.Float64 → String → Option ℤ → UpdateKafkaTopicRequest N
request_with config ratio now deletions =
    let req = update_request config ratio now in
    record req { config = record req.config { delete_retention_ms = deletions } }

module _ {N : Numeric} (config : Config N) (ratio : Option N.Float64) (now : String)
    (deletions : Option ℤ) (old new : KafkaTopic N)
    (done : IsApplied (request_with config ratio now deletions) old new) where
  checked-percent :
      checked config ≡ ok ratio
      → percent_to_ratio N config.min_cleanable_dirty_ratio_percent ≡ ok ratio
  unfolding checked
  checked-percent h = ground arith

  -- If the retention of deleted data agrees, every other field does.
  pub applied-Agrees :
      IsOrdered N
      → checked config ≡ ok ratio
      → Holds config.delete_retention_hours
          (retention_ms config.delete_retention_hours delete_retention_hour_default)
          new.config.delete_retention_ms
      → Agrees new config
  unfolding update_request segment_ms
  applied-Agrees o valid deletions = (
    done.replication,
    (
      done.partitions,
      (
        hours-Holds config.retention_hours _ _ _ done.retention_ms,
        (
          int-Holds config.retention_bytes _ _ done.retention_bytes,
          (
            deletions,
            (
              hours-Holds config.local_retention_hours _ _ _ done.local_retention_ms,
              (
                int-Holds config.local_retention_bytes _ _ done.local_retention_bytes,
                (
                  int-Holds config.minimum_in_sync_replicas _ _ done.min_insync_replicas,
                  (
                    mapped-Holds config.segment_hours _ _ _ done.segment_ms,
                    (
                      int-Holds config.max_message_bytes _ _ done.max_message_bytes,
                      (
                        int-Holds config.min_compaction_lag_ms _ _ done.min_compaction_lag_ms,
                        (
                          int-Holds config.max_compaction_lag_ms _ _ done.max_compaction_lag_ms,
                          ratio-HoldsRatio N o config.min_cleanable_dirty_ratio_percent ratio _ _
                              (checked-percent valid) done.min_cleanable_dirty_ratio,
                        ),
                      ),
                    ),
                  ),
                ),
              ),
            ),
          ),
        ),
      ),
    ),
  )

module _ {N : Numeric} (config : Config N) (ratio : Option N.Float64) (now : String)
    (old new : KafkaTopic N) (done : IsApplied (update_request config ratio now) old new) where
  -- After an update that Aiven applies, of a configuration that passes the checks and sets no
  -- `DeleteRetentionHours`, `topicConfigChanged` is false for the same configuration. The ratio that
  -- was sent must equal itself as a float.
  pub update-settles :
      IsOrdered N
      → checked config ≡ ok ratio
      → config.delete_retention_hours ≡ none
      → topic_config_changed new (some config) ≡ ok false
  unfolding update_request
  update-settles o valid unset =
      (config_differs-Agrees new config).1
        (applied-Agrees config ratio now none old new done o valid (rw unset tt))

  -- An update never brings `DeleteRetentionHours` to Aiven: if it is set and the topic has another
  -- value, then the topic is found changed again after every update that Aiven applies.
  pub update-never_settles :
      (h : ℤ)
      → config.delete_retention_hours ≡ some h
      → old.config.delete_retention_ms ≢ retention_ms (some h) delete_retention_hour_default
      → topic_config_changed new (some config) ≢ ok false
  unfolding update_request
  update-never_settles h set differs unchanged =
      let agrees = (config_differs-Agrees new config).0 unchanged in
      let kept : new.config.delete_retention_ms ≡ old.config.delete_retention_ms =
        done.delete_retention_ms in
      stale config.delete_retention_hours h _ _ set differs kept agrees.1.1.1.1.0
