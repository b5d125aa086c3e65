-- ===== src/Topic/Changed.antt =====
-- `topicConfigChanged`: the comparison of the topic in Aiven with the configuration. It reads through
-- pointers of the answer, and panics where one that it needs is nil.
use kafkarator.Base.{ℤ, Bool, true, false, not, Option, none, some, ◌==◌, length}
use kafkarator.Base.Int.{pos, int_eq}
use kafkarator.Go.{Result, ok, err, panic}
use kafkarator.External.{Numeric, Config, KafkaTopic}
use kafkarator.Topic.Fields.{
  retention_ms, segment_ms, percent_to_ratio, retention_hour_default, delete_retention_hour_default,
  local_retention_hour_default,
}

-- `if test { return true }`, then the rest.
abbrev pub or_else : Result Bool → Result Bool → Result Bool
or_else (ok true) rest = ok true
or_else (ok false) rest = rest
or_else (err e) rest = err e
or_else panic rest = panic

-- `p != nil && test`, where the test may read `*p`.
abbrev pub when_set : Option ℤ → (ℤ → Result Bool) → Result Bool
when_set none test = ok false
when_set (some v) test = test v

-- `q.Value != *p`: a panic if either pointer is nil.
abbrev pub value_differs : Option ℤ → Option ℤ → Result Bool
value_differs (some v) (some w) = ok (not (v == w))
value_differs _ _ = panic

-- `intPToValueChanged`
unfoldable pub int_p_to_value_changed : Option ℤ → Option ℤ → Result Bool
int_p_to_value_changed cfg tcfg = when_set cfg (λ c. value_differs tcfg (some c))

module _ (N : Numeric) where
  -- `err != nil || q.Value != *ratio`
  abbrev pub ratio_differs : Option N.Float64 → Result (Option N.Float64) → Result Bool
  ratio_differs q (err _) = ok true
  ratio_differs (some v) (ok (some ratio)) = ok (not (N.float_eq v ratio))
  ratio_differs q panic = panic
  ratio_differs none (ok _) = panic
  ratio_differs (some v) (ok none) = panic

  unfoldable pub ratio_changed : Option N.IntOrString → Option N.Float64 → Result Bool
  ratio_changed none q = ok false
  ratio_changed (some percent) q = ratio_differs q (percent_to_ratio N (some percent))

module _ {N : Numeric} where
  -- `topicConfigChanged` on a configuration that is not nil.
  unfoldable pub config_differs : KafkaTopic N → Config N → Result Bool
  unfolding int_p_to_value_changed ratio_changed
  config_differs topic config =
      let existing = topic.config in
      or_else (when_set config.replication (λ n. ok (not (topic.replication == n)))) (
        or_else (when_set config.partitions (λ n. ok (not (pos (length topic.partitions) == n)))) (
          or_else
            (when_set config.retention_hours λ _.
              value_differs existing.retention_ms
                (retention_ms config.retention_hours retention_hour_default))
            (or_else (int_p_to_value_changed config.retention_bytes existing.retention_bytes) (
              or_else
                (when_set config.delete_retention_hours λ _.
                  value_differs existing.delete_retention_ms
                    (retention_ms config.delete_retention_hours delete_retention_hour_default))
                (or_else
                  (when_set config.local_retention_hours λ _.
                    value_differs existing.local_retention_ms
                      (retention_ms config.local_retention_hours local_retention_hour_default))
                  (or_else
                    (int_p_to_value_changed config.local_retention_bytes
                      existing.local_retention_bytes)
                    (or_else
                      (int_p_to_value_changed config.minimum_in_sync_replicas
                        existing.min_insync_replicas)
                      (or_else
                        (when_set config.segment_hours
                          λ _. value_differs existing.segment_ms (segment_ms config))
                        (or_else
                          (int_p_to_value_changed config.max_message_bytes
                            existing.max_message_bytes)
                          (or_else
                            (int_p_to_value_changed config.min_compaction_lag_ms
                              existing.min_compaction_lag_ms)
                            (or_else
                              (int_p_to_value_changed config.max_compaction_lag_ms
                                existing.max_compaction_lag_ms)
                              (ratio_changed N config.min_cleanable_dirty_ratio_percent
                                existing.min_cleanable_dirty_ratio))))))))))))

  unfoldable pub topic_config_changed : KafkaTopic N → Option (Config N) → Result Bool
  unfolding config_differs
  topic_config_changed topic none = ok false
  topic_config_changed topic (some config) = config_differs topic config
