-- ===== src/Topic/Total.antt =====
-- Where `topicConfigChanged` does not panic.
use kafkarator.Base.{
  ℤ, ◌≡◌, refl, ◌≢◌, Bool, true, false, not, Option, none, some, is_some, length, ◌==◌, arith,
}
use kafkarator.Base.Int.{pos, int_eq}
use kafkarator.Go.{Result, ok, err, panic}
use kafkarator.External.{Numeric, Config, KafkaTopic}
use kafkarator.Topic.Fields.{
  retention_ms, segment_ms, percent_to_ratio, checked_ratio, retention_hour_default,
  delete_retention_hour_default, local_retention_hour_default,
}
use kafkarator.Topic.Changed.{
  or_else, when_set, value_differs, int_p_to_value_changed, ratio_changed, topic_config_changed,
}

or_else-returns : (a b : Result Bool) → a ≢ panic → b ≢ panic → or_else a b ≢ panic
or_else-returns (ok true) b h k e = cc
or_else-returns (ok false) b h k e = k e
or_else-returns (err _) b h k e = cc
or_else-returns panic b h k e = h e

number-returns : (c : Option ℤ) (n : ℤ) → when_set c (λ v. ok (not (n == v))) ≢ panic
number-returns none n p = cc
number-returns (some v) n p = cc

int-returns : (c e : Option ℤ) → is_some e ≡ true → int_p_to_value_changed c e ≢ panic
unfolding int_p_to_value_changed
int-returns none e h p = cc
int-returns (some c) none h p = cc
int-returns (some c) (some e) h p = cc

hours-returns :
    (c e : Option ℤ) (dflt : ℤ)
    → is_some e ≡ true
    → when_set c (λ _. value_differs e (retention_ms c dflt)) ≢ panic
unfolding retention_ms
hours-returns none e dflt h p = cc
hours-returns (some c) none dflt h p = cc
hours-returns (some c) (some e) dflt h p = cc

segment-returns :
    {N : Numeric} (cfg : Config N) (c e : Option ℤ)
    → cfg.segment_hours ≡ c
    → is_some e ≡ true
    → when_set c (λ _. value_differs e (segment_ms cfg)) ≢ panic
unfolding segment_ms
segment-returns cfg none e q h p = cc
segment-returns cfg (some c) none q h p = cc
segment-returns cfg (some c) (some e) q h p = ground arith

module _ (N : Numeric)
    (scales : (p : N.IntOrString) → N.scaled_value p (pos 100) false ≢ panic) where
  ratio-returns :
      (c : Option N.IntOrString) (e : Option N.Float64)
      → is_some e ≡ true
      → ratio_changed N c e ≢ panic
  unfolding ratio_changed percent_to_ratio checked_ratio
  ratio-returns none e h p = cc
  ratio-returns (some c) none h p = cc
  ratio-returns (some c) (some e) h p = ground (arith, scales c)

  module _ (topic : KafkaTopic N) where
    -- The answer has every field that is read.
    pub record IsComplete : Type 0 where
      pub retention_ms : is_some topic.config.retention_ms ≡ true
      pub retention_bytes : is_some topic.config.retention_bytes ≡ true
      pub delete_retention_ms : is_some topic.config.delete_retention_ms ≡ true
      pub local_retention_ms : is_some topic.config.local_retention_ms ≡ true
      pub local_retention_bytes : is_some topic.config.local_retention_bytes ≡ true
      pub min_insync_replicas : is_some topic.config.min_insync_replicas ≡ true
      pub segment_ms : is_some topic.config.segment_ms ≡ true
      pub max_message_bytes : is_some topic.config.max_message_bytes ≡ true
      pub min_compaction_lag_ms : is_some topic.config.min_compaction_lag_ms ≡ true
      pub max_compaction_lag_ms : is_some topic.config.max_compaction_lag_ms ≡ true
      pub min_cleanable_dirty_ratio : is_some topic.config.min_cleanable_dirty_ratio ≡ true

    set-returns :
        (full : IsComplete) (config : Config N) → topic_config_changed topic (some config) ≢ panic
    unfolding topic_config_changed
    set-returns full config =
        or_else-returns _ _ (number-returns config.replication topic.replication) (
          or_else-returns _ _ (number-returns config.partitions (pos (length topic.partitions))) (
            or_else-returns _ _
              (hours-returns config.retention_hours topic.config.retention_ms retention_hour_default
                full.retention_ms)
              (or_else-returns _ _
                (int-returns config.retention_bytes topic.config.retention_bytes
                  full.retention_bytes)
                (or_else-returns _ _
                  (hours-returns config.delete_retention_hours topic.config.delete_retention_ms
                    delete_retention_hour_default full.delete_retention_ms)
                  (or_else-returns _ _
                    (hours-returns config.local_retention_hours topic.config.local_retention_ms
                      local_retention_hour_default full.local_retention_ms)
                    (or_else-returns _ _
                      (int-returns config.local_retention_bytes topic.config.local_retention_bytes
                        full.local_retention_bytes)
                      (or_else-returns _ _
                        (int-returns config.minimum_in_sync_replicas
                          topic.config.min_insync_replicas full.min_insync_replicas)
                        (or_else-returns _ _
                          (segment-returns config config.segment_hours topic.config.segment_ms refl
                            full.segment_ms)
                          (or_else-returns _ _
                            (int-returns config.max_message_bytes topic.config.max_message_bytes
                              full.max_message_bytes)
                            (or_else-returns _ _
                              (int-returns config.min_compaction_lag_ms
                                topic.config.min_compaction_lag_ms full.min_compaction_lag_ms)
                              (or_else-returns _ _
                                (int-returns config.max_compaction_lag_ms
                                  topic.config.max_compaction_lag_ms full.max_compaction_lag_ms)
                                (ratio-returns config.min_cleanable_dirty_ratio_percent
                                  topic.config.min_cleanable_dirty_ratio
                                  full.min_cleanable_dirty_ratio))))))))))))

    -- `topicConfigChanged` does not panic if Aiven's answer has every field that it may read, whatever
    -- the configuration.
    pub topic_config_changed-returns :
        IsComplete → (config : Option (Config N)) → topic_config_changed topic config ≢ panic
    unfolding topic_config_changed
    topic_config_changed-returns full none e = cc
    topic_config_changed-returns full (some config) e = set-returns full config e
