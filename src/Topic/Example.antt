-- ===== src/Topic/Example.antt =====
-- Concrete numbers, resources and a topic in Aiven.
use kafkarator.Base.{ℤ, String, ◌<>◌, [], ◌∷◌, Option, none, some, ◌==◌, true}
use kafkarator.Base.Int.{pos, int_eq}
use kafkarator.Go.{ok}
use kafkarator.External.{Numeric, Liberator, Config, Topic, KafkaTopic}

-- A ratio by its number of hundredths.
abbrev pub numbers : Numeric
numbers = record {
  IntOrString = ℤ;
  Float64 = ℤ;
  scaled_value = λ v total round_up. ok v;
  of_int = λ v. v;
  divide = λ v w. v;
  float_eq = λ v w. v == w;
}

abbrev pub liberator : Liberator numbers
liberator = record {
  service_user_name_with_suffix = λ a suffix. ok (a.team <> "_" <> a.application <> "_" <> suffix);
  full_name = λ t. t.meta.namespace <> "." <> t.meta.name;
  topic_hash = λ t. ok "hash";
  topic_needs_synchronization = λ t hash. true;
  remove_data_when_deleted = λ t. true;
  apply_defaults = λ c. c;
  topic_wildcard = λ s. s.meta.namespace <> "." <> s.meta.name <> "_stream_*";
  topic_prefix = λ s. s.meta.namespace <> "." <> s.meta.name <> "_stream_";
  stream_acl = λ s. record { access = "admin"; application = s.meta.name; team = s.meta.namespace };
  stream_hash = λ s. ok "hash";
  stream_needs_synchronization = λ s hash. true;
  event_failed_prepare = "FailedPrepare";
  event_failed_synchronization = "FailedSynchronization";
  event_rollout_complete = "RolloutComplete";
}

abbrev pub topic_named : String → Option (Config numbers) → Topic numbers
topic_named name config = record {
  meta = record { name = name; namespace = "team"; deletion_timestamp = none; finalizers = [] };
  spec = record { pool = "nav-dev"; config = config; acl = [] };
  status = none;
}

abbrev pub in_aiven : KafkaTopic numbers
in_aiven = record {
  partitions = 0 ∷ [];
  replication = pos 1;
  config = record {
    cleanup_policy = some "delete";
    delete_retention_ms = some (pos 0);
    max_message_bytes = some (pos 1048588);
    min_insync_replicas = some (pos 1);
    retention_bytes = none;
    retention_ms = some (pos 604800000);
    local_retention_bytes = none;
    local_retention_ms = none;
    segment_ms = some (pos 604800000);
    min_cleanable_dirty_ratio = none;
    min_compaction_lag_ms = none;
    max_compaction_lag_ms = none;
  };
}
