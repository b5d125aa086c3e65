-- ===== src/Topic/Manager.antt =====
-- The interface of the topic API, and `Manager`.
use kafkarator.Base.{
  Bool, false, String, ◌<>◌, List, [], ◌∷◌, Option, none, some, ◌==◌, if◌then◌else◌,
}
use kafkarator.Base.Int.{pos, int_eq}
use kafkarator.Go.{
  Error, Result, ok, err, panic, text, wrap, error_text, assert_aiven, Action, pure, fail, lift,
  call, ask, ◌>>=◌, handle,
}
use kafkarator.External.{
  Numeric, Config, Topic, Liberator, KafkaTopic, KafkaListTopic, CreateKafkaTopicRequest,
  UpdateKafkaTopicRequest,
}
use kafkarator.Metrics.{observe_aiven_latency}
use kafkarator.Topic.Fields.{
  retention_ms, segment_ms, percent_to_ratio, retention_hour_default, delete_retention_hour_default,
  local_retention_hour_default, intp_bigger_than, intp_to_int64p, cleanup_policy,
  enable_remote_storage,
}
use kafkarator.Topic.Changed.{topic_config_changed}

-- `Interface`: the project and the service come first.
pub record TopicApi (N : Numeric) (W : Type 0) : Type 0 where
  pub get : String → String → String → W → Result (KafkaTopic N) × W
  pub list : String → String → W → Result (List KafkaListTopic) × W
  pub create : String → String → CreateKafkaTopicRequest N → W → Result (Unit {0}) × W
  pub update : String → String → String → UpdateKafkaTopicRequest N → W → Result (Unit {0}) × W
  pub delete : String → String → String → W → Result (Unit {0}) × W

pub record TopicManager (N : Numeric) (W : Type 0) : Type 0 where
  pub aiven_topics : TopicApi N W
  pub project : String
  pub service : String
  pub topic : Topic N
  -- `time.Now().Format(time.RFC3339)`, by the state of the world
  pub now : W → String
  pub dry_run : Bool

-- The 404 of `http.StatusNotFound`.
unfoldable pub is_not_found : Error → Bool
is_not_found e = elim (assert_aiven e) [ none ↦ false | some a ↦ a.status == pos 404 ]

abbrev pub tags : String → List (String × String)
tags now = ("created-by", "Kafkarator") ∷ ("touched-at", now) ∷ []

module _ {N : Numeric} where
  -- `&kafka_nais_io_v1.Config{}`
  abbrev pub empty_config : Config N
  empty_config = record {
    cleanup_policy = none;
    delete_retention_hours = none;
    max_message_bytes = none;
    minimum_in_sync_replicas = none;
    partitions = none;
    replication = none;
    retention_bytes = none;
    retention_hours = none;
    local_retention_bytes = none;
    local_retention_hours = none;
    segment_hours = none;
    min_cleanable_dirty_ratio_percent = none;
    min_compaction_lag_ms = none;
    max_compaction_lag_ms = none;
  }

  abbrev pub config_or_empty : Option (Config N) → Config N
  config_or_empty none = empty_config
  config_or_empty (some cfg) = cfg

  -- The checks that `create` and `update` begin with; they give the ratio. The texts leave the
  -- numbers out.
  unfoldable pub checked : Config N → Result (Option N.Float64)
  checked cfg =
      if intp_bigger_than cfg.minimum_in_sync_replicas cfg.replication
      then err (text "MinimumInSyncReplicas shouldn't be bigger than Replication")
      else elim (percent_to_ratio N cfg.min_cleanable_dirty_ratio_percent) [
        | ok ratio ↦ ok ratio
        | err e ↦ err (
            wrap
              ("failed to parse MinCleanableDirtyRatioPercent; must be a number 0-100 with optionally a percent sign: "
                <> error_text e)
              e)
        | panic ↦ panic
      ]

  -- The request that `create` builds.
  unfoldable pub create_request :
      String → Config N → Option N.Float64 → String → CreateKafkaTopicRequest N
  create_request name cfg ratio now = record {
    topic_name = name;
    partitions = cfg.partitions;
    replication = cfg.replication;
    config = record {
      cleanup_policy = cleanup_policy cfg;
      delete_retention_ms = retention_ms cfg.delete_retention_hours delete_retention_hour_default;
      max_message_bytes = intp_to_int64p cfg.max_message_bytes;
      min_insync_replicas = intp_to_int64p cfg.minimum_in_sync_replicas;
      retention_bytes = intp_to_int64p cfg.retention_bytes;
      retention_ms = retention_ms cfg.retention_hours retention_hour_default;
      local_retention_bytes = intp_to_int64p cfg.local_retention_bytes;
      local_retention_ms = retention_ms cfg.local_retention_hours local_retention_hour_default;
      remote_storage_enable = enable_remote_storage cfg;
      segment_ms = segment_ms cfg;
      min_cleanable_dirty_ratio = ratio;
      min_compaction_lag_ms = intp_to_int64p cfg.min_compaction_lag_ms;
      max_compaction_lag_ms = intp_to_int64p cfg.max_compaction_lag_ms;
    };
    tags = tags now;
  }

  -- The request that `update` builds: it has no `DeleteRetentionMs`.
  unfoldable pub update_request : Config N → Option N.Float64 → String → UpdateKafkaTopicRequest N
  update_request cfg ratio now = record {
    partitions = cfg.partitions;
    replication = cfg.replication;
    config = record {
      cleanup_policy = cleanup_policy cfg;
      delete_retention_ms = none;
      max_message_bytes = intp_to_int64p cfg.max_message_bytes;
      min_insync_replicas = intp_to_int64p cfg.minimum_in_sync_replicas;
      retention_bytes = intp_to_int64p cfg.retention_bytes;
      retention_ms = retention_ms cfg.retention_hours retention_hour_default;
      local_retention_bytes = intp_to_int64p cfg.local_retention_bytes;
      local_retention_ms = retention_ms cfg.local_retention_hours local_retention_hour_default;
      remote_storage_enable = enable_remote_storage cfg;
      segment_ms = segment_ms cfg;
      min_cleanable_dirty_ratio = ratio;
      min_compaction_lag_ms = intp_to_int64p cfg.min_compaction_lag_ms;
      max_compaction_lag_ms = intp_to_int64p cfg.max_compaction_lag_ms;
    };
    tags = tags now;
  }

module _ {N : Numeric} {W : Type 0} (r : TopicManager N W) where
  -- `List`
  unfoldable pub list : Action W (List KafkaListTopic)
  list =
      observe_aiven_latency "Topic_List" r.project (call (r.aiven_topics.list r.project r.service))

  module _ (L : Liberator N) where
    -- `create`
    unfoldable pub create : Action W (Unit {0})
    create =
        let cfg = config_or_empty r.topic.spec.config in
        lift (checked cfg) >>= λ ratio. ask r.now >>= λ now.
        observe_aiven_latency "Topic_Create" r.project (
          if r.dry_run
          then pure tt
          else call (
              r.aiven_topics.create r.project r.service
                (create_request (L.full_name r.topic) cfg ratio now)))

    -- `update`
    unfoldable pub update : Action W (Unit {0})
    update =
        let cfg = config_or_empty r.topic.spec.config in
        lift (checked cfg) >>= λ ratio. ask r.now >>= λ now.
        observe_aiven_latency "Topic_Update" r.project (
          if r.dry_run
          then pure tt
          else call (
              r.aiven_topics.update r.project r.service (L.full_name r.topic)
                (update_request cfg ratio now)))

    -- `Synchronize`
    unfoldable pub synchronize : Action W (Unit {0})
    synchronize =
        handle
          (observe_aiven_latency "Topic_Get" r.project
            (call (r.aiven_topics.get r.project r.service (L.full_name r.topic))))
          (λ topic. lift (topic_config_changed topic r.topic.spec.config) >>= λ changed.
            if changed then update else pure tt)
          (λ e. if is_not_found e then create else fail e)
