-- ===== src/External/Kafka.antt =====
-- github.com/aiven/aiven-go-client/v2: the records of its topic API. A pointer is an `Option`.
use kafkarator.Base.{ℕ, ℤ, Bool, String, List, Option}
use kafkarator.Go.{Result}

-- k8s.io/apimachinery's `IntOrString`, and the 64-bit floats with the operations that are used.
pub record Numeric : Type 1 where
  pub IntOrString : Type 0
  pub Float64 : Type 0
  -- `intstr.GetScaledValueFromIntOrPercent(v, total, round_up)`
  pub scaled_value : IntOrString → ℤ → Bool → Result ℤ
  pub of_int : ℤ → Float64
  pub divide : Float64 → Float64 → Float64
  pub float_eq : Float64 → Float64 → Bool

module _ (N : Numeric) where
  -- `aiven.KafkaTopicConfigResponse`: each `*KafkaTopicConfigResponseInt` by its value.
  pub record KafkaTopicConfigResponse : Type 0 where
    pub cleanup_policy : Option String
    pub delete_retention_ms : Option ℤ
    pub max_message_bytes : Option ℤ
    pub min_insync_replicas : Option ℤ
    pub retention_bytes : Option ℤ
    pub retention_ms : Option ℤ
    pub local_retention_bytes : Option ℤ
    pub local_retention_ms : Option ℤ
    pub segment_ms : Option ℤ
    pub min_cleanable_dirty_ratio : Option N.Float64
    pub min_compaction_lag_ms : Option ℤ
    pub max_compaction_lag_ms : Option ℤ

  -- `aiven.KafkaTopic`; of a partition only its number is kept.
  pub record KafkaTopic : Type 0 where
    pub partitions : List ℕ
    pub replication : ℤ
    pub config : KafkaTopicConfigResponse

  -- `aiven.KafkaTopicConfig`: an absent value is not sent.
  pub record KafkaTopicConfig : Type 0 where
    pub cleanup_policy : String
    pub delete_retention_ms : Option ℤ
    pub max_message_bytes : Option ℤ
    pub min_insync_replicas : Option ℤ
    pub retention_bytes : Option ℤ
    pub retention_ms : Option ℤ
    pub local_retention_bytes : Option ℤ
    pub local_retention_ms : Option ℤ
    pub remote_storage_enable : Option Bool
    pub segment_ms : Option ℤ
    pub min_cleanable_dirty_ratio : Option N.Float64
    pub min_compaction_lag_ms : Option ℤ
    pub max_compaction_lag_ms : Option ℤ

  pub record CreateKafkaTopicRequest : Type 0 where
    pub topic_name : String
    pub partitions : Option ℤ
    pub replication : Option ℤ
    pub config : KafkaTopicConfig
    pub tags : List (String × String)

  pub record UpdateKafkaTopicRequest : Type 0 where
    pub partitions : Option ℤ
    pub replication : Option ℤ
    pub config : KafkaTopicConfig
    pub tags : List (String × String)

-- `aiven.KafkaListTopic`
pub record KafkaListTopic : Type 0 where
  pub topic_name : String

-- `aiven.KafkaACL`
pub record KafkaAcl : Type 0 where
  pub id : String
  pub permission : String
  pub topic : String
  pub username : String
