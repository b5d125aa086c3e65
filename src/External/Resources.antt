-- ===== src/External/Resources.antt =====
-- github.com/nais/liberator: the Kubernetes resources `Topic` and `Stream`, and their methods.
use kafkarator.Base.{ℤ, Bool, String, List, Option}
use kafkarator.Go.{Result}
use kafkarator.External.Kafka.{Numeric}

pub record TopicAcl : Type 0 where
  pub access : String
  pub application : String
  pub team : String

pub record ObjectMeta : Type 0 where
  pub name : String
  pub namespace : String
  pub deletion_timestamp : Option String
  pub finalizers : List String

pub record TopicStatus : Type 0 where
  pub synchronization_state : String
  pub synchronization_hash : String
  pub synchronization_time : String
  pub errors : List String
  pub message : String
  pub fully_qualified_name : String
  pub latest_aiven_sync_failure : String

pub record StreamStatus : Type 0 where
  pub synchronization_state : String
  pub synchronization_hash : String
  pub synchronization_time : String
  pub errors : List String
  pub message : String
  pub fully_qualified_topic_prefix : String

module _ (N : Numeric) where
  pub record Config : Type 0 where
    pub cleanup_policy : Option String
    pub delete_retention_hours : Option ℤ
    pub max_message_bytes : Option ℤ
    pub minimum_in_sync_replicas : Option ℤ
    pub partitions : Option ℤ
    pub replication : Option ℤ
    pub retention_bytes : Option ℤ
    pub retention_hours : Option ℤ
    pub local_retention_bytes : Option ℤ
    pub local_retention_hours : Option ℤ
    pub segment_hours : Option ℤ
    pub min_cleanable_dirty_ratio_percent : Option N.IntOrString
    pub min_compaction_lag_ms : Option ℤ
    pub max_compaction_lag_ms : Option ℤ

  pub record TopicSpec : Type 0 where
    pub pool : String
    pub config : Option Config
    pub acl : List TopicAcl

  pub record Topic : Type 0 where
    pub meta : ObjectMeta
    pub spec : TopicSpec
    pub status : Option TopicStatus

pub record StreamSpec : Type 0 where
  pub pool : String
  -- the `Username` of each additional user
  pub additional_users : List String

pub record Stream : Type 0 where
  pub meta : ObjectMeta
  pub spec : StreamSpec
  pub status : Option StreamStatus

-- The methods and constants of the resources.
pub record Liberator (N : Numeric) : Type 0 where
  -- `TopicACL.ServiceUserNameWithSuffix(suffix)`
  pub service_user_name_with_suffix : TopicAcl → String → Result String
  pub full_name : Topic N → String
  pub topic_hash : Topic N → Result String
  pub topic_needs_synchronization : Topic N → String → Bool
  pub remove_data_when_deleted : Topic N → Bool
  -- `Config.ApplyDefaults()`, which fills in the receiver
  pub apply_defaults : Config N → Config N
  pub topic_wildcard : Stream → String
  pub topic_prefix : Stream → String
  pub stream_acl : Stream → TopicAcl
  pub stream_hash : Stream → Result String
  pub stream_needs_synchronization : Stream → String → Bool
  pub event_failed_prepare : String
  pub event_failed_synchronization : String
  pub event_rollout_complete : String
