-- ===== src/Topic/Creation.antt =====
-- What a creation achieves, if Aiven sets the fields of the request and has defaults for the others.
use kafkarator.Base.{◌≡◌, String, Option, some, false}
use kafkarator.Go.{ok}
use kafkarator.External.{
  Numeric, Config, KafkaTopic, CreateKafkaTopicRequest, UpdateKafkaTopicRequest,
}
use kafkarator.Topic.Fields.{retention_ms, delete_retention_hour_default}
use kafkarator.Topic.Changed.{topic_config_changed}
use kafkarator.Topic.Manager.{checked, create_request, update_request}
use kafkarator.Topic.Agrees.{config_differs-Agrees}
use kafkarator.Topic.Applied.{IsApplied, IsOrdered, hours-Holds}
use kafkarator.Topic.Settles.{applied-Agrees}

-- The fields of a request for a creation, which stand in one for an update too.
abbrev pub fields_of : {N : Numeric} → CreateKafkaTopicRequest N → UpdateKafkaTopicRequest N
fields_of req = record {
  partitions = req.partitions;
  replication = req.replication;
  config = req.config;
  tags = req.tags;
}

-- The new topic has every field of the request, and otherwise those of `defaults`.
abbrev pub IsCreated :
    {N : Numeric} → CreateKafkaTopicRequest N → KafkaTopic N → KafkaTopic N → Type 0
IsCreated req defaults new = IsApplied (fields_of req) defaults new

-- What is created is found unchanged: after a creation that Aiven applies, of a configuration that
-- passes the checks, whatever Aiven's defaults are, `topicConfigChanged` is false for the same
-- configuration, the retention of deleted data included. The ratio that was sent must equal itself as
-- a float.
pub create-settles :
    {N : Numeric} (config : Config N) (ratio : Option N.Float64) (name now : String)
    (defaults new : KafkaTopic N)
    → IsCreated (create_request name config ratio now) defaults new
    → IsOrdered N
    → checked config ≡ ok ratio
    → topic_config_changed new (some config) ≡ ok false
unfolding create_request update_request
create-settles config ratio name now defaults new done o valid =
    let deletions = retention_ms config.delete_retention_hours delete_retention_hour_default in
    (config_differs-Agrees new config).1 (
      applied-Agrees config ratio now deletions defaults new done o valid (
        hours-Holds config.delete_retention_hours delete_retention_hour_default
          defaults.config.delete_retention_ms new.config.delete_retention_ms
          done.delete_retention_ms))
