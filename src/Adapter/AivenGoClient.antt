-- ===== src/Adapter/AivenGoClient.antt =====
-- pkg/aiven/adapter/aivengoclient/adapter.go
use kafkarator.Base.{String, List, map}
use kafkarator.Go.{Result, ok, err, panic}
use kafkarator.External.{KafkaAcl}
use kafkarator.Acl.{Acl, CreateKafkaAclRequest, from_kafka_acl, AclApi}

-- The client library's `CreateKafkaACLRequest`, and its `KafkaACLHandler`.
pub record KafkaAclRequest : Type 0 where
  pub permission : String
  pub topic : String
  pub username : String

pub record KafkaAclHandler (W : Type 0) : Type 0 where
  pub list : String → String → W → Result (List KafkaAcl) × W
  pub create : String → String → KafkaAclRequest → W → Result KafkaAcl × W
  pub delete : String → String → String → W → Result (Unit {0}) × W

abbrev pub map_result : {W A B : Type 0} → (A → B) → Result A × W → Result B × W
map_result f (ok a, w) = (ok (f a), w)
map_result f (err e, w) = (err e, w)
map_result f (panic, w) = (panic, w)

module _ {W : Type 0} (c : KafkaAclHandler W) where
  -- `AclClient.List`
  unfoldable pub list : String → String → W → Result (List Acl) × W
  list project service w = map_result (map from_kafka_acl) (c.list project service w)

  -- `AclClient.Create`
  unfoldable pub create : String → String → CreateKafkaAclRequest → W → Result Acl × W
  create project service req w = map_result from_kafka_acl (
      c.create project service
        (record { permission = req.permission; topic = req.topic; username = req.username }) w)

  -- `AclClient.Delete`
  unfoldable pub delete : String → String → String → W → Result (Unit {0}) × W
  delete project service acl_id w = c.delete project service acl_id w

  unfoldable pub acl_client : AclApi W
  acl_client = record { list = list; create = create; delete = delete }
