-- ===== src/Acl/Model.antt =====
-- pkg/aiven/acl/model.go, and the pure functions of pkg/aiven/acl/acl.go.
use kafkarator.Base.{
  Bool, true, false, not, ◌&&◌, String, ◌<>◌, List, [], ◌∷◌, map, ◌==◌, string_eq, any, select,
}
use kafkarator.Go.{Result, ok, ◌>>?◌}
use kafkarator.External.{TopicAcl, Topic, Stream, KafkaAcl, Numeric, Liberator}

pub record Acl : Type 0 where
  pub id : String
  pub permission : String
  pub topic : String
  pub username : String

pub record CreateKafkaAclRequest : Type 0 where
  pub permission : String
  pub topic : String
  pub username : String

-- `FromTopicACL`
unfoldable pub from_topic_acl : String → TopicAcl → (TopicAcl → Result String) → Result Acl
from_topic_acl topic topic_acl namegen = namegen topic_acl >>? λ username.
    ok (record { id = ""; permission = topic_acl.access; topic = topic; username = username })

-- `FromKafkaACL`
unfoldable pub from_kafka_acl : KafkaAcl → Acl
from_kafka_acl a = record {
  id = a.id;
  permission = a.permission;
  topic = a.topic;
  username = a.username;
}

-- The test in the loop of `Acls.Contains`: the ID does not count.
unfoldable pub same_entry : Acl → Acl → Bool
same_entry mine other =
    mine.username == other.username
    && mine.topic == other.topic
    && mine.permission == other.permission

-- `Acls.Contains`
unfoldable pub contains_acl : List Acl → Acl → Bool
contains_acl acls other = any (λ mine. same_entry mine other) acls

-- `Acl.String`
unfoldable pub acl_string : Acl → String
acl_string a =
    "Acl{Username:'" <> a.username <> "', Permission:'" <> a.permission <> "', Topic:'" <> a.topic
    <> "', ID:'" <> a.id <> "'}"

-- `NewACLs`
unfoldable pub new_acls : List Acl → List Acl → List Acl
new_acls existing wanted = select (λ a. not (contains_acl existing a)) wanted

-- `DeleteACLs`
unfoldable pub delete_acls : List Acl → List Acl → List Acl
delete_acls existing wanted = select (λ a. not (contains_acl wanted a)) existing

-- `topicACLs`
unfoldable pub topic_acls : List Acl → String → List Acl
topic_acls acls topic = select (λ a. a.topic == topic) acls

-- The interface `Source`, by what its methods answer.
pub record Source : Type 0 where
  pub topic_name : String
  pub pool : String
  pub acls : List TopicAcl

module _ {N : Numeric} (L : Liberator N) where
  -- `TopicAdapter`
  unfoldable pub topic_adapter : Topic N → Source
  topic_adapter t = record { topic_name = L.full_name t; pool = t.spec.pool; acls = t.spec.acl }

  -- The entry for an additional user of a stream.
  unfoldable pub additional_user : Stream → String → TopicAcl
  additional_user s username = record {
    access = "admin";
    application = username;
    team = s.meta.namespace;
  }

  -- `StreamAdapter.ACLs`
  unfoldable pub stream_acls : Stream → Bool → List TopicAcl
  stream_acls s true = []
  stream_acls s false = L.stream_acl s ∷ map (additional_user s) s.spec.additional_users

  -- `StreamAdapter`, with its field `Delete`
  unfoldable pub stream_adapter : Stream → Bool → Source
  stream_adapter s delete = record {
    topic_name = L.topic_wildcard s;
    pool = s.spec.pool;
    acls = stream_acls s delete;
  }
