-- ===== src/Acl/Manager.antt =====
-- pkg/aiven/acl/acl.go: the interface of the ACL API, and `Manager`.
use kafkarator.Base.{Bool, String, ◌<>◌, List, [], ◌∷◌, ◌==◌, string_eq, if◌then◌else◌}
use kafkarator.Go.{Result, ok, text, ◌>>?◌, Action, pure, fail, lift, call, ◌>>=◌, ◌>>◌}
use kafkarator.External.{TopicAcl}
use kafkarator.Metrics.{observe_aiven_latency}
use kafkarator.Acl.Model.{
  Acl, CreateKafkaAclRequest, Source, from_topic_acl, acl_string, new_acls, delete_acls, topic_acls,
}

-- `Interface`: the project and the service come first.
pub record AclApi (W : Type 0) : Type 0 where
  pub list : String → String → W → Result (List Acl) × W
  pub create : String → String → CreateKafkaAclRequest → W → Result Acl × W
  pub delete : String → String → String → W → Result (Unit {0}) × W

pub record AclManager (W : Type 0) : Type 0 where
  pub aiven_acls : AclApi W
  pub project : String
  pub service : String
  pub source : Source
  pub dry_run : Bool

-- The request `req` that `add` builds.
abbrev pub request_for : Acl → CreateKafkaAclRequest
request_for acl = record { permission = acl.permission; topic = acl.topic; username = acl.username }

module _ {W : Type 0} (r : AclManager W) where
  -- `getExistingAcls`
  unfoldable pub get_existing_acls : Action W (List Acl)
  get_existing_acls =
      observe_aiven_latency "ACL_List" r.project (call (r.aiven_acls.list r.project r.service))
      >>= λ kafka_acls. pure (topic_acls kafka_acls r.source.topic_name)

  -- The body of the loop in `add`.
  unfoldable pub add_one : Acl → Action W (Unit {0})
  add_one acl = observe_aiven_latency "ACL_Create" r.project (
      if r.dry_run
      then pure tt
      else (call (r.aiven_acls.create r.project r.service (request_for acl)) >>= λ _. pure tt))

  -- `add`
  unfoldable pub add : List Acl → Action W (Unit {0})
  add [] = pure tt
  add (acl ∷ to_add) = add_one acl >> add to_add

  -- The body of the loop in `delete`.
  unfoldable pub delete_one : Acl → Action W (Unit {0})
  delete_one acl =
      if acl.id == ""
      then fail (text ("attemping to delete acl without ID: " <> acl_string acl))
      else observe_aiven_latency "ACL_Delete" r.project
          (if r.dry_run then pure tt else call (r.aiven_acls.delete r.project r.service acl.id))

  -- `delete`
  unfoldable pub delete : List Acl → Action W (Unit {0})
  delete [] = pure tt
  delete (acl ∷ to_delete) = delete_one acl >> delete to_delete

-- `getWantedAcls`, over `TopicACL.ServiceUserNameWithSuffix`
unfoldable pub get_wanted_acls :
    (TopicAcl → String → Result String) → String → List TopicAcl → Result (List Acl)
get_wanted_acls user_name topic [] = ok []
get_wanted_acls user_name topic (spec ∷ specs) =
    from_topic_acl topic spec (λ a. user_name a "*") >>? λ acl.
    get_wanted_acls user_name topic specs >>? λ wanted. ok (acl ∷ wanted)

module _ {W : Type 0} (user_name : TopicAcl → String → Result String) (r : AclManager W) where
  -- `Manager.Synchronize`
  unfoldable pub synchronize : Action W (Unit {0})
  synchronize = get_existing_acls r >>= λ existing.
      lift (get_wanted_acls user_name r.source.topic_name r.source.acls) >>= λ wanted.
      add r (new_acls existing wanted) >> delete r (delete_acls existing wanted)
