-- ===== src/Acl/SuccessTests.antt =====
-- One run of `Manager.Synchronize` against a store whose calls succeed.
use kafkarator.Base.{◌≡◌, refl, true, false, String, ◌<>◌, [], ◌∷◌, string_eq}
use kafkarator.Go.{Result, ok, Sys}
use kafkarator.External.{TopicAcl}
use kafkarator.Acl.Model.{Acl, contains_acl, same_entry, from_topic_acl}
use kafkarator.Acl.Manager.{AclManager, get_wanted_acls, synchronize}
use kafkarator.Acl.Example.{Entries}
use kafkarator.Acl.Fresh.{fresh_api, fresh_api-IsAclStore, fresh_api-IsResponsive}
use kafkarator.Acl.Success.{synchronize-establishes}

abbrev user_name : TopicAcl → String → Result String
user_name a suffix = ok (a.team <> "_" <> a.application <> "_" <> suffix)

abbrev manager : AclManager Entries
manager = record {
  aiven_acls = fresh_api;
  project = "nav-dev";
  service = "kafka";
  source = record {
    topic_name = "team.events";
    pool = "nav-dev";
    acls = record { access = "write"; application = "writer"; team = "team" } ∷ [];
  };
  dry_run = false;
}

abbrev stranger : Acl
stranger = record { id = "2"; permission = "read"; topic = "team.events"; username = "old_app_*" }

abbrev writer : Acl
writer = record { id = ""; permission = "write"; topic = "team.events"; username = "team_writer_*" }

abbrev before : Sys Entries
before = record { world = (stranger ∷ [], (refl, tt)); observed = []; processed = [] }

synchronize-establishes_example :
    ((synchronize user_name manager before).0 ≡ ok tt)
    × (contains_acl ((synchronize user_name manager before).1.world.0) writer ≡ true)
unfolding get_wanted_acls from_topic_acl contains_acl same_entry string_eq
synchronize-establishes_example =
    synchronize-establishes manager (fresh_api-IsResponsive "nav-dev" "kafka") (λ w. w.0)
      (fresh_api-IsAclStore "nav-dev" "kafka") user_name before (writer ∷ []) refl (refl, tt) refl
      writer
