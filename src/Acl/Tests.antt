-- ===== src/Acl/Tests.antt =====
-- One run of `Manager.Synchronize` on three entries: one to keep, one to delete, one of another topic.
use kafkarator.Base.{◌≡◌, refl, ◌≢◌, Bool, true, false, String, ◌<>◌, List, [], ◌∷◌, string_eq}
use kafkarator.Go.{Result, ok, Sys}
use kafkarator.Go.Worlds.{EndsIn}
use kafkarator.External.{TopicAcl}
use kafkarator.Metrics.{observe_aiven_latency}
use kafkarator.Acl.Model.{
  Acl, contains_acl, same_entry, from_topic_acl, topic_acls, new_acls, delete_acls,
}
use kafkarator.Acl.Manager.{
  AclManager, add_one, add, delete_one, delete, get_existing_acls, get_wanted_acls, synchronize,
}
use kafkarator.Acl.Ids.{NodupIds}
use kafkarator.Acl.Example.{Entries, entries_api, entries_api-IsAclStore}
use kafkarator.Acl.Converge.{synchronize-converges}
use kafkarator.Acl.Safety.{synchronize-keeps_wanted, synchronize-keeps_others}
use kafkarator.Acl.DryRun.{synchronize_dry}

abbrev user_name : TopicAcl → String → Result String
user_name a suffix = ok (a.team <> "_" <> a.application <> "_" <> suffix)

abbrev manager : Bool → AclManager Entries
manager dry_run = record {
  aiven_acls = entries_api;
  project = "nav-dev";
  service = "kafka";
  source = record {
    topic_name = "team.events";
    pool = "nav-dev";
    acls =
        record { access = "read"; application = "reader"; team = "team" }
        ∷ record { access = "write"; application = "writer"; team = "team" }
        ∷ [];
  };
  dry_run = dry_run;
}

abbrev reader : Acl
reader = record { id = "1"; permission = "read"; topic = "team.events"; username = "team_reader_*" }

abbrev stranger : Acl
stranger = record { id = "2"; permission = "read"; topic = "team.events"; username = "old_app_*" }

abbrev elsewhere : Acl
elsewhere = record { id = "3"; permission = "read"; topic = "team.other"; username = "old_app_*" }

abbrev wanted : List Acl
wanted =
    record reader { id = "" }
    ∷ record { id = ""; permission = "write"; topic = "team.events"; username = "team_writer_*" }
    ∷ []

distinct_before : NodupIds (reader ∷ stranger ∷ elsewhere ∷ [])
unfolding string_eq
distinct_before = (refl, (refl, (refl, tt)))

abbrev before : Sys Entries
before = record {
  world = (reader ∷ stranger ∷ elsewhere ∷ [], distinct_before);
  observed = [];
  processed = [];
}

abbrev view : Entries → List Acl
view w = w.0

synchronize-converges_example :
    contains_acl (view (synchronize user_name (manager false) before).1.world) stranger ≡ false
unfolding synchronize get_existing_acls get_wanted_acls from_topic_acl topic_acls new_acls
    delete_acls contains_acl same_entry add add_one delete delete_one observe_aiven_latency
    string_eq
synchronize-converges_example =
    synchronize-converges user_name (manager false) view (entries_api-IsAclStore "nav-dev" "kafka")
      refl wanted before refl refl stranger

synchronize-keeps_wanted_example :
    contains_acl (view (synchronize user_name (manager false) before).1.world) reader ≡ true
unfolding get_wanted_acls from_topic_acl contains_acl same_entry string_eq
synchronize-keeps_wanted_example =
    synchronize-keeps_wanted user_name (manager false) view
      (entries_api-IsAclStore "nav-dev" "kafka") refl before reader refl refl

different : elsewhere.topic ≢ "team.events"
different h = cc

synchronize-keeps_others_example :
    contains_acl (view (synchronize user_name (manager false) before).1.world) elsewhere ≡ true
unfolding get_wanted_acls from_topic_acl contains_acl same_entry string_eq
synchronize-keeps_others_example =
    synchronize-keeps_others user_name (manager false) view
      (entries_api-IsAclStore "nav-dev" "kafka") refl before elsewhere different

synchronize_dry_example : EndsIn before.world (synchronize user_name (manager true) before)
synchronize_dry_example = synchronize_dry (manager true) refl user_name before
