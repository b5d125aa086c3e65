-- ===== src/Topic/CreationTests.antt =====
-- A topic as it is created, with Aiven's defaults for what the configuration leaves open.
use kafkarator.Base.{◌≡◌, refl, false, [], ◌∷◌, Option, none, some, ==_refl}
use kafkarator.Base.Int.{pos, int_eq, wrap64, scale, quot}
use kafkarator.Go.{ok, err, aiven, assert_aiven, Sys}
use kafkarator.Go.Worlds.{EndsIn}
use kafkarator.Go.Duration.{hours, milliseconds}
use kafkarator.External.{Config, KafkaTopic}
use kafkarator.Topic.Fields.{
  intp_to_int64p, percent_to_ratio, checked_ratio, retention_ms, segment_ms, intp_bigger_than,
}
use kafkarator.Topic.Changed.{topic_config_changed}
use kafkarator.Topic.Manager.{
  TopicApi, TopicManager, empty_config, checked, create_request, is_not_found, synchronize,
}
use kafkarator.Topic.Applied.{IsOrdered}
use kafkarator.Topic.Twice.{synchronize-settles}
use kafkarator.Topic.Creation.{IsCreated, create-settles}
use kafkarator.Topic.Example.{numbers, liberator, topic_named, in_aiven}

abbrev wanted : Config numbers
wanted = record empty_config {
  delete_retention_hours = some (pos 5);
  retention_hours = some (pos 2);
  partitions = some (pos 2);
  replication = some (pos 3);
  min_cleanable_dirty_ratio_percent = some (pos 50);
}

abbrev created : KafkaTopic numbers
created = record in_aiven {
  partitions = 0 ∷ 1 ∷ [];
  replication = pos 3;
  config = record in_aiven.config {
    delete_retention_ms = some (pos 18000000);
    retention_ms = some (pos 7200000);
    min_cleanable_dirty_ratio = some (pos 50);
  };
}

done : IsCreated (create_request "team.events" wanted (some (pos 50)) "now") in_aiven created
unfolding create_request intp_to_int64p retention_ms milliseconds quot hours wrap64 scale segment_ms
done = record {
  replication = refl;
  partitions = refl;
  delete_retention_ms = refl;
  max_message_bytes = refl;
  min_insync_replicas = refl;
  retention_bytes = refl;
  retention_ms = refl;
  local_retention_bytes = refl;
  local_retention_ms = refl;
  segment_ms = refl;
  min_cleanable_dirty_ratio = refl;
  min_compaction_lag_ms = refl;
  max_compaction_lag_ms = refl;
}

ordered : IsOrdered numbers
ordered v = ==_refl v

passes : checked wanted ≡ ok (some (pos 50))
unfolding checked percent_to_ratio checked_ratio intp_bigger_than int_eq
passes = refl

create-settles_example : topic_config_changed created (some wanted) ≡ ok false
create-settles_example =
    create-settles wanted (some (pos 50)) "team.events" "now" in_aiven created done ordered passes

-- A service that has the topic or not, and applies what is requested.
abbrev api : TopicApi numbers (Option (KafkaTopic numbers))
api = record {
  get = λ project service name w. elim w [
    | none ↦ (
      err (aiven (record { message = "gone"; more_info = ""; status = pos 404; printed = "" })),
      none,
    )
    | some t ↦ (ok t, some t)
  ];
  list = λ project service w. (ok [], w);
  create = λ project service req w. (ok tt, some created);
  update = λ project service name req w. (ok tt, none);
  delete = λ project service name w. (ok tt, none);
}

abbrev manager : TopicManager numbers (Option (KafkaTopic numbers))
manager = record {
  aiven_topics = api;
  project = "nav-dev";
  service = "kafka";
  topic = topic_named "events" (some wanted);
  now = λ w. "now";
  dry_run = false;
}

abbrev start : Sys (Option (KafkaTopic numbers))
start = record { world = none; observed = []; processed = [] }

synchronize-settles_example :
    EndsIn (some created) (synchronize manager liberator (synchronize manager liberator start).1)
unfolding is_not_found assert_aiven int_eq
synchronize-settles_example =
    synchronize-settles manager liberator wanted (some (pos 50)) ordered refl refl passes start
      (aiven (record { message = "gone"; more_info = ""; status = pos 404; printed = "" })) none
      (some created) (some created) in_aiven created refl refl refl refl done
