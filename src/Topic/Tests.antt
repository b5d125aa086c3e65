-- ===== src/Topic/Tests.antt =====
-- A topic in Aiven, and configurations that differ from it.
use kafkarator.Base.{
  ℕ, ℤ, ◌≡◌, refl, ◌≢◌, true, false, [], ◌∷◌, Option, none, some, ==_refl, arith, ◌↔◌,
}
use kafkarator.Base.Int.{pos, negsuc, int_eq, wrap64, scale, quot}
use kafkarator.Go.{panic, Error, Result, ok, err, aiven, Sys}
use kafkarator.Go.Worlds.{EndsIn}
use kafkarator.External.{Config, KafkaTopic}
use kafkarator.Go.Duration.{hours, milliseconds}
use kafkarator.Topic.Fields.{
  cleanup_policy, enable_remote_storage, intp_to_int64p, percent_to_ratio, checked_ratio,
  retention_ms, segment_ms, intp_bigger_than,
}
use kafkarator.Topic.Changed.{topic_config_changed, config_differs}
use kafkarator.Topic.Manager.{
  TopicApi, TopicManager, empty_config, checked, update_request, synchronize,
}
use kafkarator.Topic.Hours.{retention_ms_exact, retention_ms_overflow, segment_ms_bounds}
use kafkarator.Topic.Agrees.{Agrees, config_differs-Agrees}
use kafkarator.Topic.Twice.{synchronize-updates}
use kafkarator.Topic.Applied.{IsApplied, IsOrdered}
use kafkarator.Topic.Settles.{update-settles, update-never_settles}
use kafkarator.Topic.Total.{IsComplete, topic_config_changed-returns}
use kafkarator.Topic.Example.{numbers, liberator, topic_named, in_aiven}

retention_ms_exact_example : retention_ms (some (pos 168)) (negsuc 0) ≡ some (pos 604800000)
retention_ms_exact_example = retention_ms_exact (negsuc 0) 168 (omega arith)

retention_ms_overflow_example :
    (m : ℕ) × (retention_ms (some (pos 2562048)) (negsuc 0) ≡ some (negsuc m))
retention_ms_overflow_example = retention_ms_overflow (negsuc 0) 2562048 (omega arith) (omega arith)

abbrev wanted : Config numbers
wanted = record empty_config {
  retention_hours = some (pos 2);
  segment_hours = some (pos 0);
  partitions = some (pos 3);
  minimum_in_sync_replicas = some (pos 2);
  replication = some (pos 3);
  min_cleanable_dirty_ratio_percent = some (pos 50);
}

segment_ms_bounds_example : segment_ms wanted ≡ some (pos 3600000)
segment_ms_bounds_example = segment_ms_bounds wanted (pos 0) refl (omega arith)

config_differs-Agrees_example :
    (topic_config_changed in_aiven (some wanted) ≡ ok false) ↔ Agrees in_aiven wanted
config_differs-Agrees_example = config_differs-Agrees in_aiven wanted

abbrev updated : KafkaTopic numbers
updated = record in_aiven {
  partitions = 0 ∷ 1 ∷ 2 ∷ [];
  replication = pos 3;
  config = record in_aiven.config {
    retention_ms = some (pos 7200000);
    segment_ms = some (pos 3600000);
    min_insync_replicas = some (pos 2);
    min_cleanable_dirty_ratio = some (pos 50);
  };
}

done : IsApplied (update_request wanted (some (pos 50)) "now") in_aiven updated
unfolding update_request intp_to_int64p retention_ms milliseconds quot hours wrap64 scale segment_ms
done = record {
  replication = refl;
  partitions = refl;
  delete_retention_ms = refl;
  max_message_bytes = refl;
  min_insync_replicas = refl;
  retention_bytes = refl;
  retention_ms = refl;
  local_retention_bytes = refl;
  local_retention_ms = refl;
  segment_ms = refl;
  min_cleanable_dirty_ratio = refl;
  min_compaction_lag_ms = refl;
  max_compaction_lag_ms = refl;
}

ordered : IsOrdered numbers
ordered v = ==_refl v

passes : checked wanted ≡ ok (some (pos 50))
unfolding checked percent_to_ratio checked_ratio intp_bigger_than int_eq
passes = refl

update-settles_example : topic_config_changed updated (some wanted) ≡ ok false
update-settles_example =
    update-settles wanted (some (pos 50)) "now" in_aiven updated done ordered passes refl

abbrev stuck : Config numbers
stuck = record wanted { delete_retention_hours = some (pos 5) }

done_stuck : IsApplied (update_request stuck (some (pos 50)) "now") in_aiven updated
unfolding update_request cleanup_policy enable_remote_storage segment_ms
done_stuck = done

still_other : in_aiven.config.delete_retention_ms ≢ retention_ms (some (pos 5)) (pos 0)
unfolding retention_ms milliseconds quot hours wrap64 scale
still_other h = cc h

update-never_settles_example : topic_config_changed updated (some stuck) ≢ ok false
update-never_settles_example =
    update-never_settles stuck (some (pos 50)) "now" in_aiven updated done_stuck (pos 5) refl
      still_other

abbrev missing : Error
missing = aiven (record { message = ""; more_info = ""; status = pos 404; printed = "404" })

abbrev answer :
    Option (KafkaTopic numbers) → Result (KafkaTopic numbers) × Option (KafkaTopic numbers)
answer none = (err missing, none)
answer (some t) = (ok t, some t)

-- The world is the topic in Aiven, if there is one. An update sets the replication.
abbrev api : TopicApi numbers (Option (KafkaTopic numbers))
api = record {
  get = λ project service name w. answer w;
  list = λ project service w. (ok [], w);
  create = λ project service req w. (ok tt, some in_aiven);
  update = λ project service name req w. (ok tt, some updated);
  delete = λ project service name w. (ok tt, none);
}

abbrev manager : TopicManager numbers (Option (KafkaTopic numbers))
manager = record {
  aiven_topics = api;
  project = "nav-dev";
  service = "kafka";
  topic = topic_named "events" (some wanted);
  now = λ _. "now";
  dry_run = false;
}

abbrev start : Sys (Option (KafkaTopic numbers))
start = record { world = some in_aiven; observed = []; processed = [] }

differs : topic_config_changed in_aiven (some wanted) ≡ ok true
unfolding topic_config_changed config_differs percent_to_ratio checked_ratio intp_bigger_than
    retention_ms milliseconds quot hours wrap64 scale segment_ms int_eq
differs = refl

synchronize-updates_example :
    EndsIn (some updated) (synchronize manager liberator (synchronize manager liberator start).1)
synchronize-updates_example =
    synchronize-updates manager liberator wanted (some (pos 50)) ordered refl refl passes start
      (some in_aiven) (some updated) (some updated) in_aiven updated refl refl differs refl refl
      done

abbrev full_topic : KafkaTopic numbers
full_topic = record in_aiven {
  config = record in_aiven.config {
    retention_bytes = some (negsuc 0);
    local_retention_bytes = some (negsuc 1);
    local_retention_ms = some (negsuc 1);
    min_cleanable_dirty_ratio = some (pos 50);
    min_compaction_lag_ms = some (pos 0);
    max_compaction_lag_ms = some (pos 9223372036854775807);
  };
}

never_panics : (p : ℤ) → numbers.scaled_value p (pos 100) false ≢ panic
never_panics p e = cc

full_topic-IsComplete : IsComplete numbers never_panics full_topic
full_topic-IsComplete = record {
  retention_ms = refl;
  retention_bytes = refl;
  delete_retention_ms = refl;
  local_retention_ms = refl;
  local_retention_bytes = refl;
  min_insync_replicas = refl;
  segment_ms = refl;
  max_message_bytes = refl;
  min_compaction_lag_ms = refl;
  max_compaction_lag_ms = refl;
  min_cleanable_dirty_ratio = refl;
}

topic_config_changed-returns_example : topic_config_changed full_topic (some wanted) ≢ panic
topic_config_changed-returns_example =
    topic_config_changed-returns numbers never_panics full_topic full_topic-IsComplete (some wanted)
