-- ===== src/Controllers/Tests.antt =====
-- A topic that is deleted, with an ACL store of two entries.
use kafkarator.Base.{◌≡◌, refl, Bool, true, false, String, [], ◌∷◌, none, some, string_eq}
use kafkarator.Base.Int.{pos}
use kafkarator.Go.{AivenError, Result, ok, err, aiven, wrap, text, as_aiven, Sys}
use kafkarator.Go.Worlds.{Keeps}
use kafkarator.External.{Topic, TopicStatus, StreamStatus}
use kafkarator.Metrics.{observe_aiven_latency}
use kafkarator.Acl
use kafkarator.Acl.{
  Acl, contains_acl, same_entry, topic_acls, new_acls, delete_acls, get_wanted_acls,
  get_existing_acls, add, add_one, delete, delete_one, topic_adapter,
}
use kafkarator.Acl.Ids.{NodupIds}
use kafkarator.Acl.Example.{Entries, entries_api, entries_api-IsAclStore}
use kafkarator.Topic.Example.{numbers, liberator, topic_named, in_aiven}
use kafkarator.Controllers.Common.{Reconciler}
use kafkarator.Controllers.TopicProcess
use kafkarator.Controllers.TopicProcess.{
  TopicReconcileResult, process, process_deletion, deleted, delete_data, initial_status,
}
use kafkarator.Controllers.StreamProcess
use kafkarator.Controllers.TopicDryRun.{IsReadOnly, process_dry}
use kafkarator.Controllers.TopicFinalize.{process-finalizes}
use kafkarator.Controllers.Failures.{fail_result-hides}

abbrev pub reconciler : Bool → Reconciler numbers Entries
reconciler dry_run = record {
  client = record {
    get_topic = λ namespace name w. (err (text "not found"), w);
    update_topic = λ topic w. (ok tt, w);
    get_stream = λ namespace name w. (err (text "not found"), w);
    update_stream = λ stream w. (ok tt, w);
    is_not_found = λ e. true;
    add_finalizer = λ finalizers f. f ∷ finalizers;
    remove_finalizer = λ finalizers f. [];
  };
  aiven = record {
    acls = entries_api;
    topics = record {
      get = λ project service name w. (ok in_aiven, w);
      list = λ project service w. (ok [], w);
      create = λ project service req w. (ok tt, w);
      update = λ project service name req w. (ok tt, w);
      delete = λ project service name w. (ok tt, w);
    };
    resolve_kafka_service_name = λ project w. (ok "kafka", w);
  };
  projects = "nav-dev" ∷ [];
  requeue_interval = pos 300;
  dry_run = dry_run;
  now = λ w. "now";
  aiven_is_not_found = λ e. false;
}

abbrev pub events : Topic numbers
events =
    let t = topic_named "events" none in
    record t { meta = record t.meta { deletion_timestamp = some "yesterday" } }

abbrev pub own : Acl
own = record { id = "1"; permission = "read"; topic = "team.events"; username = "app_*" }

abbrev pub elsewhere : Acl
elsewhere = record { id = "2"; permission = "read"; topic = "team.other"; username = "app_*" }

pub distinct_ids : NodupIds (own ∷ elsewhere ∷ [])
unfolding string_eq
distinct_ids = (refl, (refl, tt))

abbrev pub start : Sys Entries
start = record { world = (own ∷ elsewhere ∷ [], distinct_ids); observed = []; processed = [] }

abbrev reached : Sys Entries
reached = (process liberator (reconciler false) events start).1

abbrev pub result : TopicReconcileResult
result = record {
  delete_finalized = true;
  skipped = false;
  requeue = false;
  status = record TopicProcess.zero_status {
    fully_qualified_name = "team.events";
    message = "Topic, ACLs and data permanently deleted";
    synchronization_time = "now";
  };
  error = none;
}

ran : process liberator (reconciler false) events start ≡ (ok (result, events), reached)
unfolding process process_deletion deleted delete_data initial_status Acl.synchronize
    get_existing_acls get_wanted_acls topic_adapter topic_acls new_acls delete_acls contains_acl
    same_entry add add_one delete delete_one observe_aiven_latency string_eq
ran = refl

process-finalizes_example :
    (true ≡ true)
    × (service : String) × (Result.ok "kafka" ≡ ok service)
    × (topic_acls reached.world.0 "team.events" ≡ [])
unfolding topic_adapter
process-finalizes_example =
    process-finalizes liberator (reconciler false) events (λ service w. w.0)
      (λ service. entries_api-IsAclStore "nav-dev" service) (λ service w. refl) refl start reached
      result events ran refl

only_reads : IsReadOnly (reconciler true) (λ (w : Entries). w.0)
only_reads = record {
  resolving = λ project w. refl;
  listing = λ project service w. refl;
  getting = λ project service name w. refl;
}

process_dry_example :
    Keeps
      (λ (w : Entries). w.0)
      (own ∷ elsewhere ∷ [])
      (process liberator (reconciler true) events start)
process_dry_example =
    process_dry liberator (reconciler true) (λ (w : Entries). w.0) only_reads (own ∷ elsewhere ∷ [])
      refl events start refl

abbrev leaky : String → AivenError
leaky body = record { message = body; more_info = body; status = pos 200; printed = body }

fail_result-hides_example :
    ((status : TopicStatus) (state : String) (retry : Bool) (now : String)
      → TopicProcess.fail_result status (aiven (leaky "password=1")) state retry now
        ≡ TopicProcess.fail_result status (wrap "get" (aiven (leaky "ok"))) state retry now)
    × ((status : StreamStatus) (state : String) (retry : Bool)
        → StreamProcess.fail_result status (aiven (leaky "password=1")) state retry
          ≡ StreamProcess.fail_result status (wrap "get" (aiven (leaky "ok"))) state retry)
unfolding as_aiven
fail_result-hides_example =
    fail_result-hides (aiven (leaky "password=1")) (wrap "get" (aiven (leaky "ok")))
      (leaky "password=1") (leaky "ok") refl refl refl refl
