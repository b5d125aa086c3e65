-- ===== src/Controllers/StreamAclTests.antt =====
-- A stream that is deleted in dry-run mode, with an ACL store of two entries.
use kafkarator.Base.{◌≡◌, refl, true, false, String, [], ◌∷◌, none, some, string_eq}
use kafkarator.Base.Int.{pos}
use kafkarator.Go.{Result, ok, err, text, Sys}
use kafkarator.External.{Stream}
use kafkarator.Metrics.{observe_aiven_latency}
use kafkarator.Acl
use kafkarator.Acl.{
  Acl, topic_acls, contains_acl, same_entry, new_acls, delete_acls, get_wanted_acls,
  get_existing_acls, add, delete, delete_one, stream_adapter, stream_acls,
}
use kafkarator.Acl.Ids.{NodupIds}
use kafkarator.Acl.Example.{Entries, entries_api, entries_api-IsAclStore}
use kafkarator.Topic.Example.{numbers, liberator, in_aiven}
use kafkarator.Controllers.Common.{Reconciler, project_whitelisted}
use kafkarator.Controllers.StreamProcess.{
  StreamReconcileResult, zero_status, handle_delete, delete_stream_topics, delete_topics,
  delete_topic, deleted,
}
use kafkarator.Controllers.StreamAcls.{handle_delete-clears_acls}

abbrev reconciler : Reconciler numbers Entries
reconciler = record {
  client = record {
    get_topic = λ namespace name w. (err (text "not found"), w);
    update_topic = λ topic w. (ok tt, w);
    get_stream = λ namespace name w. (err (text "not found"), w);
    update_stream = λ stream w. (ok tt, w);
    is_not_found = λ e. true;
    add_finalizer = λ finalizers f. f ∷ finalizers;
    remove_finalizer = λ finalizers f. [];
  };
  aiven = record {
    acls = entries_api;
    topics = record {
      get = λ project service name w. (ok in_aiven, w);
      list = λ project service w. (ok [], w);
      create = λ project service req w. (ok tt, w);
      update = λ project service name req w. (ok tt, w);
      delete = λ project service name w. (ok tt, w);
    };
    resolve_kafka_service_name = λ project w. (ok "kafka", w);
  };
  projects = "nav-dev" ∷ [];
  requeue_interval = pos 300;
  dry_run = true;
  now = λ w. "now";
  aiven_is_not_found = λ e. false;
}

abbrev flow : Stream
flow = record {
  meta = record {
    name = "flow";
    namespace = "team";
    deletion_timestamp = some "yesterday";
    finalizers = [];
  };
  spec = record { pool = "nav-dev"; additional_users = [] };
  status = none;
}

abbrev own : Acl
own = record { id = "1"; permission = "admin"; topic = "team.flow_stream_*"; username = "flow_*" }

abbrev elsewhere : Acl
elsewhere = record { id = "2"; permission = "read"; topic = "team.other"; username = "app_*" }

distinct_ids : NodupIds (own ∷ elsewhere ∷ [])
unfolding string_eq
distinct_ids = (refl, (refl, tt))

abbrev start : Sys Entries
start = record { world = (own ∷ elsewhere ∷ [], distinct_ids); observed = []; processed = [] }

abbrev reached : Sys Entries
reached = (handle_delete liberator reconciler (λ a. a.application) flow zero_status start).1

abbrev result : StreamReconcileResult
result = record {
  delete_finalized = true;
  skipped = false;
  requeue = false;
  status = record zero_status {
    message = "Stream, ACLs and data permanently deleted";
    synchronization_time = "now";
  };
  error = none;
}

ran :
    handle_delete liberator reconciler (λ a. a.application) flow zero_status start
    ≡ (ok result, reached)
unfolding handle_delete delete_stream_topics delete_topics delete_topic deleted project_whitelisted
    Acl.synchronize get_existing_acls get_wanted_acls stream_adapter stream_acls topic_acls new_acls
    delete_acls contains_acl same_entry add delete delete_one observe_aiven_latency string_eq
ran = refl

handle_delete-clears_acls_example :
    (service : String) × (Result.ok "kafka" ≡ ok service)
    × (topic_acls reached.world.0 "team.flow_stream_*" ≡ [])
handle_delete-clears_acls_example =
    handle_delete-clears_acls liberator reconciler (λ a. a.application) flow (λ service w. w.0)
      (λ service. entries_api-IsAclStore "nav-dev" service) (λ service w. refl)
      (λ service name w. refl) zero_status start reached result ran refl
