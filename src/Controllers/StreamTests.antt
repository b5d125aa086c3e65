-- ===== src/Controllers/StreamTests.antt =====
-- A stream that is deleted, in a service with two topics.
use kafkarator.Base.{
  ◌≡◌, refl, ap, not, true, false, String, List, [], ◌∷◌, map, select, none, some, ◌==◌, string_eq,
}
use kafkarator.Base.Int.{pos}
use kafkarator.Go.{Result, ok, err, text, Sys}
use kafkarator.External.{Stream, KafkaListTopic}
use kafkarator.Metrics.{observe_aiven_latency}
use kafkarator.Acl
use kafkarator.Acl.{
  Acl, topic_acls, new_acls, delete_acls, get_wanted_acls, get_existing_acls, add, delete,
  stream_adapter, stream_acls,
}
use kafkarator.Topic.Example.{numbers, liberator, in_aiven}
use kafkarator.Controllers.Common.{Reconciler, project_whitelisted}
use kafkarator.Controllers.StreamProcess.{
  StreamReconcileResult, zero_status, handle_delete, delete_stream_topics, delete_topics,
  delete_topic, deleted,
}
use kafkarator.Controllers.TopicNames.{IsTopicStore}
use kafkarator.Controllers.StreamDelete.{handle_delete-removes}

abbrev listed_topic : String → KafkaListTopic
listed_topic name = record { topic_name = name }

-- The world is the list of the topics.
abbrev reconciler : Reconciler numbers (List String)
reconciler = record {
  client = record {
    get_topic = λ namespace name w. (err (text "not found"), w);
    update_topic = λ topic w. (ok tt, w);
    get_stream = λ namespace name w. (err (text "not found"), w);
    update_stream = λ stream w. (ok tt, w);
    is_not_found = λ e. true;
    add_finalizer = λ finalizers f. f ∷ finalizers;
    remove_finalizer = λ finalizers f. [];
  };
  aiven = record {
    acls = record {
      list = λ project service w. (ok [], w);
      create = λ project service req w. (err (text "read-only"), w);
      delete = λ project service id w. (ok tt, w);
    };
    topics = record {
      get = λ project service name w. (ok in_aiven, w);
      list = λ project service w. (ok (map listed_topic w), w);
      create = λ project service req w. (ok tt, w);
      update = λ project service name req w. (ok tt, w);
      delete = λ project service name w. (ok tt, select (λ n. not (n == name)) w);
    };
    resolve_kafka_service_name = λ project w. (ok "kafka", w);
  };
  projects = "nav-dev" ∷ [];
  requeue_interval = pos 300;
  dry_run = false;
  now = λ w. "now";
  aiven_is_not_found = λ e. false;
}

map-listed_topic : (l : List String) → map (λ t. t.topic_name) (map listed_topic l) ≡ l
map-listed_topic [] = refl
map-listed_topic (n ∷ l) = ap (λ m. n ∷ m) (map-listed_topic l)

store : IsTopicStore reconciler "nav-dev" (λ service w. w)
store = record {
  listed = λ service w. (map-listed_topic w, refl);
  removed = λ service name w. refl;
  resolved = λ service w. refl;
  acls =
      λ service. record { listing = λ w. refl; creating = λ w req. refl; deleting = λ w id. refl };
}

abbrev flow : Stream
flow = record {
  meta = record {
    name = "flow";
    namespace = "team";
    deletion_timestamp = some "yesterday";
    finalizers = [];
  };
  spec = record { pool = "nav-dev"; additional_users = [] };
  status = none;
}

abbrev start : Sys (List String)
start = record {
  world = "team.flow_stream_changelog" ∷ "team.other" ∷ [];
  observed = [];
  processed = [];
}

abbrev reached : Sys (List String)
reached = (handle_delete liberator reconciler (λ a. a.application) flow zero_status start).1

abbrev result : StreamReconcileResult
result = record {
  delete_finalized = true;
  skipped = false;
  requeue = false;
  status = record zero_status {
    message = "Stream, ACLs and data permanently deleted";
    synchronization_time = "now";
  };
  error = none;
}

ran :
    handle_delete liberator reconciler (λ a. a.application) flow zero_status start
    ≡ (ok result, reached)
unfolding handle_delete delete_stream_topics delete_topics delete_topic deleted project_whitelisted
    Acl.synchronize get_existing_acls get_wanted_acls stream_adapter stream_acls topic_acls new_acls
    delete_acls add delete observe_aiven_latency string_eq
ran = refl

handle_delete-removes_example :
    (service : String) × (Result.ok "kafka" ≡ ok service) × (reached.world ≡ "team.other" ∷ [])
handle_delete-removes_example =
    handle_delete-removes liberator reconciler (λ a. a.application) flow (λ service w. w) store refl
      zero_status start reached result ran refl
