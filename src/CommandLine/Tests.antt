-- ===== src/CommandLine/Tests.antt =====
-- A start with the generated client, over clients in memory, and a topic that is deleted.
use kafkarator.Base.{◌≡◌, refl, true, false, String, [], ◌∷◌, map, none, string_eq}
use kafkarator.Base.Int.{pos}
use kafkarator.Go.{Result, ok, Sys}
use kafkarator.Metrics.{observe_aiven_latency}
use kafkarator.Acl
use kafkarator.Acl.{
  contains_acl, same_entry, topic_acls, new_acls, delete_acls, get_wanted_acls, get_existing_acls,
  add, add_one, delete, delete_one, topic_adapter,
}
use kafkarator.Acl.Example.{Entries}
use kafkarator.Adapter.GoClientCodegen
use kafkarator.Adapter.GoClientCodegen.{make_acl, value_or_empty}
use kafkarator.Adapter.Tests
use kafkarator.Adapter.HandlerTests
use kafkarator.Topic.Example.{numbers, liberator}
use kafkarator.Controllers.TopicProcess.{
  process, process_deletion, deleted, delete_data, initial_status,
}
use kafkarator.Controllers.Tests.{reconciler, events, start, result}
use kafkarator.CommandLine.Start.{
  Settings, FeatureFlags, Libraries, Running, acl_client_for, reconciler_for, topic_collector_for,
  metadata_collector_for, acl_collector_for, start_with, start_reconcilers,
}
use kafkarator.CommandLine.Wiring.{started-finalizes}

abbrev libraries : Libraries numbers (Unit {0}) (Unit {0}) Entries
libraries = record {
  new_token_client = λ token w. (ok tt, w);
  kafka_acls = λ c. HandlerTests.handler;
  kafka_topics = λ c. (reconciler false).aiven.topics;
  get_service = λ c project name w.
      (ok (record { kafka_version = none; plan = "business-4"; node_count = 3 }), w);
  new_client = λ token w. (ok tt, w);
  generated = λ d. Tests.client;
  resolve_kafka_service_name = λ c project w. (ok "kafka", w);
  name_on_error = "";
  cluster = (reconciler false).client;
  list_topics = λ w. (ok [], w);
  set_up_topics = λ r w. (ok tt, w);
  set_up_streams = λ r w. (ok tt, w);
  now = λ w. "now";
  aiven_is_not_found = λ e. false;
  ctx_err = λ w. none;
}

abbrev settings : Settings
settings = record {
  aiven_token = "token";
  log_format = "text";
  projects = "nav-dev" ∷ [];
  requeue_interval = pos 300000000000;
  topic_report_interval = pos 300000000000;
  dry_run = false;
}

abbrev flags : FeatureFlags
flags = record { generated_client = true }

abbrev before : Sys Entries
before = record { world = ([], tt); observed = []; processed = [] }

abbrev started : Running numbers Entries
started = record {
  topic_reconciler = reconciler_for libraries settings tt (GoClientCodegen.acl_client Tests.client);
  stream_reconciler =
      reconciler_for libraries settings tt (GoClientCodegen.acl_client Tests.client);
  topic_collector = topic_collector_for libraries settings tt;
  metadata_collector = metadata_collector_for libraries settings tt;
  acl_collector = acl_collector_for libraries settings tt;
}

ran : start_reconcilers libraries settings flags before ≡ (ok started, before)
unfolding start_reconcilers acl_client_for start_with
ran = refl

abbrev reached : Sys Entries
reached = (process liberator started.topic_reconciler events start).1

finished : process liberator started.topic_reconciler events start ≡ (ok (result, events), reached)
unfolding process process_deletion deleted delete_data initial_status Acl.synchronize
    get_existing_acls get_wanted_acls topic_adapter topic_acls new_acls delete_acls contains_acl
    same_entry add add_one delete delete_one observe_aiven_latency string_eq reconciler_for
    GoClientCodegen.acl_client GoClientCodegen.list GoClientCodegen.delete make_acl value_or_empty
finished = refl

started-finalizes_example :
    (true ≡ true)
    × (service : String) × (Result.ok "kafka" ≡ ok service)
    × (topic_acls (map make_acl (Tests.all_out reached.world)) "team.events" ≡ [])
unfolding topic_adapter reconciler_for
started-finalizes_example =
    started-finalizes libraries "nav-dev" (λ service. HandlerTests.all_out)
      (λ service. Tests.all_out) (λ c. HandlerTests.handler-IsHandlerStore)
      (λ d. Tests.client-IsGeneratedStore) settings flags liberator events refl refl before before
      started ran (λ service w. refl) start reached result events finished refl
