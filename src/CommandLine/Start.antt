-- ===== src/CommandLine/Start.antt =====
-- cmd/kafkarator/main.go: `startReconcilers`, and `Start` of pkg/metrics/collectors/run.go.
use kafkarator.Base.{ℤ, Bool, String, ◌<>◌, List, Option, if◌then◌else◌}
use kafkarator.Go.{Error, Result, text, error_text, Action, pure, fail, call, ◌>>=◌, handle}
use kafkarator.External.{Numeric, Topic}
use kafkarator.Acl.{AclApi}
use kafkarator.Topic.{TopicApi}
use kafkarator.Adapter.AivenGoClient
use kafkarator.Adapter.AivenGoClient.{KafkaAclHandler}
use kafkarator.Adapter.GoClientCodegen
use kafkarator.Adapter.GoClientCodegen.{GeneratedClient}
use kafkarator.Controllers.Common.{Cluster, Reconciler}
use kafkarator.Collectors.Topics.{Collector}
use kafkarator.Collectors.Acls.{AclCollector}
use kafkarator.Collectors.Metadata.{Metadata, Service}

-- The configuration options that are read here.
pub record Settings : Type 0 where
  pub aiven_token : String
  pub log_format : String
  pub projects : List String
  pub requeue_interval : ℤ
  pub topic_report_interval : ℤ
  pub dry_run : Bool

-- `FeatureFlags`
pub record FeatureFlags : Type 0 where
  pub generated_client : Bool

-- The libraries: `C` is the type of aiven-go-client's clients, `D` that of the generated client.
pub record Libraries (N : Numeric) (C D W : Type 0) : Type 0 where
  pub new_token_client : String → W → Result C × W
  pub kafka_acls : C → KafkaAclHandler W
  pub kafka_topics : C → TopicApi N W
  pub get_service : C → String → String → W → Result Service × W
  pub new_client : String → W → Result D × W
  pub generated : D → GeneratedClient W
  -- `service.NewCachedNameResolver`
  pub resolve_kafka_service_name : C → String → W → Result String × W
  pub name_on_error : String
  -- `mgr.GetClient()`
  pub cluster : Cluster N W
  pub list_topics : W → Result (List (Topic N)) × W
  -- `SetupWithManager` of the two reconcilers
  pub set_up_topics : Reconciler N W → W → Result (Unit {0}) × W
  pub set_up_streams : Reconciler N W → W → Result (Unit {0}) × W
  pub now : W → String
  pub aiven_is_not_found : Error → Bool
  pub ctx_err : W → Option Error

-- What runs after a start: the two reconcilers and the three collectors.
pub record Running (N : Numeric) (W : Type 0) : Type 0 where
  pub topic_reconciler : Reconciler N W
  pub stream_reconciler : Reconciler N W
  pub topic_collector : Collector N W
  pub metadata_collector : Metadata W
  pub acl_collector : AclCollector N W

module _ {N : Numeric} {C D W : Type 0} (lib : Libraries N C D W) where
  -- `quit <- fmt.Errorf(message + ": %s", err)`, if the call fails.
  abbrev pub or_quit : {A B : Type 0} → String → Action W A → (A → Action W B) → Action W B
  or_quit message m k = handle m k (λ e. fail (text (message <> ": " <> error_text e)))

  -- The client for ACL entries, by the feature flag.
  unfoldable pub acl_client_for : Settings → FeatureFlags → C → Action W (AclApi W)
  acl_client_for settings flags aiven_client =
      if flags.generated_client
      then or_quit "unable to set up aiven client" (call (lib.new_client settings.aiven_token))
          (λ d. pure (GoClientCodegen.acl_client (lib.generated d)))
      else pure (AivenGoClient.acl_client (lib.kafka_acls aiven_client))

  -- The fields of `TopicReconciler` and of `StreamReconciler`, which are the same.
  unfoldable pub reconciler_for : Settings → C → AclApi W → Reconciler N W
  reconciler_for settings aiven_client acl_client = record {
    client = lib.cluster;
    aiven = record {
      acls = acl_client;
      topics = lib.kafka_topics aiven_client;
      resolve_kafka_service_name = lib.resolve_kafka_service_name aiven_client;
    };
    projects = settings.projects;
    requeue_interval = settings.requeue_interval;
    dry_run = settings.dry_run;
    now = lib.now;
    aiven_is_not_found = lib.aiven_is_not_found;
  }

  -- The collectors of `collectors.Start`.
  unfoldable pub topic_collector_for : Settings → C → Collector N W
  topic_collector_for settings aiven_client = record {
    list_topics = lib.list_topics;
    projects = settings.projects;
    aiven_topics = lib.kafka_topics aiven_client;
    resolve_kafka_service_name = lib.resolve_kafka_service_name aiven_client;
    now = lib.now;
  }

  unfoldable pub metadata_collector_for : Settings → C → Metadata W
  metadata_collector_for settings aiven_client = record {
    projects = settings.projects;
    resolve_kafka_service_name = lib.resolve_kafka_service_name aiven_client;
    name_on_error = lib.name_on_error;
    get_service = lib.get_service aiven_client;
    ctx_err = lib.ctx_err;
  }

  unfoldable pub acl_collector_for : Settings → C → AclCollector N W
  acl_collector_for settings aiven_client = record {
    list_topics = lib.list_topics;
    projects = settings.projects;
    list_acls = (lib.kafka_acls aiven_client).list;
    resolve_kafka_service_name = lib.resolve_kafka_service_name aiven_client;
  }

  -- The two reconcilers over one ACL client, and the collectors.
  unfoldable pub start_with : Settings → C → AclApi W → Action W (Running N W)
  unfolding reconciler_for topic_collector_for metadata_collector_for acl_collector_for
  start_with settings aiven_client acl_client =
      let r = reconciler_for settings aiven_client acl_client in
      or_quit "unable to set up topicReconciler" (call (lib.set_up_topics r)) (λ _.
        or_quit "unable to set up streamReconciler" (call (lib.set_up_streams r)) (λ _.
          pure (record {
            topic_reconciler = r;
            stream_reconciler = r;
            topic_collector = topic_collector_for settings aiven_client;
            metadata_collector = metadata_collector_for settings aiven_client;
            acl_collector = acl_collector_for settings aiven_client;
          })))

  -- `startReconcilers`: an error is the one that it sends on the channel `quit`.
  unfoldable pub start_reconcilers : Settings → FeatureFlags → Action W (Running N W)
  unfolding acl_client_for start_with
  start_reconcilers settings flags =
      or_quit "unable to set up aiven client" (call (lib.new_token_client settings.aiven_token))
        (λ aiven_client. acl_client_for settings flags aiven_client >>= λ acl_client.
          start_with settings aiven_client acl_client)
