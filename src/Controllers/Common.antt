-- ===== src/Controllers/Common.antt =====
-- controllers/constants.go, controllers/synchronizer.go, pkg/aiven/aiven.go, and what the two
-- reconcilers use of Kubernetes.
use kafkarator.Base.{
  ℤ, Bool, true, false, String, ◌<>◌, List, [], ◌∷◌, none, some, ◌==◌, string_eq, if◌then◌else◌,
}
use kafkarator.Base.Int.{pos, int_eq}
use kafkarator.Go.{
  Error, AivenError, Result, text, error_text, as_aiven, Action, pure, call, ◌>>=◌, ◌>>◌,
}
use kafkarator.External.{Numeric, Liberator, Topic, Stream}
use kafkarator.Acl
use kafkarator.Acl.{AclApi, AclManager, topic_adapter}
use kafkarator.Topic
use kafkarator.Topic.{TopicApi, TopicManager}
use kafkarator.Utils.CredStrip.{check_for_possible_credentials}

-- `Finalizer`
abbrev pub finalizer : String
finalizer = "kafkarator.kafka.nais.io"

-- `kafkarator_aiven.Interfaces`
pub record Interfaces (N : Numeric) (W : Type 0) : Type 0 where
  pub acls : AclApi W
  pub topics : TopicApi N W
  -- `NameResolver.ResolveKafkaServiceName`
  pub resolve_kafka_service_name : String → W → Result String × W

-- The Kubernetes client and the library functions around it.
pub record Cluster (N : Numeric) (W : Type 0) : Type 0 where
  pub get_topic : String → String → W → Result (Topic N) × W
  pub update_topic : Topic N → W → Result (Unit {0}) × W
  pub get_stream : String → String → W → Result Stream × W
  pub update_stream : Stream → W → Result (Unit {0}) × W
  -- `apierrors.IsNotFound`
  pub is_not_found : Error → Bool
  -- `controllerutil.AddFinalizer` and `RemoveFinalizer`, on the list of finalizers
  pub add_finalizer : List String → String → List String
  pub remove_finalizer : List String → String → List String

-- The fields that `TopicReconciler` and `StreamReconciler` share.
pub record Reconciler (N : Numeric) (W : Type 0) : Type 0 where
  pub client : Cluster N W
  pub aiven : Interfaces N W
  pub projects : List String
  pub requeue_interval : ℤ
  pub dry_run : Bool
  -- `time.Now().Format(time.RFC3339)`, by the state of the world
  pub now : W → String
  -- `aiven.IsNotFound`
  pub aiven_is_not_found : Error → Bool

-- `projectWhitelisted`
unfoldable pub project_whitelisted : List String → String → Bool
project_whitelisted [] project = false
project_whitelisted (p ∷ projects) project =
    if p == project then true else project_whitelisted projects project

abbrev pub unknown_message : String
unknown_message = "unknown error while calling Aiven API"

-- What `fail` makes of an error, in both reconcilers: the message and the entry for the status, and the
-- error that goes on.
pub record Failure : Type 0 where
  pub message : String
  pub entry : String
  pub propagated : Error

unfoldable pub aiven_failure : Error → AivenError → Failure
aiven_failure e a =
    if a.status == pos 200
    then record {
      message = unknown_message;
      entry = unknown_message;
      propagated = text unknown_message;
    }
    else record { message = a.message; entry = a.message <> ": " <> a.more_info; propagated = e }

unfoldable pub describe_failure : Error → Failure
unfolding aiven_failure
describe_failure e = elim (as_aiven e) [
  | none ↦ record { message = error_text e; entry = error_text e; propagated = e }
  | some a ↦ aiven_failure e a
]

-- `fmt.Errorf("%s: %s", state, propagatedErr)`
unfoldable pub failed_with : String → Failure → Error
failed_with state f =
    text (state <> ": " <> error_text (check_for_possible_credentials f.propagated))

pub record Synchronizer (N : Numeric) (W : Type 0) : Type 0 where
  pub acls : AclManager W
  pub topics : TopicManager N W

module _ {N : Numeric} {W : Type 0} (L : Liberator N) where
  -- The managers that `NewSynchronizer` puts together.
  abbrev pub synchronizer_for : Reconciler N W → Topic N → String → Synchronizer N W
  synchronizer_for r t service = record {
    acls = record {
      aiven_acls = r.aiven.acls;
      project = t.spec.pool;
      service = service;
      source = topic_adapter L t;
      dry_run = r.dry_run;
    };
    topics = record {
      aiven_topics = r.aiven.topics;
      project = t.spec.pool;
      service = service;
      topic = t;
      now = r.now;
      dry_run = r.dry_run;
    };
  }

  -- `NewSynchronizer`
  unfoldable pub new_synchronizer : Reconciler N W → Topic N → Action W (Synchronizer N W)
  new_synchronizer r t = call (r.aiven.resolve_kafka_service_name t.spec.pool) >>= λ service.
      pure (synchronizer_for r t service)

  -- `Synchronizer.Synchronize`
  unfoldable pub synchronize : Synchronizer N W → Action W (Unit {0})
  synchronize c =
      Acl.synchronize L.service_user_name_with_suffix c.acls >> Topic.synchronize c.topics L
