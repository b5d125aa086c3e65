-- ===== src/Collectors/Topics.antt =====
-- pkg/metrics/collectors/topic.go
use package.text.Mathlib.Text.{find?}
use Prim.Native.String.{slice}
use kafkarator.Base.{
  false, String, ◌<>◌, List, [], ◌∷◌, ◌++◌, map, none, some, ◌==◌, string_eq, if◌then◌else◌,
  contains,
}
use kafkarator.Go.{Result, text, error_text, Action, pure, fail, call, ◌>>=◌, handle}
use kafkarator.External.{Numeric, Liberator, Topic, KafkaListTopic}
use kafkarator.Topic.Manager.{TopicApi, list}
use kafkarator.Collectors.Tally.{tally, set_all}
use kafkarator.Collectors.Gauges.{TopicKey, triple_eq, Gauges, Scrape, within, set_gauges}

-- `Topic`, with what `Acls` has too. The Kubernetes client lists the topics of the cluster.
pub record Collector (N : Numeric) (W : Type 0) : Type 0 where
  pub list_topics : W → Result (List (Topic N)) × W
  pub projects : List String
  pub aiven_topics : TopicApi N W
  pub resolve_kafka_service_name : String → W → Result String × W
  -- `time.Now()`, which the manager does not use for a list
  pub now : W → String

abbrev pub source_cluster : String
source_cluster = "cluster"

abbrev pub source_aiven : String
source_aiven = "aiven"

-- `fmt.Errorf` with `%s`, for the error of a call.
abbrev pub explaining : {W A : Type 0} → String → Action W A → Action W A
explaining message m = handle m (λ a. pure a) (λ e. fail (text (message <> error_text e)))

-- The guess of a team from a name: the part in front of the first dot.
unfoldable pub team_in_name : String → String
team_in_name name = elim (find? name ".") [ some k ↦ slice name 0 k | none ↦ "" ]

module _ {N : Numeric} (L : Liberator N) where
  -- `topicTeam`
  unfoldable pub topic_team : KafkaListTopic → List (Topic N) → String
  unfolding team_in_name
  topic_team aiven_topic [] = team_in_name aiven_topic.topic_name
  topic_team aiven_topic (top ∷ tops) =
      let rest = topic_team aiven_topic tops in
      if L.full_name top == aiven_topic.topic_name then top.meta.namespace else rest

  -- The keys that are counted for the topics of the cluster.
  unfoldable pub cluster_keys : List (Topic N) → List TopicKey
  cluster_keys tops = map (λ top. (source_cluster, top.meta.namespace, top.spec.pool)) tops

  -- The keys that are counted for the topics of one pool in Aiven.
  unfoldable pub pool_keys : List (Topic N) → String → List KafkaListTopic → List TopicKey
  unfolding topic_team
  pool_keys cluster pool tops = map (λ top. (source_aiven, topic_team top cluster, pool)) tops

  unfoldable pub aiven_keys : List (Topic N) → List (String × List KafkaListTopic) → List TopicKey
  unfolding pool_keys
  aiven_keys cluster [] = []
  aiven_keys cluster ((pool, tops) ∷ pools) =
      pool_keys cluster pool tops ++ aiven_keys cluster pools

-- The keys of the map `existing`: each project once.
unfoldable pub known_pools : List String → List String
known_pools [] = []
known_pools (p ∷ projects) =
    let rest = known_pools projects in if contains projects p then rest else p ∷ rest

-- Go's zero value of a topic.
abbrev zero_topic : {N : Numeric} → Topic N
zero_topic = record {
  meta = record { name = ""; namespace = ""; deletion_timestamp = none; finalizers = [] };
  spec = record { pool = ""; config = none; acl = [] };
  status = none;
}

module _ {N : Numeric} {W : Type 0} (t : Collector N W) where
  -- The topics of one pool.
  unfoldable pub topics_of_pool : String → Action W (List KafkaListTopic)
  unfolding list
  topics_of_pool pool = call (t.resolve_kafka_service_name pool) >>= λ service. list (record {
    aiven_topics = t.aiven_topics;
    project = pool;
    service = service;
    topic = zero_topic {N = N};
    now = t.now;
    dry_run = false;
  })

  -- The loop over the pools.
  unfoldable pub existing_topics : List String → Action W (List (String × List KafkaListTopic))
  unfolding topics_of_pool
  existing_topics [] = pure []
  existing_topics (pool ∷ pools) =
      topics_of_pool pool >>= λ tops. existing_topics pools >>= λ rest. pure ((pool, tops) ∷ rest)

  -- `aivenTopics`
  unfoldable pub aiven_topics : Action W (List (String × List KafkaListTopic))
  unfolding existing_topics known_pools
  aiven_topics = existing_topics (known_pools t.projects)

  -- The gauges after a report of these topics.
  unfoldable pub with_topics :
      Liberator N → List (Topic N) → List (String × List KafkaListTopic) → Gauges → Gauges
  unfolding tally set_all cluster_keys aiven_keys
  with_topics L cluster pools g = record g {
    topics =
        set_all (tally (aiven_keys L cluster pools) (tally (cluster_keys L cluster) [])) g.topics;
  }

  -- `Report`
  unfoldable pub report : Liberator N → Action (Scrape W) (Unit {0})
  unfolding aiven_topics with_topics
  report L = within (explaining "list kubernetes topics: " (call t.list_topics)) >>= λ cluster.
      within (explaining "list aiven topics: " aiven_topics) >>= λ pools.
      set_gauges (with_topics L cluster pools)
