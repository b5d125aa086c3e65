-- ===== src/Collectors/Tests.antt =====
-- One report of two topics in the cluster and two in Aiven, and one of three entries.
use kafkarator.Base.{
  ◌≢◌, ◌==◌, if◌then◌else◌, arith, ◌≡◌, refl, String, List, [], ◌∷◌, none, some, string_eq,
}
use kafkarator.Go.{ok, err, panic, text, Sys}
use kafkarator.External.{KafkaAcl, Topic}
use kafkarator.Metrics.{observe_aiven_latency}
use kafkarator.Topic.Manager.{TopicApi, list}
use kafkarator.Topic.Example.{numbers, liberator, topic_named, in_aiven}
use kafkarator.Collectors.Gauges.{Gauges, Scrape, triple_eq}
use kafkarator.Collectors.Topics.{
  Collector, team_in_name, aiven_topics, existing_topics, topics_of_pool, known_pools, report,
}
use kafkarator.Collectors.Acls.{AclCollector, report_project}
use kafkarator.Collectors.Metadata.{Metadata, report_pools}
use kafkarator.Collectors.Robust.{pools_observed, report_pools-visits}
use kafkarator.Collectors.TopicCounts.{report-counts}
use kafkarator.Collectors.Counts.{report_project-counts}

abbrev topics : TopicApi numbers (Unit {0})
topics = record {
  get = λ project service topic w. (ok in_aiven, w);
  list = λ project service w.
      (ok (record { topic_name = "team.events" } ∷ record { topic_name = "other.gone" } ∷ []), w);
  create = λ project service req w. (ok tt, w);
  update = λ project service topic req w. (ok tt, w);
  delete = λ project service topic w. (ok tt, w);
}

abbrev in_cluster : List (Topic numbers)
in_cluster = topic_named "events" none ∷ topic_named "more" none ∷ []

abbrev collector : Collector numbers (Unit {0})
collector = record {
  list_topics = λ w. (ok in_cluster, w);
  projects = "nav-dev" ∷ [];
  aiven_topics = topics;
  resolve_kafka_service_name = λ project w. (ok "kafka", w);
  now = λ w. "now";
}

abbrev no_gauges : Gauges
no_gauges = record {
  topics = λ k. none;
  acls = λ k. none;
  pool_info = λ k. none;
  pool_nodes = λ k. none;
}

abbrev before : Sys (Scrape (Unit {0}))
before = record {
  world = record { outside = tt; gauges = no_gauges };
  observed = [];
  processed = [];
}

abbrev fetched_state : Sys (Unit {0})
fetched_state = (aiven_topics collector (record { world = tt; observed = []; processed = [] })).1

report-counts_example :
    ((report collector liberator before).0 ≡ ok tt)
    × ((report collector liberator before).1.world.gauges.topics ("cluster", "team", "nav-dev")
        ≡ some 2)
    × ((report collector liberator before).1.world.gauges.topics ("aiven", "team", "nav-dev")
        ≡ some 1)
unfolding aiven_topics existing_topics topics_of_pool known_pools list observe_aiven_latency
    team_in_name string_eq triple_eq
report-counts_example =
    report-counts collector liberator before in_cluster
      ((
        "nav-dev",
        record { topic_name = "team.events" } ∷ record { topic_name = "other.gone" } ∷ [],
      )
        ∷ [])
      tt fetched_state refl refl "team" "nav-dev"

abbrev entry : String → String → KafkaAcl
entry id topic = record { id = id; permission = "read"; topic = topic; username = "reader" }

abbrev acl_collector : AclCollector numbers (Unit {0})
acl_collector = record {
  list_topics = λ w. (ok in_cluster, w);
  projects = "nav-dev" ∷ [];
  list_acls = λ project service w.
      (ok (entry "1" "team.events" ∷ entry "2" "team.more" ∷ entry "3" "team.events" ∷ []), w);
  resolve_kafka_service_name = λ project w. (ok "kafka", w);
}

report_project-counts_example :
    ((report_project acl_collector "nav-dev" before).0 ≡ ok tt)
    × ((report_project acl_collector "nav-dev" before).1.world.gauges.acls
          ("team.events", "nav-dev", "aiven")
        ≡ some 2)
unfolding string_eq triple_eq
report_project-counts_example =
    report_project-counts acl_collector "nav-dev" before "kafka"
      (entry "1" "team.events" ∷ entry "2" "team.more" ∷ entry "3" "team.events" ∷ []) tt tt refl
      refl ("team.events", "nav-dev", "aiven")

-- The name of one project's service cannot be resolved, and the service of another not be read.
abbrev metadata : Metadata (Unit {0})
metadata = record {
  projects = "lost" ∷ "closed" ∷ "nav-dev" ∷ [];
  resolve_kafka_service_name =
      λ project w. (if project == "lost" then err (text "no such project") else ok "kafka", w);
  name_on_error = "";
  get_service = λ project name w. (
    if project == "closed"
        then err (text "forbidden")
        else ok (record { kafka_version = some "3.7"; plan = "business-4"; node_count = 3 }),
    w,
  );
  ctx_err = λ w. none;
}

resolving : (p : String) (w : Unit {0}) → (metadata.resolve_kafka_service_name p w).0 ≢ panic
resolving p w h = ground arith

getting : (p name : String) (w : Unit {0}) → (metadata.get_service p name w).0 ≢ panic
getting p name w h = ground arith

report_pools-visits_example :
    ((report_pools metadata ("lost" ∷ "closed" ∷ "nav-dev" ∷ []) before).0 ≡ ok tt)
    × (pools_observed (report_pools metadata ("lost" ∷ "closed" ∷ "nav-dev" ∷ []) before).1
        ≡ "lost" ∷ "closed" ∷ "nav-dev" ∷ [])
report_pools-visits_example =
    report_pools-visits metadata (λ w. refl) resolving getting ("lost" ∷ "closed" ∷ "nav-dev" ∷ [])
      before
