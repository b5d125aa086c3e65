-- ===== src/Collectors/Acls.antt =====
-- pkg/metrics/collectors/acls.go
use kafkarator.Base.{String, ◌<>◌, List, [], ◌∷◌, ◌++◌, map, length, ◌==◌, string_eq, if◌then◌else◌}
use kafkarator.Go.{Result, Action, pure, call, ◌>>=◌, ◌>>◌}
use kafkarator.External.{Numeric, Topic, KafkaAcl}
use kafkarator.Collectors.Tally.{set_all}
use kafkarator.Collectors.Gauges.{triple_eq, Gauges, Scrape, within, set_gauges}
use kafkarator.Collectors.Topics.{source_cluster, source_aiven, explaining}

-- `Acls`. The Kubernetes client lists the topics of the cluster.
pub record AclCollector (N : Numeric) (W : Type 0) : Type 0 where
  pub list_topics : W → Result (List (Topic N)) × W
  pub projects : List String
  -- `KafkaACLs.List`, by project and service
  pub list_acls : String → String → W → Result (List KafkaAcl) × W
  pub resolve_kafka_service_name : String → W → Result String × W

-- `topics[kafkaACL.Topic] = append(topics[kafkaACL.Topic], kafkaACL)`
unfoldable pub append_acl : KafkaAcl → List (String × List KafkaAcl) → List (String × List KafkaAcl)
append_acl a [] = (a.topic, a ∷ []) ∷ []
append_acl a ((topic, acls) ∷ m) =
    let rest = append_acl a m in
    if topic == a.topic then (topic, acls ++ (a ∷ [])) ∷ m else (topic, acls) ∷ rest

-- The loop that groups the entries by topic.
unfoldable pub group_by_topic :
    List KafkaAcl → List (String × List KafkaAcl) → List (String × List KafkaAcl)
unfolding append_acl
group_by_topic [] m = m
group_by_topic (a ∷ acls) m = group_by_topic acls (append_acl a m)

-- The gauges after a report of the entries of one project.
unfoldable pub with_project : String → List KafkaAcl → Gauges → Gauges
unfolding set_all group_by_topic
with_project project acls g = record g {
  acls =
      set_all (map (λ p. ((p.0, project, source_aiven), length p.1)) (group_by_topic acls []))
        g.acls;
}

-- The gauges after a report of the topics of the cluster: one for each topic, by its short name.
unfoldable pub with_cluster : {N : Numeric} → List (Topic N) → Gauges → Gauges
unfolding set_all
with_cluster tops g = record g {
  acls =
      set_all
        (map (λ top. ((top.meta.name, top.spec.pool, source_cluster), length top.spec.acl)) tops)
        g.acls;
}

module _ {N : Numeric} {W : Type 0} (a : AclCollector N W) where
  -- `reportFromClusterTopics`
  unfoldable pub report_from_cluster_topics : Action (Scrape W) (Unit {0})
  unfolding with_cluster
  report_from_cluster_topics =
      within (explaining "list kubernetes topics: " (call a.list_topics)) >>= λ tops.
      set_gauges (with_cluster tops)

  -- One project in the loop of `reportFromAivenProjects`.
  unfoldable pub report_project : String → Action (Scrape W) (Unit {0})
  unfolding with_project
  report_project project =
      within (
        explaining ("resolve kafka service name in project " <> project <> ": ")
          (call (a.resolve_kafka_service_name project)))
      >>= λ service.
          within (
            explaining ("list acls in in project " <> project <> ": ")
              (call (a.list_acls project service)))
          >>= λ acls. set_gauges (with_project project acls)

  -- `reportFromAivenProjects`
  unfoldable pub report_projects : List String → Action (Scrape W) (Unit {0})
  unfolding report_project
  report_projects [] = pure tt
  report_projects (p ∷ projects) = report_project p >> report_projects projects

  -- `Report`
  unfoldable pub report_acls : Action (Scrape W) (Unit {0})
  unfolding report_from_cluster_topics report_projects
  report_acls = report_from_cluster_topics >> report_projects a.projects
