-- ===== src/Collectors/Counts.antt =====
-- The gauges after a report: the numbers of topics and of ACL entries.
use kafkarator.Base.{
  ℕ, ◌≡◌, refl, sym, ap, ◌∙◌, false, String, ◌<>◌, List, [], ◌∷◌, ◌++◌, map, length, length-append,
  arith, ◌==◌, string_eq, Bool-cases, inl, inr, ==_iff, ==_refl,
}
use kafkarator.Go.{Result, ok, Sys, Action, ◌>>=◌, call}
use kafkarator.External.{Numeric, Liberator, Topic, KafkaAcl, KafkaListTopic}
use kafkarator.Collectors.Tally.{increment, tally, set_all, occurrences, counted, set_all-tally}
use kafkarator.Collectors.Gauges.{TopicKey, AclKey, triple_eq, Gauges, Scrape, within, set_gauges}
use kafkarator.Collectors.Topics.{
  Collector, source_aiven, explaining, cluster_keys, aiven_keys, aiven_topics, with_topics, report,
}
use kafkarator.Collectors.Acls.{
  AclCollector, append_acl, group_by_topic, with_project, report_project,
}

tally-append :
    (ks js : List TopicKey) (m : List (TopicKey × ℕ)) → tally js (tally ks m) ≡ tally (ks ++ js) m
unfolding tally
tally-append [] js m = refl
tally-append (k ∷ ks) js m = tally-append ks js (increment k m)

module _ {N : Numeric} {W : Type 0} (t : Collector N W) (L : Liberator N) where
  with_topics-counts :
      (cluster : List (Topic N)) (pools : List (String × List KafkaListTopic)) (g : Gauges)
      (k : TopicKey)
      → (with_topics t L cluster pools g).topics k
        ≡ counted
            (occurrences k (cluster_keys L cluster ++ aiven_keys L cluster pools))
            (g.topics k)
  unfolding with_topics
  with_topics-counts cluster pools g k =
      ap (λ m. set_all m g.topics k)
        (tally-append (cluster_keys L cluster) (aiven_keys L cluster pools) [])
      ∙ set_all-tally (cluster_keys L cluster ++ aiven_keys L cluster pools) g.topics k

  -- After a report each gauge has the number of occurrences of its key.
  pub report-tally :
      (s : Sys (Scrape W)) (cluster : List (Topic N)) (pools : List (String × List KafkaListTopic))
      (w : W) (u : Sys W)
      → t.list_topics s.world.outside ≡ (ok cluster, w)
      → aiven_topics t (record { world = w; observed = s.observed; processed = s.processed })
        ≡ (ok pools, u)
      → (k : TopicKey)
      → ((report t L s).0 ≡ ok tt)
        × ((report t L s).1.world.gauges.topics k
            ≡ counted
                (occurrences k (cluster_keys L cluster ++ aiven_keys L cluster pools))
                (s.world.gauges.topics k))
  unfolding report
  report-tally s cluster pools w u listed fetched k =
      let s1 : Sys (Scrape W) = record s { world = record s.world { outside = w } } in
      let after_fetch : Result (List (String × List KafkaListTopic)) × Sys W
          → Result (Unit {0}) × Sys (Scrape W) =
        λ y.
          (within (explaining "list aiven topics: " (λ _. y)) >>= λ pools.
          set_gauges (with_topics t L cluster pools))
            s1 in
      let after_list : Result (List (Topic N)) × W → Result (Unit {0}) × Sys (Scrape W) = λ x.
        (within (explaining "list kubernetes topics: " (call (λ _. x))) >>= λ cluster.
        within (explaining "list aiven topics: " (aiven_topics t)) >>= λ pools.
        set_gauges (with_topics t L cluster pools))
          s in
      let same = ap after_list listed ∙ ap after_fetch fetched in
      (
        ap (λ x. x.0) same,
        ap (λ x. x.1.world.gauges.topics k) same
            ∙ with_topics-counts cluster pools s.world.gauges k,
      )

module _ (project : String) where
  abbrev key : String → AclKey
  key topic = (topic, project, source_aiven)

  abbrev pub key_of : KafkaAcl → AclKey
  key_of a = key a.topic

  abbrev lengths : List (String × List KafkaAcl) → List (AclKey × ℕ)
  lengths m = map (λ p. ((p.0, project, source_aiven), length p.1)) m

  different : (s t : String) → (s == t) ≡ false → s ≡ t → ⊥
  different s t h e = ground (arith, ==_iff s t)

  key-eq : (s t : String) → (key s == key t) ≡ (s == t)
  key-eq s t = elim (Bool-cases (s == t)) [
    | inl same ↦ ap (λ x. key s == key x) (sym ((==_iff s t).0 same)) ∙ ==_refl (key s) ∙ sym same
    | inr differ ↦ elim (Bool-cases (key s == key t)) [
      | inl h ↦ absurd (different s t differ (ap (λ k. k.0) ((==_iff (key s) (key t)).0 h)))
      | inr h ↦ h ∙ sym differ
    ]
  ]

  lengths-append_acl :
      (a : KafkaAcl) (m : List (String × List KafkaAcl))
      → lengths (append_acl a m) ≡ increment (key_of a) (lengths m)
  unfolding append_acl increment
  lengths-append_acl a [] = refl
  lengths-append_acl a ((topic, acls) ∷ m) = elim (Bool-cases (topic == a.topic)) [
    | inl same ↦
        rw (key-eq topic a.topic, same)
          (ap (λ n. (key topic, n) ∷ lengths m) (length-append acls (a ∷ []) ∙ omega arith))
    | inr differ ↦ rw (key-eq topic a.topic, differ, lengths-append_acl a m) refl
  ]

  lengths-group_by_topic :
      (acls : List KafkaAcl) (m : List (String × List KafkaAcl))
      → lengths (group_by_topic acls m) ≡ tally (map key_of acls) (lengths m)
  unfolding group_by_topic tally
  lengths-group_by_topic [] m = refl
  lengths-group_by_topic (a ∷ acls) m =
      lengths-group_by_topic acls (append_acl a m)
      ∙ ap (tally (map key_of acls)) (lengths-append_acl a m)

  with_project-counts :
      (acls : List KafkaAcl) (g : Gauges) (k : AclKey)
      → (with_project project acls g).acls k ≡ counted (occurrences k (map key_of acls)) (g.acls k)
  unfolding with_project
  with_project-counts acls g k =
      ap (λ m. set_all m g.acls k) (lengths-group_by_topic acls [])
      ∙ set_all-tally (map key_of acls) g.acls k

module _ {N : Numeric} {W : Type 0} (a : AclCollector N W) (project : String) where
  -- If the service of a project can be resolved and its ACL entries listed, the report of the project
  -- succeeds, and afterwards the gauge of each topic of the project has the number of entries for
  -- that topic; a gauge with no such entry keeps the value that it had.
  pub report_project-counts :
      (s : Sys (Scrape W)) (service : String) (acls : List KafkaAcl) (v w : W)
      → a.resolve_kafka_service_name project s.world.outside ≡ (ok service, v)
      → a.list_acls project service v ≡ (ok acls, w)
      → (k : AclKey)
      → ((report_project a project s).0 ≡ ok tt)
        × ((report_project a project s).1.world.gauges.acls k
            ≡ counted (occurrences k (map (key_of project) acls)) (s.world.gauges.acls k))
  unfolding report_project
  report_project-counts s service acls v w resolved listed k =
      let s1 : Sys (Scrape W) = record s { world = record s.world { outside = v } } in
      let list_with : Result (List KafkaAcl) × W → Action (Scrape W) (List KafkaAcl) =
        λ y. within (explaining ("list acls in in project " <> project <> ": ") (call (λ _. y))) in
      let after_list : Result (List KafkaAcl) × W → Result (Unit {0}) × Sys (Scrape W) =
        λ y. (list_with y >>= λ l. set_gauges (with_project project l)) s1 in
      let after_resolve : Result String × W → Result (Unit {0}) × Sys (Scrape W) = λ x.
        (within (
              explaining ("resolve kafka service name in project " <> project <> ": ")
                (call (λ _. x)))
            >>= λ name.
                within (
                  explaining ("list acls in in project " <> project <> ": ")
                    (call (a.list_acls project name)))
                >>= λ l. set_gauges (with_project project l))
          s in
      let same = ap after_resolve resolved ∙ ap after_list listed in
      (
        ap (λ x. x.0) same,
        ap (λ x. x.1.world.gauges.acls k) same ∙ with_project-counts project acls s.world.gauges k,
      )
