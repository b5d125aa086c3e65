-- ===== src/Collectors/TopicCounts.antt =====
-- The gauges of pkg/metrics/collectors/topic.go against the numbers of topics, team by team.
use kafkarator.Base.{
  ℕ, ◌+◌, ◌≡◌, refl, sym, ap, ◌∙◌, Bool, true, false, ◌&&◌, String, List, [], ◌∷◌, ◌++◌, map,
  length, select, arith, ◌==◌, string_eq, Bool-cases, inl, inr, ==_iff, if◌then◌else◌,
}
use kafkarator.Go.{ok, Sys}
use kafkarator.External.{Numeric, Liberator, Topic, KafkaListTopic}
use kafkarator.Collectors.Tally.{occurrences, counted}
use kafkarator.Collectors.Gauges.{TopicKey, triple_eq, Scrape}
use kafkarator.Collectors.Topics.{
  Collector, source_cluster, source_aiven, team_in_name, topic_team, cluster_keys, pool_keys,
  aiven_keys, aiven_topics, report,
}
use kafkarator.Collectors.Counts.{report-tally}

occurrences-append :
    (k : TopicKey) (ks js : List TopicKey)
    → occurrences k (ks ++ js) ≡ occurrences k ks + occurrences k js
occurrences-append k [] js = omega arith
occurrences-append k (j ∷ ks) js = omega (arith, occurrences-append k ks js)

abbrev labels : String → String → String → TopicKey
labels source team pool = (source, team, pool)

both : {p q : Bool} → p ≡ true → q ≡ true → (p && q) ≡ true
both h k = rw (h, k) refl

-- A key is another one exactly if its three texts are.
triple-eq :
    (a b c x y z : String) → (labels a b c == labels x y z) ≡ ((a == x) && ((b == y) && (c == z)))
triple-eq a b c x y z = elim (Bool-cases (labels a b c == labels x y z)) [
  | inl h ↦
      let e = (==_iff (labels a b c) (labels x y z)).0 h in
      let p = (==_iff a x).1 (ap (λ (t : TopicKey). t.0) e) in
      let q = (==_iff b y).1 (ap (λ (t : TopicKey). t.1) e) in
      let r = (==_iff c z).1 (ap (λ (t : TopicKey). t.2) e) in h ∙ sym (both p (both q r))
  | inr h ↦ h ∙ sym (missing h)
]
  where
    missing : (labels a b c == labels x y z) ≡ false → ((a == x) && ((b == y) && (c == z))) ≡ false
    missing h = elim (Bool-cases (a == x)) [
      | inr u ↦ rw u refl
      | inl u ↦ elim (Bool-cases (b == y)) [
        | inr v ↦ rw (u, v) refl
        | inl v ↦ elim (Bool-cases (c == z)) [
          | inr w ↦ rw (u, v, w) refl
          | inl w ↦
              let p = (==_iff a x).0 u in
              let q = (==_iff b y).0 v in
              let r = (==_iff c z).0 w in
              let e : labels a b c ≡ labels x y z = λ i. labels (p i) (q i) (r i) in
              let same = (==_iff (labels a b c) (labels x y z)).1 e in absurd (cc (sym h ∙ same))
        ]
      ]
    ]

module _ {N : Numeric} (L : Liberator N) where
  abbrev first_or : String → List String → String
  first_or guess [] = guess
  first_or guess (n ∷ _) = n

  -- The team of a topic in Aiven: the namespace of the first topic of the cluster with its name, or else
  -- the guess from the name.
  abbrev pub owner : List (Topic N) → KafkaListTopic → String
  owner cluster t =
      first_or (team_in_name t.topic_name)
        (map (λ top. top.meta.namespace) (select (λ top. L.full_name top == t.topic_name) cluster))

  topic_team-owner :
      (t : KafkaListTopic) (cluster : List (Topic N)) → topic_team L t cluster ≡ owner cluster t
  unfolding topic_team
  topic_team-owner t [] = refl
  topic_team-owner t (top ∷ cluster) = elim (Bool-cases (L.full_name top == t.topic_name)) [
    | inl same ↦ rw same refl
    | inr other ↦ rw other (topic_team-owner t cluster)
  ]

  -- The number of topics of the cluster with a team and a pool.
  abbrev pub in_cluster : String → String → List (Topic N) → ℕ
  in_cluster team pool tops =
      length (select (λ top. (top.meta.namespace == team) && (top.spec.pool == pool)) tops)

  -- The number of topics of Aiven with a team and a pool.
  abbrev pub in_pools : List (Topic N) → String → String → List (String × List KafkaListTopic) → ℕ
  in_pools cluster team pool [] = 0
  in_pools cluster team pool ((p, tops) ∷ pools) =
      (if p == pool then length (select (λ t. owner cluster t == team) tops) else 0)
      + in_pools cluster team pool pools

  cluster_in_cluster :
      (team pool : String) (tops : List (Topic N))
      → occurrences (labels source_cluster team pool) (cluster_keys L tops)
        ≡ in_cluster team pool tops
  unfolding cluster_keys
  cluster_in_cluster team pool [] = refl
  cluster_in_cluster team pool (top ∷ tops) = ground (
    arith,
    triple-eq source_cluster top.meta.namespace top.spec.pool source_cluster team pool,
    cluster_in_cluster team pool tops,
  )

  cluster_in_aiven :
      (team pool : String) (tops : List (Topic N))
      → occurrences (labels source_aiven team pool) (cluster_keys L tops) ≡ 0
  unfolding cluster_keys string_eq
  cluster_in_aiven team pool [] = refl
  cluster_in_aiven team pool (top ∷ tops) = ground (
    arith,
    triple-eq source_cluster top.meta.namespace top.spec.pool source_aiven team pool,
    cluster_in_aiven team pool tops,
  )

  pool_in_cluster :
      (cluster : List (Topic N)) (team pool p : String) (tops : List KafkaListTopic)
      → occurrences (labels source_cluster team pool) (pool_keys L cluster p tops) ≡ 0
  unfolding pool_keys string_eq
  pool_in_cluster cluster team pool p [] = refl
  pool_in_cluster cluster team pool p (t ∷ tops) = ground (
    arith,
    triple-eq source_aiven (topic_team L t cluster) p source_cluster team pool,
    pool_in_cluster cluster team pool p tops,
  )

  pool_in_pools :
      (cluster : List (Topic N)) (team pool p : String) (tops : List KafkaListTopic)
      → occurrences (labels source_aiven team pool) (pool_keys L cluster p tops)
        ≡ (if p == pool then length (select (λ t. owner cluster t == team) tops) else 0)
  unfolding pool_keys
  pool_in_pools cluster team pool p [] = ground arith
  pool_in_pools cluster team pool p (t ∷ tops) = ground (
    arith,
    triple-eq source_aiven (topic_team L t cluster) p source_aiven team pool,
    topic_team-owner t cluster,
    pool_in_pools cluster team pool p tops,
  )

  aiven_in_cluster :
      (cluster : List (Topic N)) (team pool : String) (pools : List (String × List KafkaListTopic))
      → occurrences (labels source_cluster team pool) (aiven_keys L cluster pools) ≡ 0
  unfolding aiven_keys
  aiven_in_cluster cluster team pool [] = refl
  aiven_in_cluster cluster team pool ((p, tops) ∷ pools) = omega (
    arith,
    occurrences-append (labels source_cluster team pool) (pool_keys L cluster p tops)
        (aiven_keys L cluster pools),
    pool_in_cluster cluster team pool p tops,
    aiven_in_cluster cluster team pool pools,
  )

  aiven_in_pools :
      (cluster : List (Topic N)) (team pool : String) (pools : List (String × List KafkaListTopic))
      → occurrences (labels source_aiven team pool) (aiven_keys L cluster pools)
        ≡ in_pools cluster team pool pools
  unfolding aiven_keys
  aiven_in_pools cluster team pool [] = refl
  aiven_in_pools cluster team pool ((p, tops) ∷ pools) =
      occurrences-append (labels source_aiven team pool) (pool_keys L cluster p tops)
        (aiven_keys L cluster pools)
      ∙ ap (λ n. n + occurrences (labels source_aiven team pool) (aiven_keys L cluster pools))
          (pool_in_pools cluster team pool p tops)
      ∙ ap (λ n. (if p == pool then length (select (λ t. owner cluster t == team) tops) else 0) + n)
          (aiven_in_pools cluster team pool pools)

module _ {N : Numeric} {W : Type 0} (t : Collector N W) (L : Liberator N) where
  -- If the topics of the cluster and those of the pools in Aiven can be listed, `Report` succeeds, and
  -- afterwards, for each team and pool, the gauge of the source `cluster` has the number of topics of
  -- the cluster with that namespace and pool, and the gauge of the source `aiven` has the number of
  -- topics listed for that pool whose team it is: the namespace of the first topic of the cluster with
  -- the same full name, or else the guess from the name. A gauge with no such topic keeps the value
  -- that it had.
  pub report-counts :
      (s : Sys (Scrape W)) (cluster : List (Topic N)) (pools : List (String × List KafkaListTopic))
      (w : W) (u : Sys W)
      → t.list_topics s.world.outside ≡ (ok cluster, w)
      → aiven_topics t (record { world = w; observed = s.observed; processed = s.processed })
        ≡ (ok pools, u)
      → (team pool : String)
      → ((report t L s).0 ≡ ok tt)
        × ((report t L s).1.world.gauges.topics ("cluster", team, pool)
            ≡ counted
                (in_cluster L team pool cluster)
                (s.world.gauges.topics ("cluster", team, pool)))
        × ((report t L s).1.world.gauges.topics ("aiven", team, pool)
            ≡ counted
                (in_pools L cluster team pool pools)
                (s.world.gauges.topics ("aiven", team, pool)))
  report-counts s cluster pools w u listed fetched team pool =
      let at = report-tally t L s cluster pools w u listed fetched in
      let in_both = λ (k : TopicKey).
        occurrences-append k (cluster_keys L cluster) (aiven_keys L cluster pools) in
      let c = labels source_cluster team pool in
      let a = labels source_aiven team pool in
      (
        (at c).0,
        (at c).1
            ∙ ap (λ n. counted n (s.world.gauges.topics c))
                (in_both c
                  ∙ omega (
                    arith,
                    cluster_in_cluster L team pool cluster,
                    aiven_in_cluster L cluster team pool pools,
                  )),
        (at a).1
            ∙ ap (λ n. counted n (s.world.gauges.topics a))
                (in_both a
                  ∙ omega (
                    arith,
                    cluster_in_aiven L team pool cluster,
                    aiven_in_pools L cluster team pool pools,
                  )),
      )
