-- ===== src/Topic/Effects.antt =====
-- Which calls `Manager.Synchronize` makes, over any topic API.
use kafkarator.Base.{◌≡◌, refl, ◌∙◌, Bool, true, false, arith, if◌then◌else◌, Bool-cases, inl, inr}
use kafkarator.Go.{Error, Result, ok, err, panic, Sys, pure, call, lift, fail, ◌>>=◌, handle}
use kafkarator.Go.Worlds.{EndsIn}
use kafkarator.External.{Numeric, Liberator, KafkaTopic, Config}
use kafkarator.Metrics.{observe_aiven_latency}
use kafkarator.Topic.Changed.{topic_config_changed}
use kafkarator.Topic.Manager.{
  TopicManager, config_or_empty, checked, create_request, update_request, create, update,
  synchronize, is_not_found,
}

module _ {N : Numeric} {W : Type 0} (r : TopicManager N W) (L : Liberator N) where
  abbrev config : Config N
  config = config_or_empty r.topic.spec.config

  -- The world after the one call that creates the topic, if the configuration passes the checks.
  abbrev pub created_world : W → W
  created_world w = elim (checked config) [
    | ok ratio ↦
        (r.aiven_topics.create r.project r.service
          (create_request (L.full_name r.topic) config ratio (r.now w)) w).1
    | err _ ↦ w
    | panic ↦ w
  ]

  -- The world after the one call that updates it.
  abbrev pub updated_world : W → W
  updated_world w = elim (checked config) [
    | ok ratio ↦
        (r.aiven_topics.update r.project r.service (L.full_name r.topic)
          (update_request config ratio (r.now w)) w).1
    | err _ ↦ w
    | panic ↦ w
  ]

  create-world :
      (s : Sys W) → EndsIn (if r.dry_run then s.world else created_world s.world) (create r L s)
  unfolding create observe_aiven_latency
  create-world s = ground arith

  update-world :
      (s : Sys W) → EndsIn (if r.dry_run then s.world else updated_world s.world) (update r L s)
  unfolding update observe_aiven_latency
  update-world s = ground arith

  -- What is called after `Get` has answered.
  abbrev pub world_after : Result (KafkaTopic N) × W → W
  world_after (ok t, w) = elim (topic_config_changed t r.topic.spec.config) [
    | ok changed ↦ if changed then (if r.dry_run then w else updated_world w) else w
    | err _ ↦ w
    | panic ↦ w
  ]
  world_after (err e, w) = if is_not_found e then (if r.dry_run then w else created_world w) else w
  world_after (panic, w) = w

  changed-world :
      (x : Result Bool) (s : Sys W)
      → EndsIn
          (elim x [
            | ok changed ↦
                if changed then (if r.dry_run then s.world else updated_world s.world) else s.world
            | err _ ↦ s.world
            | panic ↦ s.world
          ])
          ((lift x >>= λ changed. if changed then update r L else pure tt) s)
  changed-world (ok true) s = update-world s
  changed-world (ok false) s = refl
  changed-world (err _) s = refl
  changed-world panic s = refl

  failed-world :
      (e : Error) (s : Sys W)
      → EndsIn
          (if is_not_found e
            then (if r.dry_run then s.world else created_world s.world)
            else s.world)
          ((if is_not_found e then create r L else fail e) s)
  failed-world e s = elim (Bool-cases (is_not_found e)) [
    | inl missing ↦ rw missing (create-world s)
    | inr other ↦ rw other refl
  ]

  answered-world :
      (x : Result (KafkaTopic N) × W) (s : Sys W)
      → EndsIn (world_after x) (
          handle
            (observe_aiven_latency "Topic_Get" r.project (call (λ _. x)))
            (λ topic. lift (topic_config_changed topic r.topic.spec.config) >>= λ changed.
              if changed then update r L else pure tt)
            (λ e. if is_not_found e then create r L else fail e)
            s)
  unfolding observe_aiven_latency
  answered-world (ok t, w) s = changed-world (topic_config_changed t r.topic.spec.config) _
  answered-world (err e, w) s = failed-world e _
  answered-world (panic, w) s = refl

  -- `Synchronize` reads the topic, and then makes at most one more call: it creates the topic if the
  -- answer was a 404, updates it if the answer differs from the configuration, and does nothing after
  -- any other error, in dry-run mode, or if the configuration fails the checks.
  pub synchronize-world :
      (s : Sys W)
      → EndsIn
          (world_after (r.aiven_topics.get r.project r.service (L.full_name r.topic) s.world))
          (synchronize r L s)
  unfolding synchronize observe_aiven_latency
  synchronize-world s =
      answered-world (r.aiven_topics.get r.project r.service (L.full_name r.topic) s.world) s

  -- In dry-run mode `Synchronize` reads the topic and changes nothing, however it ends.
  pub synchronize-world_dry :
      (s : Sys W)
      → r.dry_run ≡ true
      → EndsIn
          (r.aiven_topics.get r.project r.service (L.full_name r.topic) s.world).1
          (synchronize r L s)
  synchronize-world_dry s dry =
      synchronize-world s
      ∙ quiet (r.aiven_topics.get r.project r.service (L.full_name r.topic) s.world)
    where
      quiet : (x : Result (KafkaTopic N) × W) → world_after x ≡ x.1
      quiet (ok t, w) = ground arith
      quiet (err e, w) = ground arith
      quiet (panic, w) = refl
