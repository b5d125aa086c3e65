-- ===== src/Topic/Twice.antt =====
-- Two runs of `Manager.Synchronize`: on a topic that does not exist yet, and on one that differs.
use kafkarator.Base.{◌≡◌, ap, ◌∙◌, true, false, Option, none, some, if◌then◌else◌}
use kafkarator.Go.{Error, ok, err, panic, Sys}
use kafkarator.Go.Worlds.{EndsIn}
use kafkarator.External.{Numeric, Liberator, Config, KafkaTopic}
use kafkarator.Topic.Changed.{topic_config_changed}
use kafkarator.Topic.Manager.{
  TopicManager, config_or_empty, checked, create_request, update_request, synchronize, is_not_found,
}
use kafkarator.Topic.Effects.{created_world, updated_world, world_after, synchronize-world}
use kafkarator.Topic.Applied.{IsOrdered, IsApplied}
use kafkarator.Topic.Settles.{update-settles}
use kafkarator.Topic.Creation.{IsCreated, create-settles}

module _ {N : Numeric} {W : Type 0} (r : TopicManager N W) (L : Liberator N) (config : Config N)
    (ratio : Option N.Float64) (o : IsOrdered N) (set : r.topic.spec.config ≡ some config)
    (live : r.dry_run ≡ false) (valid : checked config ≡ ok ratio) where
  creation :
      (w v : W)
      → r.aiven_topics.create r.project r.service
          (create_request (L.full_name r.topic) config ratio (r.now w))
          w
        ≡ (ok tt, v)
      → created_world r L w ≡ v
  creation w v made =
      ap
        (λ c. elim (checked (config_or_empty c)) [
          | ok q ↦
              (r.aiven_topics.create r.project r.service
                (create_request (L.full_name r.topic) (config_or_empty c) q (r.now w)) w).1
          | err _ ↦ w
          | panic ↦ w
        ])
        set
      ∙ ap
          (λ x. elim x [
            | ok q ↦
                (r.aiven_topics.create r.project r.service
                  (create_request (L.full_name r.topic) config q (r.now w)) w).1
            | err _ ↦ w
            | panic ↦ w
          ])
          valid
      ∙ ap (λ x. x.1) made

  missing_topic :
      (e : Error) (w v : W)
      → is_not_found e ≡ true
      → created_world r L w ≡ v
      → world_after r L (err e, w) ≡ v
  missing_topic e w v absent made = rw (absent, live) made

  settled_topic :
      (new : KafkaTopic N) (u : W)
      → topic_config_changed new (some config) ≡ ok false
      → world_after r L (ok new, u) ≡ u
  settled_topic new u same =
      ap
        (λ x. elim x [
          | ok changed ↦ if changed then (if r.dry_run then u else updated_world r L u) else u
          | err _ ↦ u
          | panic ↦ u
        ])
        (ap (topic_config_changed new) set ∙ same)

  -- Outside dry-run mode, with a configuration that passes the checks, for a topic that Aiven does not
  -- have: if the creation that `Synchronize` requests is applied, then a second `Synchronize` only
  -- reads the topic, whatever defaults Aiven has. The ratio that was sent must equal itself as a
  -- float.
  pub synchronize-settles :
      (s : Sys W) (e : Error) (w v u : W) (defaults new : KafkaTopic N)
      → r.aiven_topics.get r.project r.service (L.full_name r.topic) s.world ≡ (err e, w)
      → is_not_found e ≡ true
      → r.aiven_topics.create r.project r.service
          (create_request (L.full_name r.topic) config ratio (r.now w))
          w
        ≡ (ok tt, v)
      → r.aiven_topics.get r.project r.service (L.full_name r.topic) v ≡ (ok new, u)
      → IsCreated (create_request (L.full_name r.topic) config ratio (r.now w)) defaults new
      → EndsIn u (synchronize r L (synchronize r L s).1)
  synchronize-settles s e w v u defaults new missing absent made found applied =
      let t = (synchronize r L s).1 in
      let first : t.world ≡ v =
        synchronize-world r L s
        ∙ ap (world_after r L) missing
        ∙ missing_topic e w v absent (creation w v made) in
      synchronize-world r L t
      ∙ ap (λ x. world_after r L (r.aiven_topics.get r.project r.service (L.full_name r.topic) x))
          first
      ∙ ap (world_after r L) found
      ∙ settled_topic new u
          (create-settles config ratio (L.full_name r.topic) (r.now w) defaults new applied o valid)

  updating :
      (w v : W)
      → r.aiven_topics.update r.project r.service
          (L.full_name r.topic)
          (update_request config ratio (r.now w))
          w
        ≡ (ok tt, v)
      → updated_world r L w ≡ v
  updating w v made =
      ap
        (λ c. elim (checked (config_or_empty c)) [
          | ok q ↦
              (r.aiven_topics.update r.project r.service (L.full_name r.topic)
                (update_request (config_or_empty c) q (r.now w)) w).1
          | err _ ↦ w
          | panic ↦ w
        ])
        set
      ∙ ap
          (λ x. elim x [
            | ok q ↦
                (r.aiven_topics.update r.project r.service (L.full_name r.topic)
                  (update_request config q (r.now w)) w).1
            | err _ ↦ w
            | panic ↦ w
          ])
          valid
      ∙ ap (λ x. x.1) made

  stale_topic :
      (old : KafkaTopic N) (w v : W)
      → topic_config_changed old (some config) ≡ ok true
      → updated_world r L w ≡ v
      → world_after r L (ok old, w) ≡ v
  stale_topic old w v differs made =
      ap
        (λ x. elim x [
          | ok changed ↦ if changed then (if r.dry_run then w else updated_world r L w) else w
          | err _ ↦ w
          | panic ↦ w
        ])
        (ap (topic_config_changed old) set ∙ differs)
      ∙ rw live made

  -- Outside dry-run mode, with a configuration that passes the checks and sets no
  -- `DeleteRetentionHours`, for a topic that `topicConfigChanged` finds changed: if the update that
  -- `Synchronize` requests is applied, then a second `Synchronize` only reads the topic. The ratio that
  -- was sent must equal itself as a float.
  pub synchronize-updates :
      (s : Sys W) (w v u : W) (old new : KafkaTopic N)
      → config.delete_retention_hours ≡ none
      → r.aiven_topics.get r.project r.service (L.full_name r.topic) s.world ≡ (ok old, w)
      → topic_config_changed old (some config) ≡ ok true
      → r.aiven_topics.update r.project r.service
          (L.full_name r.topic)
          (update_request config ratio (r.now w))
          w
        ≡ (ok tt, v)
      → r.aiven_topics.get r.project r.service (L.full_name r.topic) v ≡ (ok new, u)
      → IsApplied (update_request config ratio (r.now w)) old new
      → EndsIn u (synchronize r L (synchronize r L s).1)
  synchronize-updates s w v u old new unset had differs made found applied =
      let t = (synchronize r L s).1 in
      let first : t.world ≡ v =
        synchronize-world r L s
        ∙ ap (world_after r L) had
        ∙ stale_topic old w v differs (updating w v made) in
      synchronize-world r L t
      ∙ ap (λ x. world_after r L (r.aiven_topics.get r.project r.service (L.full_name r.topic) x))
          first
      ∙ ap (world_after r L) found
      ∙ settled_topic new u (update-settles config ratio (r.now w) old new applied o valid unset)
