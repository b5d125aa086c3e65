-- ===== src/Controllers/StreamDelete.antt =====
-- Which topics `handleDelete` of the stream controller deletes.
use package.text.Mathlib.Text.{starts_with}
use kafkarator.Base.{
  ◌≡◌, refl, sym, ap, ◌∙◌, true, false, not, String, ◌<>◌, List, [], ◌∷◌, map, select, ◌==◌,
  string_eq, Bool-cases, inl, inr,
}
use kafkarator.Go.{Error, Result, ok, err, panic, text, error_text, Action, Sys, call, handle}
use kafkarator.Go.Posts.{Post, Post-handle, Post-map, Post-at}
use kafkarator.External.{Numeric, Liberator, Stream, StreamStatus, TopicAcl, KafkaListTopic}
use kafkarator.Metrics.{observe_aiven_latency}
use kafkarator.Acl
use kafkarator.Acl.Untouched.{synchronize-Keeps}
use kafkarator.Controllers.Common.{Reconciler, project_whitelisted}
use kafkarator.Controllers.TopicNames.{
  without, unprefixed, without-cons, without-skip, without-nil, contains_refl, without-unprefixed,
  ListedTopics, DeletedTopic, IsTopicStore,
}
use kafkarator.Controllers.StreamProcess.{
  StreamReconcileResult, fail_result, stop, deleting_acls, delete_topic, deleted, delete_topics,
  delete_stream_topics, handle_delete,
}

module _ {N : Numeric} {W : Type 0} (L : Liberator N) (r : Reconciler N W)
    (show_acl : TopicAcl → String) (stream : Stream) (names : String → W → List String)
    (store : IsTopicStore r stream.spec.pool names) (live : r.dry_run ≡ false) where
  abbrev prefix : String
  prefix = L.topic_prefix stream

  -- A result that lets the stream go comes with these names.
  abbrev Left : String → List String → StreamReconcileResult → Sys W → Type 0
  Left service l x t = x.delete_finalized ≡ true → names service t.world ≡ l

  delete_topic-names :
      (service name : String) (s u : Sys W)
      → delete_topic L r stream service name s ≡ (ok tt, u)
      → names service u.world ≡ select (λ n. not (n == name)) (names service s.world)
  unfolding delete_topic observe_aiven_latency
  delete_topic-names service name s u h =
      go (r.aiven.topics.delete stream.spec.pool service name s.world)
        (store.removed service name s.world) (rw live at h)
    where
      go :
          (x : Result (Unit {0}) × W)
          → DeletedTopic (names service) s.world name x
          → observe_aiven_latency "Topic_Delete" stream.spec.pool (call (λ _. x)) s ≡ (ok tt, u)
          → names service u.world ≡ select (λ n. not (n == name)) (names service s.world)
      go (ok _, w) k e = ap (λ y. names service y.1.world) (sym e) ∙ k
      go (err _, w) k e = cc
      go (panic, w) k e = cc

  delete_topics-Left :
      (status : StreamStatus) (service : String) (topics : List KafkaListTopic) (s : Sys W)
      → Post
          (Left service (without prefix (map (λ t. t.topic_name) topics) (names service s.world)))
          (delete_topics L r stream status service topics s)
  unfolding delete_topics deleted fail_result
  delete_topics-Left status service [] s = λ f. sym (without-nil prefix (names service s.world))
  delete_topics-Left status service (t ∷ topics) s =
      let gone = map (λ t. t.topic_name) topics in
      let rest = delete_topics L r stream status service topics in
      elim (Bool-cases (starts_with t.topic_name prefix)) [
        | inl ours ↦ rw ours (
            Post-handle (Left service _) (delete_topic L r stream service t.topic_name) (λ _. rest)
              (λ e.
                stop L r status
                  (text
                    ("failed to delete topic '" <> t.topic_name <> "' on Aiven: " <> error_text e))
                  L.event_failed_synchronization true)
              s
              (λ _ u e.
                Post-map (Left service (without prefix gone (names service u.world)))
                  (Left service (without prefix (t.topic_name ∷ gone) (names service s.world)))
                  (rest u)
                  (λ x v k f.
                    k f
                    ∙ ap (without prefix gone) (delete_topic-names service t.topic_name s u e)
                    ∙ without-cons prefix t.topic_name gone (names service s.world) ours)
                  (delete_topics-Left status service topics u))
              (λ e u q f. cc))
        | inr foreign ↦ rw foreign (
            Post-map (Left service (without prefix gone (names service s.world)))
              (Left service (without prefix (t.topic_name ∷ gone) (names service s.world))) (rest s)
              (λ x v k f.
                k f ∙ without-skip prefix t.topic_name gone (names service s.world) foreign)
              (delete_topics-Left status service topics s))
      ]

  delete_stream_topics-Left :
      (status : StreamStatus) (service : String) (s : Sys W)
      → Post
          (Left service (unprefixed prefix (names service s.world)))
          (delete_stream_topics L r stream status service s)
  unfolding delete_stream_topics fail_result
  delete_stream_topics-Left status service s =
      go (r.aiven.topics.list stream.spec.pool service s.world) (store.listed service s.world)
    where
      go :
          (x : Result (List KafkaListTopic) × W)
          → ListedTopics (names service) s.world x
          → Post (Left service (unprefixed prefix (names service s.world))) (
              handle
                (call (λ _. x))
                (delete_topics L r stream status service)
                (λ e.
                  stop L r status
                    (text ("failed to list topics on Aiven: " <> error_text e))
                    L.event_failed_synchronization
                    true)
                s)
      go (ok l, w) k =
          Post-map (Left service (without prefix (map (λ t. t.topic_name) l) (names service w)))
            (Left service (unprefixed prefix (names service s.world)))
            (delete_topics L r stream status service l (record s { world = w }))
            (λ x v h f.
              h f
              ∙ ap (λ m. without prefix m (names service w)) k.0
              ∙ ap (without prefix (names service s.world)) k.1
              ∙ without-unprefixed prefix (names service s.world) (names service s.world)
                  (contains_refl (names service s.world)))
            (delete_topics-Left status service l (record s { world = w }))
      go (err e, w) k = λ f. cc
      go (panic, w) k = tt

  acls-names :
      (service : String) (s t : Sys W)
      → Acl.synchronize L.service_user_name_with_suffix (deleting_acls L r stream service) s
        ≡ (ok tt, t)
      → names service t.world ≡ names service s.world
  acls-names service s t e =
      ap (λ (x : Result (Unit {0}) × Sys W). names service x.1.world) (sym e)
      ∙ synchronize-Keeps (deleting_acls L r stream service) (names service) (store.acls service)
          (names service s.world) L.service_user_name_with_suffix s refl

  -- What a result that lets the stream go comes with: the service, and the names that are left.
  abbrev Cleaned : Sys W → StreamReconcileResult → Sys W → Type 0
  Cleaned s x t =
      x.delete_finalized ≡ true
      → (service : String) × ((r.aiven.resolve_kafka_service_name stream.spec.pool s.world).0
          ≡ ok service)
        × (names service t.world ≡ unprefixed prefix (names service s.world))

  abbrev acls_deleted : StreamStatus → StreamStatus
  acls_deleted status = record status { message = "Deleted Stream ACL" }

  abbrev acls_failed : StreamStatus → Error → Action W StreamReconcileResult
  acls_failed status e =
      stop L r status
        (text (
          "failed to delete ACLs "
          <> show_acl (L.stream_acl stream)
          <> " on Aiven: "
          <> error_text e))
        L.event_failed_synchronization true

  -- What follows the look-up of the service.
  abbrev delete_in : StreamStatus → String → Action W StreamReconcileResult
  delete_in status service =
      handle (Acl.synchronize L.service_user_name_with_suffix (deleting_acls L r stream service))
        (λ _. delete_stream_topics L r stream (acls_deleted status) service) (acls_failed status)

  delete_in-Left :
      (status : StreamStatus) (service : String) (s : Sys W)
      → Post (Left service (unprefixed prefix (names service s.world))) (delete_in status service s)
  unfolding fail_result
  delete_in-Left status service s =
      Post-handle (Left service (unprefixed prefix (names service s.world)))
        (Acl.synchronize L.service_user_name_with_suffix (deleting_acls L r stream service))
        (λ _. delete_stream_topics L r stream (acls_deleted status) service) (acls_failed status) s
        (λ _ u q.
          Post-map (Left service (unprefixed prefix (names service u.world)))
            (Left service (unprefixed prefix (names service s.world)))
            (delete_stream_topics L r stream (acls_deleted status) service u)
            (λ x v k f. k f ∙ ap (unprefixed prefix) (acls-names service s u q))
            (delete_stream_topics-Left (acls_deleted status) service u))
        (λ e u q f. cc)

  handle_delete-Cleaned :
      (status : StreamStatus) (s : Sys W)
      → Post (Cleaned s) (handle_delete L r show_acl stream status s)
  unfolding handle_delete fail_result
  handle_delete-Cleaned status s =
      elim (Bool-cases (project_whitelisted r.projects stream.spec.pool)) [
        | inl listed ↦ rw listed (
            Post-handle (Cleaned s) (call (r.aiven.resolve_kafka_service_name stream.spec.pool))
              (delete_in status) (λ e. stop L r status e L.event_failed_synchronization false) s
              (λ service t e.
                Post-map (Left service (unprefixed prefix (names service t.world))) (Cleaned s)
                  (delete_in status service t)
                  (λ x v k f. (
                    service,
                    ap (λ y. y.0) e,
                    k f
                        ∙ ap (unprefixed prefix) (
                            ap (λ (y : Result String × Sys W). names service y.1.world) (sym e)
                            ∙ store.resolved service s.world),
                  ))
                  (delete_in-Left status service t))
              (λ a t e f. cc))
        | inr unlisted ↦ rw unlisted (λ f. cc)
      ]

  -- Outside dry-run mode: when `handleDelete` ends with a result that lets Kubernetes delete the
  -- stream, then in the service that its pool resolves to exactly the topics with the stream's prefix
  -- are gone, and all others are there. This relies on `Topics.List` giving all topics of the service.
  pub handle_delete-removes :
      (status : StreamStatus) (s t : Sys W) (result : StreamReconcileResult)
      → handle_delete L r show_acl stream status s ≡ (ok result, t)
      → result.delete_finalized ≡ true
      → (service : String) × ((r.aiven.resolve_kafka_service_name stream.spec.pool s.world).0
          ≡ ok service)
        × (names service t.world ≡ unprefixed prefix (names service s.world))
  handle_delete-removes status s t result h =
      Post-at (Cleaned s) (handle_delete L r show_acl stream status s) result t h
        (handle_delete-Cleaned status s)
