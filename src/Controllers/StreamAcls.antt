-- ===== src/Controllers/StreamAcls.antt =====
-- What `handleDelete` of the stream controller does to the ACL entries, also in dry-run mode.
use package.text.Mathlib.Text.{starts_with}
use kafkarator.Base.{
  ◌≡◌, refl, sym, ap, ◌∙◌, true, false, String, ◌<>◌, List, [], ◌∷◌, string_eq, Bool-cases, inl,
  inr,
}
use kafkarator.Go.{Error, Result, ok, err, panic, text, error_text, Action, Sys, call, handle}
use kafkarator.Go.Posts.{Post, Post-handle, Post-map, Post-at}
use kafkarator.Go.Worlds.{Keeps, Keeps-handle}
use kafkarator.External.{Numeric, Liberator, Stream, StreamStatus, TopicAcl, KafkaListTopic}
use kafkarator.Metrics.Laws.{observe-world}
use kafkarator.Acl
use kafkarator.Acl.{Acl, contains_acl, topic_acls, get_wanted_acls, stream_adapter, stream_acls}
use kafkarator.Acl.Sets.{topic_acls-eq-nil}
use kafkarator.Acl.Store.{IsAclStore}
use kafkarator.Acl.Converge
use kafkarator.Controllers.Common.{Reconciler, project_whitelisted}
use kafkarator.Controllers.StreamProcess.{
  StreamReconcileResult, fail_result, stop, deleting_acls, delete_topic, delete_topics, deleted,
  delete_stream_topics, handle_delete,
}

module _ {N : Numeric} {W : Type 0} (L : Liberator N) (r : Reconciler N W)
    (show_acl : TopicAcl → String) (stream : Stream) (view : String → W → List Acl)
    (stores : (service : String) → IsAclStore r.aiven.acls stream.spec.pool service (view service))
    (listing : (service : String) (w : W)
      → view service (r.aiven.topics.list stream.spec.pool service w).1 ≡ view service w)
    (deleting : (service name : String) (w : W)
      → view service (r.aiven.topics.delete stream.spec.pool service name w).1
        ≡ view service w) where
  delete_topic-Keeps :
      (service name : String) (o : List Acl) (s : Sys W)
      → view service s.world ≡ o
      → Keeps (view service) o (delete_topic L r stream service name s)
  unfolding delete_topic
  delete_topic-Keeps service name o s h =
      ap (view service) (observe-world "Topic_Delete" stream.spec.pool _ s)
      ∙ elim (Bool-cases r.dry_run) [
        | inl dry ↦ rw dry h
        | inr live ↦ rw live (deleting service name s.world ∙ h)
      ]

  delete_topics-Keeps :
      (status : StreamStatus) (service : String) (topics : List KafkaListTopic) (o : List Acl)
      (s : Sys W)
      → view service s.world ≡ o
      → Keeps (view service) o (delete_topics L r stream status service topics s)
  unfolding delete_topics deleted
  delete_topics-Keeps status service [] o s h = h
  delete_topics-Keeps status service (t ∷ topics) o s h =
      let rest = delete_topics L r stream status service topics in
      elim (Bool-cases (starts_with t.topic_name (L.topic_prefix stream))) [
        | inl ours ↦ rw ours (
            Keeps-handle (view service) o (delete_topic L r stream service t.topic_name) (λ _. rest)
              (λ e.
                stop L r status
                  (text
                    ("failed to delete topic '" <> t.topic_name <> "' on Aiven: " <> error_text e))
                  L.event_failed_synchronization true)
              s (delete_topic-Keeps service t.topic_name o s h)
              (λ _ u k. delete_topics-Keeps status service topics o u k) (λ e u k. k))
        | inr foreign ↦ rw foreign (delete_topics-Keeps status service topics o s h)
      ]

  delete_stream_topics-Keeps :
      (status : StreamStatus) (service : String) (o : List Acl) (s : Sys W)
      → view service s.world ≡ o
      → Keeps (view service) o (delete_stream_topics L r stream status service s)
  unfolding delete_stream_topics
  delete_stream_topics-Keeps status service o s h =
      Keeps-handle (view service) o (call (r.aiven.topics.list stream.spec.pool service))
        (delete_topics L r stream status service)
        (λ e.
          stop L r status (text ("failed to list topics on Aiven: " <> error_text e))
            L.event_failed_synchronization true)
        s (listing service s.world ∙ h) (λ l u k. delete_topics-Keeps status service l o u k)
        (λ e u k. k)

  -- No entry for the stream's topics is left.
  abbrev Cleared : String → W → Type 0
  Cleared service w = topic_acls (view service w) (L.topic_wildcard stream) ≡ []

  acls-Cleared :
      (service : String) (s t : Sys W)
      → Acl.synchronize L.service_user_name_with_suffix (deleting_acls L r stream service) s
        ≡ (ok tt, t)
      → Cleared service t.world
  unfolding get_wanted_acls stream_adapter stream_acls
  acls-Cleared service s t h = topic_acls-eq-nil _ _ (λ e on_topic.
      ap (λ (x : Result (Unit {0}) × Sys W). contains_acl (view service x.1.world) e) (sym h)
      ∙ Converge.synchronize-converges L.service_user_name_with_suffix
          (deleting_acls L r stream service) (view service) (stores service) refl [] s refl
          (ap (λ x. x.0) h) e
      ∙ Converge.none_wanted (L.topic_wildcard stream) e _ on_topic)

  Cleared-kept :
      (service : String) (o : List Acl) (x : Result StreamReconcileResult × Sys W)
      → topic_acls o (L.topic_wildcard stream) ≡ []
      → Keeps (view service) o x
      → Post (λ _ t. Cleared service t.world) x
  Cleared-kept service o (ok _, t) h k = ap (λ l. topic_acls l (L.topic_wildcard stream)) k ∙ h
  Cleared-kept service o (err _, t) h k = tt
  Cleared-kept service o (panic, t) h k = tt

  -- A result that lets the stream go comes with no entry left.
  abbrev Freed : String → StreamReconcileResult → Sys W → Type 0
  Freed service x t = x.delete_finalized ≡ true → Cleared service t.world

  abbrev acls_failed : StreamStatus → Error → Action W StreamReconcileResult
  acls_failed status e =
      stop L r status
        (text (
          "failed to delete ACLs "
          <> show_acl (L.stream_acl stream)
          <> " on Aiven: "
          <> error_text e))
        L.event_failed_synchronization true

  abbrev topics_after : StreamStatus → String → Action W StreamReconcileResult
  topics_after status service =
      delete_stream_topics L r stream (record status { message = "Deleted Stream ACL" }) service

  -- What follows the look-up of the service.
  abbrev delete_in : StreamStatus → String → Action W StreamReconcileResult
  delete_in status service =
      handle (Acl.synchronize L.service_user_name_with_suffix (deleting_acls L r stream service))
        (λ _. topics_after status service) (acls_failed status)

  delete_in-Freed :
      (status : StreamStatus) (service : String) (s : Sys W)
      → Post (Freed service) (delete_in status service s)
  unfolding fail_result
  delete_in-Freed status service s =
      Post-handle (Freed service)
        (Acl.synchronize L.service_user_name_with_suffix (deleting_acls L r stream service))
        (λ _. topics_after status service) (acls_failed status) s
        (λ _ u e.
          Post-map (λ _ t. Cleared service t.world) (Freed service) (topics_after status service u)
            (λ x t h f. h)
            (Cleared-kept service (view service u.world) (topics_after status service u)
              (acls-Cleared service s u e)
              (delete_stream_topics-Keeps (record status { message = "Deleted Stream ACL" }) service
                (view service u.world) u refl)))
        (λ e u q f. cc)

  abbrev Released : Sys W → StreamReconcileResult → Sys W → Type 0
  Released s x t =
      x.delete_finalized ≡ true
      → (service : String) × ((r.aiven.resolve_kafka_service_name stream.spec.pool s.world).0
          ≡ ok service)
        × Cleared service t.world

  handle_delete-Released :
      (status : StreamStatus) (s : Sys W)
      → Post (Released s) (handle_delete L r show_acl stream status s)
  unfolding handle_delete fail_result
  handle_delete-Released status s =
      elim (Bool-cases (project_whitelisted r.projects stream.spec.pool)) [
        | inl listed ↦ rw listed (
            Post-handle (Released s) (call (r.aiven.resolve_kafka_service_name stream.spec.pool))
              (delete_in status) (λ e. stop L r status e L.event_failed_synchronization false) s
              (λ service t e.
                Post-map (Freed service) (Released s) (delete_in status service t)
                  (λ x v free f. (service, ap (λ y. y.0) e, free f))
                  (delete_in-Freed status service t))
              (λ a t e f. cc))
        | inr unlisted ↦ rw unlisted (λ f. cc)
      ]

  -- With ACL stores that are lawful and that the calls for topics leave alone: when `handleDelete` ends
  -- with a result that lets Kubernetes delete the stream, then no ACL entry for its topics is left in
  -- the service that its pool resolves to. This holds in dry-run mode too, where the entries are
  -- deleted as well.
  pub handle_delete-clears_acls :
      (status : StreamStatus) (s t : Sys W) (result : StreamReconcileResult)
      → handle_delete L r show_acl stream status s ≡ (ok result, t)
      → result.delete_finalized ≡ true
      → (service : String) × ((r.aiven.resolve_kafka_service_name stream.spec.pool s.world).0
          ≡ ok service)
        × (topic_acls (view service t.world) (L.topic_wildcard stream) ≡ [])
  handle_delete-clears_acls status s t result h =
      Post-at (Released s) (handle_delete L r show_acl stream status s) result t h
        (handle_delete-Released status s)
