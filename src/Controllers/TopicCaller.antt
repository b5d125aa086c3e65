-- ===== src/Controllers/TopicCaller.antt =====
-- `TopicReconciler.Process` leaves the metadata of the caller's topic alone.
use kafkarator.Base.{
  ◌≡◌, Bool, true, false, String, ◌<>◌, if◌then◌else◌, is_some, Bool-cases, inl, inr,
}
use kafkarator.Go.{text, error_text, Sys, pure, call, lift}
use kafkarator.Go.Posts.{Post, Post-handle}
use kafkarator.External.{Numeric, Liberator, Topic, TopicStatus, ObjectMeta}
use kafkarator.Metrics.{observe_aiven_latency}
use kafkarator.Acl
use kafkarator.Controllers.Common.{
  Reconciler, Synchronizer, project_whitelisted, new_synchronizer, synchronize,
}
use kafkarator.Controllers.TopicProcess.{
  Outcome, process, process_deletion, process_synchronization, run_synchronizer, process_changed,
  delete_data, deleted, deleting_acls, initial_status, with_defaults, shared_defaults, synchronized,
  stop, skip_result,
}

module _ {N : Numeric} {W : Type 0} (L : Liberator N) (r : Reconciler N W) (meta : ObjectMeta) where
  -- The caller's topic has this metadata.
  abbrev Named : Outcome L r → Sys W → Type 0
  Named x _ = x.1.meta ≡ meta

  run_synchronizer-Named :
      (caller : Topic N) (status : TopicStatus) (hash : String) (c : Synchronizer N W) (s : Sys W)
      → caller.meta ≡ meta
      → Post Named (run_synchronizer L r caller status hash c s)
  unfolding run_synchronizer
  run_synchronizer-Named caller status hash c s h =
      Post-handle Named (synchronize L c) (λ _. synchronized L r caller status hash)
        (λ e. stop L r caller status e L.event_failed_synchronization true) s (λ a t e. h)
        (λ a t e. h)

  process_changed-Named :
      (caller topic : Topic N) (status : TopicStatus) (hash : String) (s : Sys W)
      → caller.meta ≡ meta
      → Post Named (process_changed L r caller topic status hash s)
  unfolding process_changed
  process_changed-Named caller topic status hash s h =
      elim (Bool-cases (project_whitelisted r.projects topic.spec.pool)) [
        | inl listed ↦ rw listed (
            Post-handle Named (new_synchronizer L r topic) (run_synchronizer L r caller status hash)
              (λ e. stop L r caller status e L.event_failed_synchronization false) s
              (λ c t e. run_synchronizer-Named caller status hash c t h) (λ a t e. h))
        | inr unlisted ↦ rw unlisted h
      ]

  either-Named :
      (b : Bool) (x y : Topic N) → x.meta ≡ meta → y.meta ≡ meta → (if b then x else y).meta ≡ meta
  either-Named true x y h k = h
  either-Named false x y h k = k

  process_synchronization-Named :
      (topic : Topic N) (status : TopicStatus) (s : Sys W)
      → topic.meta ≡ meta
      → Post Named (process_synchronization L r topic status s)
  unfolding process_synchronization shared_defaults with_defaults
  process_synchronization-Named topic status s h =
      let filled = with_defaults L r topic in
      let caller = shared_defaults L r topic in
      let named : caller.meta ≡ meta = either-Named (is_some topic.spec.config) filled topic h h in
      Post-handle Named (lift (L.topic_hash filled))
        (λ hash.
          if L.topic_needs_synchronization filled hash
          then process_changed L r caller filled status hash
          else pure (skip_result L r, caller))
        (λ _.
          stop L r caller status (text "unable to calculate synchronization hash")
            L.event_failed_prepare false)
        s
        (λ hash t e. elim (Bool-cases (L.topic_needs_synchronization filled hash)) [
          | inl needed ↦ rw needed (process_changed-Named caller filled status hash t named)
          | inr done ↦ rw done named
        ])
        (λ a t e. named)

  delete_data-Named :
      (topic : Topic N) (status : TopicStatus) (service : String) (s : Sys W)
      → topic.meta ≡ meta
      → Post Named (delete_data L r topic status service s)
  unfolding delete_data deleted
  delete_data-Named topic status service s h =
      Post-handle Named
        (observe_aiven_latency "Topic_Delete" topic.spec.pool (
          if r.dry_run
          then pure tt
          else call (r.aiven.topics.delete topic.spec.pool service (L.full_name topic))))
        (λ _. deleted L r topic status "Topic, ACLs and data permanently deleted")
        (λ e.
          if r.aiven_is_not_found e
          then deleted L r topic status "Topic, ACLs and data permanently deleted"
          else stop L r topic status (text ("failed to delete topic on Aiven: " <> error_text e))
              L.event_failed_synchronization true)
        s (λ a t e. h)
        (λ e t q. elim (Bool-cases (r.aiven_is_not_found e)) [
          | inl missing ↦ rw missing h
          | inr other ↦ rw other h
        ])

  process_deletion-Named :
      (topic : Topic N) (status : TopicStatus) (service : String) (s : Sys W)
      → topic.meta ≡ meta
      → Post Named (process_deletion L r topic status service s)
  unfolding process_deletion deleted
  process_deletion-Named topic status service s h =
      Post-handle Named
        (Acl.synchronize L.service_user_name_with_suffix (deleting_acls L r topic service))
        (λ _.
          if L.remove_data_when_deleted topic
          then delete_data L r topic status service
          else deleted L r topic status "Topic and ACLs deleted, data kept")
        (λ e.
          stop L r topic status (text ("failed to delete ACLs on Aiven: " <> error_text e))
            L.event_failed_synchronization true)
        s
        (λ _ t e. elim (Bool-cases (L.remove_data_when_deleted topic)) [
          | inl purge ↦ rw purge (delete_data-Named topic status service t h)
          | inr keep ↦ rw keep h
        ])
        (λ e t q. h)

  pub process-Named :
      (topic : Topic N) (s : Sys W)
      → topic.meta ≡ meta
      → Post (λ x t. x.1.meta ≡ meta) (process L r topic s)
  unfolding process
  process-Named topic s h =
      let status = initial_status L r topic in
      Post-handle Named (call (r.aiven.resolve_kafka_service_name topic.spec.pool))
        (λ service.
          if is_some topic.meta.deletion_timestamp
          then process_deletion L r topic status service
          else process_synchronization L r topic status)
        (λ e. stop L r topic status e L.event_failed_synchronization false) s
        (λ service t e. elim (Bool-cases (is_some topic.meta.deletion_timestamp)) [
          | inl asked ↦ rw asked (process_deletion-Named topic status service t h)
          | inr alive ↦ rw alive (process_synchronization-Named topic status t h)
        ])
        (λ e t q. h)
