-- ===== src/Controllers/TopicFinalize.antt =====
-- When `TopicReconciler.Process` lets go of a topic that is being deleted.
use kafkarator.Base.{◌<>◌}
use kafkarator.Base.{
  ◌≡◌, refl, sym, ◌∙◌, ap, true, false, String, List, [], if◌then◌else◌, is_some, Bool-cases, inl,
  inr, string_eq,
}
use kafkarator.Go.{text, error_text}
use kafkarator.Go.{Result, ok, Action, Sys, pure, call, lift}
use kafkarator.Go.Posts.{Post, Post-handle, Post-map, Post-at}
use kafkarator.External.{Numeric, Liberator, Topic, TopicStatus}
use kafkarator.Metrics.{observe_aiven_latency}
use kafkarator.Metrics.Laws.{observe-world}
use kafkarator.Acl
use kafkarator.Acl.{Acl, AclManager, contains_acl, topic_acls, topic_adapter, get_wanted_acls}
use kafkarator.Acl.Sets.{topic_acls-eq-nil}
use kafkarator.Acl.Store.{IsAclStore}
use kafkarator.Acl.Converge
use kafkarator.Controllers.Common.{
  Reconciler, Synchronizer, project_whitelisted, new_synchronizer, synchronize,
}
use kafkarator.Controllers.TopicProcess.{
  TopicReconcileResult, Outcome, fail_result, process, process_deletion, process_synchronization,
  run_synchronizer, process_changed, delete_data, deleted, deleting_acls, initial_status,
  with_defaults, shared_defaults, synchronized, stop, skip_result,
}

module _ {N : Numeric} {W : Type 0} (L : Liberator N) (r : Reconciler N W) where
  -- The result keeps the finalizer.
  abbrev Held : Outcome L r → Sys W → Type 0
  Held x _ = x.0.delete_finalized ≡ false

  run_synchronizer-Held :
      (caller : Topic N) (status : TopicStatus) (hash : String) (c : Synchronizer N W) (s : Sys W)
      → Post Held (run_synchronizer L r caller status hash c s)
  unfolding run_synchronizer fail_result
  run_synchronizer-Held caller status hash c s =
      Post-handle Held (synchronize L c) (λ _. synchronized L r caller status hash)
        (λ e. stop L r caller status e L.event_failed_synchronization true) s (λ a t e. refl)
        (λ a t e. refl)

  process_changed-Held :
      (caller topic : Topic N) (status : TopicStatus) (hash : String) (s : Sys W)
      → Post Held (process_changed L r caller topic status hash s)
  unfolding process_changed fail_result
  process_changed-Held caller topic status hash s =
      elim (Bool-cases (project_whitelisted r.projects topic.spec.pool)) [
        | inl listed ↦ rw listed (
            Post-handle Held (new_synchronizer L r topic) (run_synchronizer L r caller status hash)
              (λ e. stop L r caller status e L.event_failed_synchronization false) s
              (λ c t e. run_synchronizer-Held caller status hash c t) (λ a t e. refl))
        | inr unlisted ↦ rw unlisted refl
      ]

  process_synchronization-Held :
      (topic : Topic N) (status : TopicStatus) (s : Sys W)
      → Post Held (process_synchronization L r topic status s)
  unfolding process_synchronization fail_result
  process_synchronization-Held topic status s =
      let filled = with_defaults L r topic in
      let caller = shared_defaults L r topic in
      Post-handle Held (lift (L.topic_hash filled))
        (λ hash.
          if L.topic_needs_synchronization filled hash
          then process_changed L r caller filled status hash
          else pure (skip_result L r, caller))
        (λ _.
          stop L r caller status (text "unable to calculate synchronization hash")
            L.event_failed_prepare false)
        s
        (λ hash t e. elim (Bool-cases (L.topic_needs_synchronization filled hash)) [
          | inl needed ↦ rw needed (process_changed-Held caller filled status hash t)
          | inr done ↦ rw done refl
        ])
        (λ a t e. refl)

  module _ (topic : Topic N) (view : String → W → List Acl)
      (stores : (service : String) → IsAclStore r.aiven.acls topic.spec.pool service (view service))
      (deleting : (service : String) (w : W)
        → view service (r.aiven.topics.delete topic.spec.pool service (L.full_name topic) w).1
          ≡ view service w)
      (live : r.dry_run ≡ false) where
    -- No entry for the topic is left in the service.
    abbrev pub Cleared : String → W → Type 0
    Cleared service w =
        (e : Acl)
        → e.topic ≡ (deleting_acls L r topic service).source.topic_name
        → contains_acl (view service w) e ≡ false

    deleted_acls-Cleared :
        (service : String) (s t : Sys W)
        → Acl.synchronize L.service_user_name_with_suffix (deleting_acls L r topic service) s
          ≡ (ok tt, t)
        → Cleared service t.world
    unfolding get_wanted_acls topic_adapter
    deleted_acls-Cleared service s t h e on_topic =
        let m = deleting_acls L r topic service in
        ap (λ (x : Result (Unit {0}) × Sys W). contains_acl (view service x.1.world) e) (sym h)
        ∙ Converge.synchronize-converges L.service_user_name_with_suffix m (view service)
            (stores service) live [] s refl (ap (λ x. x.0) h) e
        ∙ Converge.none_wanted m.source.topic_name e _ on_topic

    -- A result that lets the topic go comes with no entry left.
    abbrev Freed : String → Outcome L r → Sys W → Type 0
    Freed service x t = x.0.delete_finalized ≡ true → Cleared service t.world

    deleted-Freed :
        (service : String) (status : TopicStatus) (message : String) (s : Sys W)
        → Cleared service s.world
        → Post (Freed service) (deleted L r topic status message s)
    unfolding deleted
    deleted-Freed service status message s h f = h

    abbrev removal : String → Action W (Unit {0})
    removal service =
        if r.dry_run
        then pure tt
        else call (r.aiven.topics.delete topic.spec.pool service (L.full_name topic))

    removal-Cleared :
        (service : String) (s t : Sys W)
        → (observe_aiven_latency "Topic_Delete" topic.spec.pool (removal service) s).1 ≡ t
        → Cleared service s.world
        → Cleared service t.world
    removal-Cleared service s t q h e on_topic =
        let same : view service (removal service s).1.world ≡ view service s.world =
          rw live (deleting service s.world) in
        let reached : view service t.world ≡ view service s.world =
          ap (λ (u : Sys W). view service u.world) (sym q)
          ∙ ap (view service) (observe-world "Topic_Delete" topic.spec.pool (removal service) s)
          ∙ same in
        ap (λ l. contains_acl l e) reached ∙ h e on_topic

    delete_data-Freed :
        (service : String) (status : TopicStatus) (s : Sys W)
        → Cleared service s.world
        → Post (Freed service) (delete_data L r topic status service s)
    unfolding delete_data fail_result
    delete_data-Freed service status s h =
        Post-handle (Freed service)
          (observe_aiven_latency "Topic_Delete" topic.spec.pool (removal service))
          (λ _. deleted L r topic status "Topic, ACLs and data permanently deleted")
          (λ e.
            if r.aiven_is_not_found e
            then deleted L r topic status "Topic, ACLs and data permanently deleted"
            else stop L r topic status (text ("failed to delete topic on Aiven: " <> error_text e))
                L.event_failed_synchronization true)
          s
          (λ a t e.
            deleted-Freed service status "Topic, ACLs and data permanently deleted" t
              (removal-Cleared service s t (ap (λ x. x.1) e) h))
          (λ e t q. elim (Bool-cases (r.aiven_is_not_found e)) [
            | inl missing ↦ rw missing (
                deleted-Freed service status "Topic, ACLs and data permanently deleted" t
                  (removal-Cleared service s t (ap (λ x. x.1) q) h))
            | inr other ↦ rw other (λ f. cc)
          ])

    process_deletion-Freed :
        (service : String) (status : TopicStatus) (s : Sys W)
        → Post (Freed service) (process_deletion L r topic status service s)
    unfolding process_deletion fail_result
    process_deletion-Freed service status s =
        Post-handle (Freed service)
          (Acl.synchronize L.service_user_name_with_suffix (deleting_acls L r topic service))
          (λ _.
            if L.remove_data_when_deleted topic
            then delete_data L r topic status service
            else deleted L r topic status "Topic and ACLs deleted, data kept")
          (λ e.
            stop L r topic status (text ("failed to delete ACLs on Aiven: " <> error_text e))
              L.event_failed_synchronization true)
          s
          (λ _ t e. elim (Bool-cases (L.remove_data_when_deleted topic)) [
            | inl purge ↦
                rw purge (delete_data-Freed service status t (deleted_acls-Cleared service s t e))
            | inr keep ↦ rw keep (
                deleted-Freed service status "Topic and ACLs deleted, data kept" t
                  (deleted_acls-Cleared service s t e))
          ])
          (λ e t q f. cc)

    -- A result lets the topic go only if it is being deleted, and no entry for it is left in the service
    -- that its pool resolves to.
    abbrev Released : Sys W → Outcome L r → Sys W → Type 0
    Released s x t =
        x.0.delete_finalized ≡ true
        → (is_some topic.meta.deletion_timestamp ≡ true)
          × (service : String) × ((r.aiven.resolve_kafka_service_name topic.spec.pool s.world).0
              ≡ ok service)
          × Cleared service t.world

    process-Released : (s : Sys W) → Post (Released s) (process L r topic s)
    unfolding process fail_result
    process-Released s =
        let status = initial_status L r topic in
        Post-handle (Released s) (call (r.aiven.resolve_kafka_service_name topic.spec.pool))
          (λ service.
            if is_some topic.meta.deletion_timestamp
            then process_deletion L r topic status service
            else process_synchronization L r topic status)
          (λ e. stop L r topic status e L.event_failed_synchronization false) s
          (λ service t e. elim (Bool-cases (is_some topic.meta.deletion_timestamp)) [
            | inl asked ↦ rw asked (
                Post-map (Freed service) (Released s) (process_deletion L r topic status service t)
                  (λ x u free f. (asked, service, ap (λ x. x.0) e, free f))
                  (process_deletion-Freed service status t))
            | inr alive ↦ rw alive (
                Post-map Held (Released s) (process_synchronization L r topic status t)
                  (λ x u held f. cc) (process_synchronization-Held topic status t))
          ])
          (λ e t q f. cc)

    -- Outside dry-run mode, with ACL stores that are lawful and that deleting a topic leaves alone:
    -- when `Process` ends with a result that lets Kubernetes delete the topic, then the topic is being
    -- deleted, and in the service that its pool resolves to no ACL entry for it is left.
    pub process-finalizes :
        (s t : Sys W) (result : TopicReconcileResult) (caller : Topic N)
        → process L r topic s ≡ (ok (result, caller), t)
        → result.delete_finalized ≡ true
        → (is_some topic.meta.deletion_timestamp ≡ true)
          × (service : String) × ((r.aiven.resolve_kafka_service_name topic.spec.pool s.world).0
              ≡ ok service)
          × (topic_acls (view service t.world) (deleting_acls L r topic service).source.topic_name
              ≡ [])
    process-finalizes s t result caller h freed =
        let (asked, service, resolved, cleared) =
          Post-at (Released s) (process L r topic s) (result, caller) t h (process-Released s)
            freed in
        (asked, service, resolved, topic_acls-eq-nil _ _ cleared)
