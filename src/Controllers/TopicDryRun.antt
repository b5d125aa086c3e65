-- ===== src/Controllers/TopicDryRun.antt =====
-- `TopicReconciler.Process` where it must not change Aiven.
use kafkarator.Base.{
  ◌≡◌, refl, ◌∙◌, ap, true, false, String, if◌then◌else◌, is_some, arith, Bool-cases, inl, inr,
}
use kafkarator.Go.{text}
use kafkarator.Go.{Error, Result, ok, err, panic, Action, Sys, pure, call, lift, ◌>>=◌, handle}
use kafkarator.Go.Worlds.{Keeps, Keeps-handle}
use kafkarator.External.{Numeric, Liberator, Topic, TopicStatus}
use kafkarator.Metrics.{observe_aiven_latency}
use kafkarator.Acl
use kafkarator.Acl.{AclApi, AclManager}
use kafkarator.Acl.DryRun
use kafkarator.Topic
use kafkarator.Topic.{TopicApi, TopicManager}
use kafkarator.Topic.Effects
use kafkarator.Controllers.Common.{
  Reconciler, Synchronizer, synchronizer_for, project_whitelisted, new_synchronizer, synchronize,
}
use kafkarator.Controllers.TopicProcess.{
  process, process_deletion, process_synchronization, run_synchronizer, process_changed,
  delete_data, deleted, deleting_acls, initial_status, with_defaults, shared_defaults, stop,
  skip_result,
}

-- What is observed of the world is not changed by reading from Aiven.
pub record IsReadOnly {N : Numeric} {W O : Type 0} (r : Reconciler N W) (obs : W → O) : Type 0 where
  pub resolving :
      (project : String) (w : W) → obs (r.aiven.resolve_kafka_service_name project w).1 ≡ obs w
  pub listing :
      (project service : String) (w : W) → obs (r.aiven.acls.list project service w).1 ≡ obs w
  pub getting :
      (project service name : String) (w : W)
      → obs (r.aiven.topics.get project service name w).1 ≡ obs w

module _ {N : Numeric} {W O : Type 0} (L : Liberator N) (r : Reconciler N W) (obs : W → O)
    (reads : IsReadOnly r obs) (o : O) where
  resolve-Keeps :
      {B : Type 0} (pool : String) (k : String → Action W B) (f : Error → Action W B) (s : Sys W)
      → obs s.world ≡ o
      → ((a : String) (t : Sys W) → obs t.world ≡ o → Keeps obs o (k a t))
      → ((e : Error) (t : Sys W) → obs t.world ≡ o → Keeps obs o (f e t))
      → Keeps obs o (handle (call (r.aiven.resolve_kafka_service_name pool)) k f s)
  resolve-Keeps pool k f s h g i =
      Keeps-handle obs o (call (r.aiven.resolve_kafka_service_name pool)) k f s
        (reads.resolving pool s.world ∙ h) g i

  module _ (dry : r.dry_run ≡ true) where
    delete_data-Keeps :
        (topic : Topic N) (status : TopicStatus) (service : String) (s : Sys W)
        → obs s.world ≡ o
        → Keeps obs o (delete_data L r topic status service s)
    unfolding delete_data observe_aiven_latency
    delete_data-Keeps topic status service s h = rw dry h

    acls-Keeps :
        (m : AclManager W) (s : Sys W)
        → m.aiven_acls ≡ r.aiven.acls
        → m.dry_run ≡ r.dry_run
        → obs s.world ≡ o
        → Keeps obs o (Acl.synchronize L.service_user_name_with_suffix m s)
    acls-Keeps m s api same h =
        ap obs (DryRun.synchronize_dry m (same ∙ dry) L.service_user_name_with_suffix s)
        ∙ ap (λ (a : AclApi W). obs (a.list m.project m.service s.world).1) api
        ∙ reads.listing m.project m.service s.world
        ∙ h

    process_deletion-Keeps :
        (topic : Topic N) (status : TopicStatus) (service : String) (s : Sys W)
        → obs s.world ≡ o
        → Keeps obs o (process_deletion L r topic status service s)
    unfolding process_deletion deleted
    process_deletion-Keeps topic status service s h =
        let m = deleting_acls L r topic service in
        let x = Acl.synchronize L.service_user_name_with_suffix m s in
        ground (arith, acls-Keeps m s refl refl h, delete_data-Keeps topic status service x.1)

    topics-Keeps :
        (m : TopicManager N W) (s : Sys W)
        → m.aiven_topics ≡ r.aiven.topics
        → m.dry_run ≡ r.dry_run
        → obs s.world ≡ o
        → Keeps obs o (Topic.synchronize m L s)
    topics-Keeps m s api same h =
        ap obs (Effects.synchronize-world_dry m L s (same ∙ dry))
        ∙ ap (λ (a : TopicApi N W). obs (a.get m.project m.service (L.full_name m.topic) s.world).1)
            api
        ∙ reads.getting m.project m.service (L.full_name m.topic) s.world
        ∙ h

    synchronizer-Keeps :
        (c : Synchronizer N W) (s : Sys W)
        → c.acls.aiven_acls ≡ r.aiven.acls
        → c.acls.dry_run ≡ r.dry_run
        → c.topics.aiven_topics ≡ r.aiven.topics
        → c.topics.dry_run ≡ r.dry_run
        → obs s.world ≡ o
        → Keeps obs o (synchronize L c s)
    unfolding synchronize
    synchronizer-Keeps c s a d b e h =
        let x = Acl.synchronize L.service_user_name_with_suffix c.acls s in
        ground (arith, acls-Keeps c.acls s a d h, topics-Keeps c.topics x.1 b e)

    run_synchronizer-Keeps :
        (caller topic : Topic N) (status : TopicStatus) (hash service : String) (s : Sys W)
        → obs s.world ≡ o
        → Keeps obs o
            (run_synchronizer L r caller status hash (synchronizer_for L r topic service) s)
    unfolding run_synchronizer
    run_synchronizer-Keeps caller topic status hash service s h =
        ground
          (arith, synchronizer-Keeps (synchronizer_for L r topic service) s refl refl refl refl h)

    resolved-Keeps :
        (caller topic : Topic N) (status : TopicStatus) (hash : String) (s : Sys W)
        (x : Result String × W)
        → obs x.1 ≡ o
        → Keeps obs o (
            handle
              (call (λ _. x) >>= λ service. pure (synchronizer_for L r topic service))
              (run_synchronizer L r caller status hash)
              (λ e. stop L r caller status e L.event_failed_synchronization false)
              s)
    resolved-Keeps caller topic status hash s (ok service, w) h =
        run_synchronizer-Keeps caller topic status hash service (record s { world = w }) h
    resolved-Keeps caller topic status hash s (err e, w) h = h
    resolved-Keeps caller topic status hash s (panic, w) h = h

    process_changed-Keeps :
        (caller topic : Topic N) (status : TopicStatus) (hash : String) (s : Sys W)
        → obs s.world ≡ o
        → Keeps obs o (process_changed L r caller topic status hash s)
    unfolding process_changed new_synchronizer
    process_changed-Keeps caller topic status hash s h =
        elim (Bool-cases (project_whitelisted r.projects topic.spec.pool)) [
          | inl listed ↦ rw listed (
              resolved-Keeps caller topic status hash s
                (r.aiven.resolve_kafka_service_name topic.spec.pool s.world)
                (reads.resolving topic.spec.pool s.world ∙ h))
          | inr unlisted ↦ rw unlisted h
        ]

    hashed-Keeps :
        (caller topic : Topic N) (status : TopicStatus) (x : Result String) (s : Sys W)
        → obs s.world ≡ o
        → Keeps obs o (
            handle
              (lift x)
              (λ hash.
                if L.topic_needs_synchronization topic hash
                then process_changed L r caller topic status hash
                else pure (skip_result L r, caller))
              (λ _.
                stop L r caller status
                  (text "unable to calculate synchronization hash")
                  L.event_failed_prepare
                  false)
              s)
    hashed-Keeps caller topic status (ok hash) s h =
        elim (Bool-cases (L.topic_needs_synchronization topic hash)) [
          | inl needed ↦ rw needed (process_changed-Keeps caller topic status hash s h)
          | inr done ↦ rw done h
        ]
    hashed-Keeps caller topic status (err e) s h = h
    hashed-Keeps caller topic status panic s h = h

    process_synchronization-Keeps :
        (topic : Topic N) (status : TopicStatus) (s : Sys W)
        → obs s.world ≡ o
        → Keeps obs o (process_synchronization L r topic status s)
    unfolding process_synchronization
    process_synchronization-Keeps topic status s h =
        hashed-Keeps (shared_defaults L r topic) (with_defaults L r topic) status
          (L.topic_hash (with_defaults L r topic)) s h

    -- In dry-run mode `Process` of a topic changes nothing in Aiven, in every branch, also that of a
    -- deletion: whatever reading from Aiven leaves alone is as it was.
    pub process_dry :
        (topic : Topic N) (s : Sys W) → obs s.world ≡ o → Keeps obs o (process L r topic s)
    unfolding process
    process_dry topic s h =
        resolve-Keeps topic.spec.pool
          (λ service.
            if is_some topic.meta.deletion_timestamp
            then process_deletion L r topic (initial_status L r topic) service
            else process_synchronization L r topic (initial_status L r topic))
          (λ e. stop L r topic (initial_status L r topic) e L.event_failed_synchronization false) s
          h
          (λ service t k. elim (Bool-cases (is_some topic.meta.deletion_timestamp)) [
            | inl deleting ↦ rw deleting (process_deletion-Keeps topic _ service t k)
            | inr alive ↦ rw alive (process_synchronization-Keeps topic _ t k)
          ])
          (λ e t k. k)
