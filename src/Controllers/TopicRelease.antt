-- ===== src/Controllers/TopicRelease.antt =====
-- When `TopicReconciler.Reconcile` takes the finalizer off a topic in Kubernetes.
use kafkarator.Base.{
  ℤ, ◌≡◌, refl, ap, ◌∙◌, true, false, String, List, [], Option, none, some, if◌then◌else◌, is_some,
  Bool-cases, inl, inr, ◌⊎◌, contains, string_eq,
}
use kafkarator.Base.Int.{pos}
use kafkarator.Go.{Error, Result, ok, err, panic, Action, Sys, pure, call, handle, ◌>>=◌}
use kafkarator.Go.Posts.{Post-at}
use kafkarator.Go.Worlds.{EndsIn}
use kafkarator.External.{Numeric, Liberator, Topic, ObjectMeta}
use kafkarator.Acl.{Acl, topic_acls}
use kafkarator.Acl.Store.{IsAclStore}
use kafkarator.Controllers.Common.{Reconciler, finalizer}
use kafkarator.Controllers.TopicProcess.{TopicReconcileResult, process, deleting_acls}
use kafkarator.Controllers.TopicReconcile.{
  with_finalizer, with_status, written_back, finish, requeue_after, conclude, reconcile,
}
use kafkarator.Controllers.TopicCaller.{process-Named}
use kafkarator.Controllers.TopicFinalize.{process-finalizes}

module _ {N : Numeric} {W : Type 0} (L : Liberator N) (r : Reconciler N W) where
  -- The topic that is written back, if `Process` has not passed over the resource.
  abbrev pub update_of : Topic N → TopicReconcileResult → Topic N
  update_of topic result =
      if is_some result.error
      then with_status L r topic result.status
      else written_back L r topic result

  updated-EndsIn :
      (x : Result (Unit {0}) × W) (k : Action W ℤ) (h : Action W ℤ) (s : Sys W)
      → ((t : Sys W) → (k t).1.world ≡ t.world)
      → ((t : Sys W) → (h t).1.world ≡ t.world)
      → EndsIn x.1 (handle (call (λ _. x)) (λ _. k) (λ _. h) s)
  updated-EndsIn (ok _, w) k h s f g = f (record s { world = w })
  updated-EndsIn (err _, w) k h s f g = g (record s { world = w })
  updated-EndsIn (panic, w) k h s f g = refl

  conclude_error :
      (topic : Topic N) (result : TopicReconcileResult) (t : Sys W) (o : Option Error)
      → result.error ≡ o
      → result.skipped ≡ false
      → EndsIn
          (r.client.update_topic (update_of topic result) t.world).1
          (conclude L r topic result t)
  unfolding conclude
  conclude_error topic result t (some e) h k =
      let done = finish L r topic result (requeue_after L r result.requeue) in
      rw (k, h)
        (updated-EndsIn (r.client.update_topic (with_status L r topic result.status) t.world) done
          done t (λ u. refl) (λ u. refl))
  conclude_error topic result t none h k =
      rw (k, h)
        (updated-EndsIn (r.client.update_topic (written_back L r topic result) t.world)
          (finish L r topic result (pos 0)) (finish L r topic result (requeue_after L r true)) t
          (λ u. refl) (λ u. refl))

  module _ (topic : Topic N) (view : String → W → List Acl)
      (stores : (service : String) → IsAclStore r.aiven.acls topic.spec.pool service (view service))
      (deleting : (service : String) (w : W)
        → view service
            (r.aiven.topics.delete topic.spec.pool service
              (L.full_name (with_finalizer L r topic))
              w).1
          ≡ view service w)
      (live : r.dry_run ≡ false)
      (adding : (l : List String)
        → contains (r.client.add_finalizer l finalizer) finalizer ≡ true) where
    -- The topic still has Kafkarator's finalizer.
    abbrev pub IsHeld : Topic N → Type 0
    IsHeld x = contains x.meta.finalizers finalizer ≡ true

    -- The topic is being deleted, and no entry for it is left in the service of its pool.
    abbrev pub IsGone : W → W → Type 0
    IsGone before after =
        (is_some topic.meta.deletion_timestamp ≡ true)
        × (service : String) × ((r.aiven.resolve_kafka_service_name topic.spec.pool before).0
            ≡ ok service)
        × (topic_acls (view service after)
              (deleting_acls L r (with_finalizer L r topic) service).source.topic_name
            ≡ [])

    update_of-Held :
        (caller : Topic N) (result : TopicReconcileResult) (s t : Sys W)
        → process L r (with_finalizer L r topic) s ≡ (ok (result, caller), t)
        → IsHeld (update_of caller result) ⊎ IsGone s.world t.world
    unfolding with_finalizer written_back
    update_of-Held caller result s t h =
        let named : caller.meta ≡ (with_finalizer L r topic).meta =
          Post-at (λ x (u : Sys W). x.1.meta ≡ (with_finalizer L r topic).meta) _ (result, caller) t
            h
            (process-Named L r (with_finalizer L r topic).meta (with_finalizer L r topic) s refl) in
        let held : IsHeld caller =
          ap (λ (m : ObjectMeta). contains m.finalizers finalizer) named
          ∙ adding topic.meta.finalizers in
        elim (Bool-cases (is_some result.error)) [
          | inl failed ↦ rw failed (inl held)
          | inr fine ↦ elim (Bool-cases result.delete_finalized) [
            | inl freed ↦ inr (
                process-finalizes L r (with_finalizer L r topic) view stores deleting live s t
                  result caller h freed)
            | inr kept ↦ rw (fine, kept) (inl held)
          ]
        ]

    -- Outside dry-run mode, with ACL stores that are lawful and that deleting a topic leaves alone,
    -- if `AddFinalizer` adds the finalizer, the topic can be read, and `Process` has succeeded and
    -- has not passed over the resource: `Reconcile` ends with exactly one update of the topic in
    -- Kubernetes, and what it writes still has Kafkarator's finalizer, unless the topic is being
    -- deleted and no ACL entry for it is left in the service of its pool.
    pub reconcile-releases :
        (namespace name : String) (s t : Sys W) (w : W) (result : TopicReconcileResult)
        (caller : Topic N)
        → r.client.get_topic namespace name s.world ≡ (ok topic, w)
        → process L r (with_finalizer L r topic) (record s { world = w }) ≡ (ok (result, caller), t)
        → result.skipped ≡ false
        → (written : Topic N) × EndsIn
            (r.client.update_topic written t.world).1
            (reconcile L r namespace name s)
          × (IsHeld written ⊎ IsGone w t.world)
    unfolding reconcile
    reconcile-releases namespace name s t w result caller found processed taken =
        let finish_with : TopicReconcileResult × Topic N → Action W ℤ =
          λ (res, top). conclude L r top res in
        let after_process : Result (TopicReconcileResult × Topic N) × Sys W → W =
          λ y. (((λ _. y) >>= finish_with) s).1.world in
        let after_get : Result (Topic N) × W → W = λ x.
          (handle (call (λ _. x)) (λ top. process L r (with_finalizer L r top) >>= finish_with)
            (λ e. pure (requeue_after L r (if r.client.is_not_found e then false else true)))
            s).1.world in
        (
          update_of caller result,
          ap after_get found
              ∙ ap after_process processed
              ∙ conclude_error caller result t result.error refl taken,
          update_of-Held caller result (record s { world = w }) t processed,
        )
