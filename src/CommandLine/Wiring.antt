-- ===== src/CommandLine/Wiring.antt =====
-- What the topic reconciler that the program starts does at the end of a topic.
use kafkarator.Base.{
  ◌≡◌, refl, ◌∙◌, Bool, true, false, String, ◌<>◌, List, [], map, is_some, if◌then◌else◌,
}
use kafkarator.Go.{Error, ok, text, error_text, Sys, pure, fail, call, ◌>>=◌}
use kafkarator.Go.Posts.{Post, Post-handle, Post-bind, Post-at}
use kafkarator.External.{Numeric, Liberator, Topic, KafkaAcl}
use kafkarator.Acl.{Acl, AclApi, from_kafka_acl, topic_acls}
use kafkarator.Acl.Store.{IsAclStore}
use kafkarator.Adapter.AivenGoClient
use kafkarator.Adapter.GoClientCodegen
use kafkarator.Adapter.GoClientCodegen.{AclOut, make_acl}
use kafkarator.Adapter.StoreLaws.{IsGeneratedStore, acl_client-IsAclStore}
use kafkarator.Adapter.HandlerLaws.{IsHandlerStore, handler-IsAclStore}
use kafkarator.Controllers.TopicProcess.{TopicReconcileResult, process, deleting_acls}
use kafkarator.Controllers.TopicFinalize.{process-finalizes}
use kafkarator.CommandLine.Start.{
  Settings, FeatureFlags, Libraries, Running, or_quit, reconciler_for, topic_collector_for,
  metadata_collector_for, acl_collector_for, acl_client_for, start_with, start_reconcilers,
}

module _ {N : Numeric} {C D W : Type 0} (lib : Libraries N C D W) (project : String)
    (entries : String → W → List KafkaAcl) (entries_out : String → W → List AclOut)
    (handlers : (c : C) (service : String)
      → IsHandlerStore (lib.kafka_acls c) project service (entries service))
    (generated : (d : D) (service : String)
      → IsGeneratedStore (lib.generated d) project service (entries_out service))
    (settings : Settings) (flags : FeatureFlags) where
  -- The entries of a service, as the client sees them that the flag selects.
  abbrev pub seen : Bool → String → W → List Acl
  seen true service w = map make_acl (entries_out service w)
  seen false service w = map from_kafka_acl (entries service w)

  abbrev IsStore : AclApi W → Sys W → Type 0
  IsStore api t =
      (service : String) → IsAclStore api project service (seen flags.generated_client service)

  selected :
      (b : Bool) (c : C) (s : Sys W)
      → Post
          (λ api (t : Sys W). (service : String) → IsAclStore api project service (seen b service))
          ((if b
              then or_quit lib "unable to set up aiven client"
                  (call (lib.new_client settings.aiven_token))
                  (λ d. pure (GoClientCodegen.acl_client (lib.generated d)))
              else pure (AivenGoClient.acl_client (lib.kafka_acls c)))
            s)
  selected true c s =
      Post-handle (λ api t. (service : String) → IsAclStore api project service (seen true service))
        (call (lib.new_client settings.aiven_token))
        (λ d. pure (GoClientCodegen.acl_client (lib.generated d)))
        (λ e. fail (text ("unable to set up aiven client" <> ": " <> error_text e))) s
        (λ d t e service.
          acl_client-IsAclStore (lib.generated d) project service (entries_out service)
            (generated d service))
        (λ e t q. tt)
  selected false c s = λ service.
      handler-IsAclStore (lib.kafka_acls c) project service (entries service) (handlers c service)

  acl_client_for-IsStore :
      (c : C) (s : Sys W) → Post IsStore (acl_client_for lib settings flags c s)
  unfolding acl_client_for
  acl_client_for-IsStore c s = selected flags.generated_client c s

  -- What a start gives to its reconcilers.
  abbrev IsWired : Running N W → Type 0
  IsWired r =
      ((service : String)
        → IsAclStore r.topic_reconciler.aiven.acls project service
            (seen flags.generated_client service))
      × (r.topic_reconciler.dry_run ≡ settings.dry_run)

  start_with-IsWired :
      (c : C) (api : AclApi W) (s t : Sys W)
      → IsStore api t
      → Post (λ r u. IsWired r) (start_with lib settings c api s)
  unfolding start_with
  start_with-IsWired c api s t h =
      let r = reconciler_for lib settings c api in
      let running : Running N W = record {
        topic_reconciler = r;
        stream_reconciler = r;
        topic_collector = topic_collector_for lib settings c;
        metadata_collector = metadata_collector_for lib settings c;
        acl_collector = acl_collector_for lib settings c;
      } in
      let quit_with = λ (message : String) (e : Error).
        fail {W = W} {A = Running N W} (text (message <> ": " <> error_text e)) in
      let streams =
        or_quit lib "unable to set up streamReconciler" (call (lib.set_up_streams r))
          (λ _. pure running) in
      Post-handle (λ r u. IsWired r) (call (lib.set_up_topics r)) (λ _. streams)
        (quit_with "unable to set up topicReconciler") s
        (λ _ u e.
          Post-handle (λ r u. IsWired r) (call (lib.set_up_streams r)) (λ _. pure running)
            (quit_with "unable to set up streamReconciler") u (λ _ v f. (h, refl)) (λ e v q. tt))
        (λ e u q. tt)

  start_reconcilers-Post :
      (s : Sys W) → Post (λ r u. IsWired r) (start_reconcilers lib settings flags s)
  unfolding start_reconcilers
  start_reconcilers-Post s =
      let next = λ (c : C). acl_client_for lib settings flags c >>= start_with lib settings c in
      Post-handle (λ r u. IsWired r) (call (lib.new_token_client settings.aiven_token)) next
        (λ e. fail (text ("unable to set up aiven client" <> ": " <> error_text e))) s
        (λ c t e.
          Post-bind (λ r u. IsWired r) (acl_client_for lib settings flags c)
            (start_with lib settings c) t
            (λ api u f.
              start_with-IsWired c api u u
                (Post-at IsStore _ api u f (acl_client_for-IsStore c t))))
        (λ e t q. tt)

  module _ (L : Liberator N) (topic : Topic N) (pool : topic.spec.pool ≡ project)
      (live : settings.dry_run ≡ false) (s u : Sys W) (program : Running N W)
      (started : start_reconcilers lib settings flags s ≡ (ok program, u))
      (deleting : (service : String) (w : W)
        → seen flags.generated_client service
            (program.topic_reconciler.aiven.topics.delete topic.spec.pool service
              (L.full_name topic)
              w).1
          ≡ seen flags.generated_client service w) where
    -- If both client libraries keep their contract for the project of a topic, and deleting the topic
    -- leaves the ACL entries alone, then in a program that has been started outside dry-run mode,
    -- whatever the feature flag: when `Process` of its topic reconciler, in any later state, ends with
    -- a result that lets Kubernetes delete the topic, then the topic is being deleted, and in the
    -- service that its pool resolves to no ACL entry for it is left, as the client that the flag
    -- selects sees them.
    pub started-finalizes :
        (v t : Sys W) (result : TopicReconcileResult) (caller : Topic N)
        → process L program.topic_reconciler topic v ≡ (ok (result, caller), t)
        → result.delete_finalized ≡ true
        → (is_some topic.meta.deletion_timestamp ≡ true)
          × (service : String) × ((program.topic_reconciler.aiven.resolve_kafka_service_name
                topic.spec.pool v.world).0
              ≡ ok service)
          × (topic_acls
                (seen flags.generated_client service t.world)
                (deleting_acls L program.topic_reconciler topic service).source.topic_name
              ≡ [])
    started-finalizes =
        let (stores, same) =
          Post-at (λ r u. IsWired r) (start_reconcilers lib settings flags s) program u started
            (start_reconcilers-Post s) in
        process-finalizes L program.topic_reconciler topic (seen flags.generated_client)
          (λ service. rw pool (stores service)) deleting (same ∙ live)
