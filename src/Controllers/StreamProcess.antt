-- ===== src/Controllers/StreamProcess.antt =====
-- controllers/stream_controller.go: `StreamReconciler.Process` and `handleDelete`.
use package.text.Mathlib.Text.{starts_with}
use kafkarator.Base.{
  Bool, true, false, String, ◌<>◌, List, [], ◌∷◌, Option, none, some, if◌then◌else◌, is_some,
}
use kafkarator.Go.{Error, text, error_text, Action, pure, lift, call, ask, ◌>>=◌, handle}
use kafkarator.External.{Numeric, Liberator, Stream, StreamStatus, TopicAcl, KafkaListTopic}
use kafkarator.Metrics.{observe_aiven_latency}
use kafkarator.Acl
use kafkarator.Acl.{AclManager, stream_adapter}
use kafkarator.Controllers.Common.{Reconciler, project_whitelisted, describe_failure, failed_with}

pub record StreamReconcileResult : Type 0 where
  pub delete_finalized : Bool
  pub skipped : Bool
  pub requeue : Bool
  pub status : StreamStatus
  pub error : Option Error

abbrev pub zero_status : StreamStatus
zero_status = record {
  synchronization_state = "";
  synchronization_hash = "";
  synchronization_time = "";
  errors = [];
  message = "";
  fully_qualified_topic_prefix = "";
}

-- The closure `fail`, on the status so far.
unfoldable pub fail_result : StreamStatus → Error → String → Bool → StreamReconcileResult
unfolding describe_failure failed_with
fail_result status e state retry =
    let f = describe_failure e in
    record {
      delete_finalized = false;
      skipped = false;
      requeue = retry;
      status = record status {
        message = f.message;
        errors = f.entry ∷ [];
        synchronization_state = state;
      };
      error = some (failed_with state f);
    }

module _ {N : Numeric} {W : Type 0} (L : Liberator N) (r : Reconciler N W) where
  abbrev pub stop : StreamStatus → Error → String → Bool → Action W StreamReconcileResult
  stop status e state retry = pure (fail_result status e state retry)

  unfoldable pub initial_status : Stream → StreamStatus
  initial_status stream = elim stream.status [
    | none ↦ record zero_status { fully_qualified_topic_prefix = L.topic_prefix stream }
    | some status ↦ record status { fully_qualified_topic_prefix = L.topic_prefix stream }
  ]

  -- The text of the error for a pool that is not in `Projects`.
  abbrev pub pool_error : Stream → Error
  pool_error stream = text ("pool '" <> stream.spec.pool <> "' cannot be used in this cluster")

  -- The ACL manager of a deletion: it has no `DryRun`.
  abbrev pub deleting_acls : Stream → String → AclManager W
  deleting_acls stream service = record {
    aiven_acls = r.aiven.acls;
    project = stream.spec.pool;
    service = service;
    source = stream_adapter L stream true;
    dry_run = false;
  }

  -- The call in the loop of `handleDelete`.
  unfoldable pub delete_topic : Stream → String → String → Action W (Unit {0})
  delete_topic stream service name =
      observe_aiven_latency "Topic_Delete" stream.spec.pool
        (if r.dry_run then pure tt else call (r.aiven.topics.delete stream.spec.pool service name))

  -- The end of `handleDelete`.
  unfoldable pub deleted : StreamStatus → Action W StreamReconcileResult
  deleted status = ask r.now >>= λ now. pure (record {
    delete_finalized = true;
    skipped = false;
    requeue = false;
    status = record status {
      message = "Stream, ACLs and data permanently deleted";
      synchronization_time = now;
      errors = [];
    };
    error = none;
  })

  -- The loop of `handleDelete` over the topics of the service, and what follows it.
  unfoldable pub delete_topics :
      Stream → StreamStatus → String → List KafkaListTopic → Action W StreamReconcileResult
  unfolding deleted delete_topic
  delete_topics stream status service [] = deleted status
  delete_topics stream status service (t ∷ topics) =
      let rest = delete_topics stream status service topics in
      if starts_with t.topic_name (L.topic_prefix stream)
      then handle (delete_topic stream service t.topic_name) (λ _. rest)
          (λ e.
            stop status
              (text ("failed to delete topic '" <> t.topic_name <> "' on Aiven: " <> error_text e))
              L.event_failed_synchronization true)
      else rest

  -- `handleDelete`, from the list of the topics on.
  unfoldable pub delete_stream_topics :
      Stream → StreamStatus → String → Action W StreamReconcileResult
  unfolding delete_topics
  delete_stream_topics stream status service =
      handle (call (r.aiven.topics.list stream.spec.pool service))
        (delete_topics stream status service)
        (λ e.
          stop status (text ("failed to list topics on Aiven: " <> error_text e))
            L.event_failed_synchronization true)

  module _ (show_acl : TopicAcl → String) where
    -- `handleDelete`. `show_acl` is how `%s` prints the stream's own entry.
    unfoldable pub handle_delete : Stream → StreamStatus → Action W StreamReconcileResult
    unfolding delete_stream_topics
    handle_delete stream status =
        if project_whitelisted r.projects stream.spec.pool
        then handle (call (r.aiven.resolve_kafka_service_name stream.spec.pool))
            (λ service.
              handle
                (Acl.synchronize L.service_user_name_with_suffix (deleting_acls stream service))
                (λ _.
                  delete_stream_topics stream (record status { message = "Deleted Stream ACL" })
                    service)
                (λ e.
                  stop status
                    (text (
                      "failed to delete ACLs "
                      <> show_acl (L.stream_acl stream)
                      <> " on Aiven: "
                      <> error_text e))
                    L.event_failed_synchronization true))
            (λ e. stop status e L.event_failed_synchronization false)
        else stop status (pool_error stream) L.event_failed_prepare false

    -- The end of a synchronization.
    unfoldable pub synchronized : StreamStatus → String → Action W StreamReconcileResult
    synchronized status hash = ask r.now >>= λ now. pure (record {
      delete_finalized = false;
      skipped = false;
      requeue = false;
      status = record status {
        synchronization_time = now;
        synchronization_state = L.event_rollout_complete;
        synchronization_hash = hash;
        message = "Stream configuration synchronized to Kafka pool";
        errors = [];
      };
      error = none;
    })

    abbrev pub skip_result : StreamReconcileResult
    skip_result = record {
      delete_finalized = false;
      skipped = true;
      requeue = false;
      status = zero_status;
      error = none;
    }

    -- From the whitelist on.
    unfoldable pub process_changed : Stream → StreamStatus → String → Action W StreamReconcileResult
    unfolding synchronized
    process_changed stream status hash =
        if project_whitelisted r.projects stream.spec.pool
        then handle (call (r.aiven.resolve_kafka_service_name stream.spec.pool))
            (λ service.
              handle
                (Acl.synchronize L.service_user_name_with_suffix (record {
                  aiven_acls = r.aiven.acls;
                  project = stream.spec.pool;
                  service = service;
                  source = stream_adapter L stream false;
                  dry_run = r.dry_run;
                }))
                (λ _. synchronized status hash)
                (λ e. stop status e L.event_failed_synchronization true))
            (λ e. stop status e L.event_failed_synchronization false)
        else stop status (pool_error stream) L.event_failed_prepare false

    -- `Process`
    unfoldable pub process : Stream → Action W StreamReconcileResult
    unfolding initial_status handle_delete process_changed
    process stream =
        let status = initial_status stream in
        if is_some stream.meta.deletion_timestamp
        then handle_delete stream status
        else handle (lift (L.stream_hash stream))
            (λ hash.
              if L.stream_needs_synchronization stream hash
              then process_changed stream status hash
              else pure skip_result)
            (λ _.
              stop status (text "unable to calculate synchronization hash") L.event_failed_prepare
                false)
