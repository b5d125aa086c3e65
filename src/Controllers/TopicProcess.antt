-- ===== src/Controllers/TopicProcess.antt =====
-- controllers/topic_controller.go: `TopicReconciler.Process`.
use kafkarator.Base.{
  Bool, true, false, String, ◌<>◌, [], ◌∷◌, Option, none, some, if◌then◌else◌, is_some,
}
use kafkarator.Go.{Error, text, error_text, Action, pure, lift, call, ask, ◌>>=◌, handle}
use kafkarator.External.{Numeric, Liberator, Topic, TopicStatus}
use kafkarator.Metrics.{observe_aiven_latency}
use kafkarator.Acl
use kafkarator.Acl.{AclManager, topic_adapter}
use kafkarator.Topic.{config_or_empty}
use kafkarator.Controllers.Common.{
  Reconciler, Synchronizer, project_whitelisted, describe_failure, failed_with, new_synchronizer,
  synchronize,
}

pub record TopicReconcileResult : Type 0 where
  pub delete_finalized : Bool
  pub skipped : Bool
  pub requeue : Bool
  pub status : TopicStatus
  pub error : Option Error

abbrev pub zero_status : TopicStatus
zero_status = record {
  synchronization_state = "";
  synchronization_hash = "";
  synchronization_time = "";
  errors = [];
  message = "";
  fully_qualified_name = "";
  latest_aiven_sync_failure = "";
}

-- The closure `fail`, on the status so far and the time.
unfoldable pub fail_result : TopicStatus → Error → String → Bool → String → TopicReconcileResult
unfolding describe_failure failed_with
fail_result status e state retry now =
    let f = describe_failure e in
    record {
      delete_finalized = false;
      skipped = false;
      requeue = retry;
      status = record status {
        message = f.message;
        errors = f.entry ∷ [];
        synchronization_state = state;
        latest_aiven_sync_failure = if retry then status.latest_aiven_sync_failure else now;
      };
      error = some (failed_with state f);
    }

module _ {N : Numeric} {W : Type 0} (L : Liberator N) (r : Reconciler N W) where
  -- The result, and the topic of the caller: `Process` has a copy of it, whose configuration is the
  -- caller's own if it is not nil.
  abbrev pub Outcome : Type 0
  Outcome = TopicReconcileResult × Topic N

  abbrev pub stop : Topic N → TopicStatus → Error → String → Bool → Action W Outcome
  stop caller status e state retry =
      ask r.now >>= λ now. pure (fail_result status e state retry now, caller)

  unfoldable pub initial_status : Topic N → TopicStatus
  initial_status topic = elim topic.status [
    | none ↦ record zero_status { fully_qualified_name = L.full_name topic }
    | some status ↦ record status { fully_qualified_name = L.full_name topic }
  ]

  -- The end of a deletion.
  unfoldable pub deleted : Topic N → TopicStatus → String → Action W Outcome
  deleted topic status message = ask r.now >>= λ now. pure (
    record {
      delete_finalized = true;
      skipped = false;
      requeue = false;
      status = record status { message = message; synchronization_time = now; errors = [] };
      error = none;
    },
    topic,
  )

  -- The ACL manager of a deletion: `strippedTopic` wants no entries.
  abbrev pub deleting_acls : Topic N → String → AclManager W
  deleting_acls topic service = record {
    aiven_acls = r.aiven.acls;
    project = topic.spec.pool;
    service = service;
    source = topic_adapter L (record topic { spec = record topic.spec { acl = [] } });
    dry_run = r.dry_run;
  }

  -- The part that removes the topic and its data from Aiven.
  unfoldable pub delete_data : Topic N → TopicStatus → String → Action W Outcome
  unfolding deleted
  delete_data topic status service =
      handle
        (observe_aiven_latency "Topic_Delete" topic.spec.pool (
          if r.dry_run
          then pure tt
          else call (r.aiven.topics.delete topic.spec.pool service (L.full_name topic))))
        (λ _. deleted topic status "Topic, ACLs and data permanently deleted")
        (λ e.
          if r.aiven_is_not_found e
          then deleted topic status "Topic, ACLs and data permanently deleted"
          else stop topic status (text ("failed to delete topic on Aiven: " <> error_text e))
              L.event_failed_synchronization true)

  -- The branch for a topic that is being deleted.
  unfoldable pub process_deletion : Topic N → TopicStatus → String → Action W Outcome
  unfolding deleted delete_data
  process_deletion topic status service =
      handle (Acl.synchronize L.service_user_name_with_suffix (deleting_acls topic service))
        (λ _.
          if L.remove_data_when_deleted topic
          then delete_data topic status service
          else deleted topic status "Topic and ACLs deleted, data kept")
        (λ e.
          stop topic status (text ("failed to delete ACLs on Aiven: " <> error_text e))
            L.event_failed_synchronization true)

  -- `topic.Spec.Config.ApplyDefaults()`, after a nil configuration has been replaced.
  unfoldable pub with_defaults : Topic N → Topic N
  with_defaults topic = record topic {
    spec = record topic.spec {
      config = some (L.apply_defaults (config_or_empty topic.spec.config));
    };
  }

  -- The caller's topic afterwards: the defaults are its own unless its configuration is nil.
  unfoldable pub shared_defaults : Topic N → Topic N
  unfolding with_defaults
  shared_defaults topic = if is_some topic.spec.config then with_defaults topic else topic

  -- The end of a synchronization.
  unfoldable pub synchronized : Topic N → TopicStatus → String → Action W Outcome
  synchronized caller status hash = ask r.now >>= λ now. pure (
    record {
      delete_finalized = false;
      skipped = false;
      requeue = false;
      status = record status {
        synchronization_time = now;
        synchronization_state = L.event_rollout_complete;
        synchronization_hash = hash;
        message = "Topic configuration synchronized to Kafka pool";
        errors = [];
        latest_aiven_sync_failure = "";
      };
      error = none;
    },
    caller,
  )

  -- The result with which an unchanged topic is passed over.
  abbrev pub skip_result : TopicReconcileResult
  skip_result = record {
    delete_finalized = false;
    skipped = true;
    requeue = false;
    status = zero_status;
    error = none;
  }

  -- The run of the synchronizer, and the result after it.
  unfoldable pub run_synchronizer :
      Topic N → TopicStatus → String → Synchronizer N W → Action W Outcome
  unfolding synchronized
  run_synchronizer caller status hash c =
      handle (synchronize L c) (λ _. synchronized caller status hash)
        (λ e. stop caller status e L.event_failed_synchronization true)

  -- From the whitelist on; `topic` has its defaults.
  unfoldable pub process_changed : Topic N → Topic N → TopicStatus → String → Action W Outcome
  unfolding run_synchronizer
  process_changed caller topic status hash =
      if project_whitelisted r.projects topic.spec.pool
      then handle (new_synchronizer L r topic) (run_synchronizer caller status hash)
          (λ e. stop caller status e L.event_failed_synchronization false)
      else stop caller status
          (text ("pool '" <> topic.spec.pool <> "' cannot be used in this cluster"))
          L.event_failed_prepare false

  -- The branch for a topic that is not being deleted.
  unfoldable pub process_synchronization : Topic N → TopicStatus → Action W Outcome
  unfolding with_defaults shared_defaults process_changed
  process_synchronization original status =
      let topic = with_defaults original in
      let caller = shared_defaults original in
      handle (lift (L.topic_hash topic))
        (λ hash.
          if L.topic_needs_synchronization topic hash
          then process_changed caller topic status hash
          else pure (skip_result, caller))
        (λ _.
          stop caller status (text "unable to calculate synchronization hash")
            L.event_failed_prepare false)

  -- `Process`
  unfoldable pub process : Topic N → Action W Outcome
  unfolding initial_status process_deletion process_synchronization
  process topic =
      let status = initial_status topic in
      handle (call (r.aiven.resolve_kafka_service_name topic.spec.pool))
        (λ service.
          if is_some topic.meta.deletion_timestamp
          then process_deletion topic status service
          else process_synchronization topic status)
        (λ e. stop topic status e L.event_failed_synchronization false)
