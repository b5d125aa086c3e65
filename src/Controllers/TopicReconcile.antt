-- ===== src/Controllers/TopicReconcile.antt =====
-- controllers/topic_controller.go: `TopicReconciler.Reconcile`. The logging is left out.
use kafkarator.Base.{ℤ, Bool, true, false, String, none, some, if◌then◌else◌}
use kafkarator.Base.Int.{pos}
use kafkarator.Go.{Action, pure, call, count, ◌>>=◌, ◌>>◌, handle}
use kafkarator.External.{Numeric, Liberator, Topic, TopicStatus}
use kafkarator.Controllers.Common.{Reconciler, finalizer}
use kafkarator.Controllers.TopicProcess.{TopicReconcileResult, process}

module _ {N : Numeric} {W : Type 0} (L : Liberator N) (r : Reconciler N W) where
  -- The closure `fail`: `ctrl.Result` by its field `RequeueAfter`, 0 if there is none.
  abbrev pub requeue_after : Bool → ℤ
  requeue_after requeue = if requeue then r.requeue_interval else pos 0

  unfoldable pub with_finalizer : Topic N → Topic N
  with_finalizer topic = record topic {
    meta = record topic.meta {
      finalizers = r.client.add_finalizer topic.meta.finalizers finalizer;
    };
  }

  unfoldable pub without_finalizer : Topic N → Topic N
  without_finalizer topic = record topic {
    meta = record topic.meta {
      finalizers = r.client.remove_finalizer topic.meta.finalizers finalizer;
    };
  }

  abbrev pub with_status : Topic N → TopicStatus → Topic N
  with_status topic status = record topic { status = some status }

  -- The deferred increment of `TopicsProcessed`, and the return.
  abbrev pub finish : Topic N → TopicReconcileResult → ℤ → Action W ℤ
  finish topic result after =
      count (record {
        counter = "topics_processed";
        synchronization_state = result.status.synchronization_state;
        pool = topic.spec.pool;
      })
      >> pure after

  -- The topic that is written back after a success.
  unfoldable pub written_back : Topic N → TopicReconcileResult → Topic N
  unfolding without_finalizer
  written_back topic result =
      with_status (if result.delete_finalized then without_finalizer topic else topic) result.status

  -- From the result of `Process` on.
  unfoldable pub conclude : Topic N → TopicReconcileResult → Action W ℤ
  unfolding written_back
  conclude topic result = if result.skipped then pure (pos 0) else elim result.error [
    | some _ ↦
        handle (call (r.client.update_topic (with_status topic result.status)))
          (λ _. finish topic result (requeue_after result.requeue))
          (λ _. finish topic result (requeue_after result.requeue))
    | none ↦
        handle (call (r.client.update_topic (written_back topic result)))
          (λ _. finish topic result (pos 0)) (λ _. finish topic result (requeue_after true))
  ]

  -- `Reconcile`
  unfoldable pub reconcile : String → String → Action W ℤ
  unfolding with_finalizer conclude
  reconcile namespace name =
      handle (call (r.client.get_topic namespace name))
        (λ topic. process L r (with_finalizer topic) >>= λ (result, caller). conclude caller result)
        (λ e. pure (requeue_after (if r.client.is_not_found e then false else true)))
