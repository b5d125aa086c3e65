-- ===== src/Controllers/StreamReconcile.antt =====
-- controllers/stream_controller.go: `StreamReconciler.Reconcile`. The logging is left out.
use kafkarator.Base.{ℤ, Bool, true, false, String, List, none, some, if◌then◌else◌}
use kafkarator.Base.Int.{pos}
use kafkarator.Go.{Action, pure, call, count, ◌>>=◌, ◌>>◌, handle}
use kafkarator.External.{Numeric, Liberator, Stream, StreamStatus, TopicAcl}
use kafkarator.Controllers.Common.{Reconciler, finalizer}
use kafkarator.Controllers.StreamProcess.{StreamReconcileResult, process}

module _ {N : Numeric} {W : Type 0} (L : Liberator N) (r : Reconciler N W)
    (show_acl : TopicAcl → String) where
  -- The closure `fail`: `ctrl.Result` by its field `RequeueAfter`, 0 if there is none.
  abbrev pub requeue_after : Bool → ℤ
  requeue_after requeue = if requeue then r.requeue_interval else pos 0

  abbrev pub with_finalizers : Stream → (List String) → Stream
  with_finalizers stream fs = record stream { meta = record stream.meta { finalizers = fs } }

  abbrev pub with_status : Stream → StreamStatus → Stream
  with_status stream status = record stream { status = some status }

  -- The deferred increment of `StreamsProcessed`, and the return.
  abbrev pub finish : Stream → StreamReconcileResult → ℤ → Action W ℤ
  finish stream result after =
      count (record {
        counter = "streams_processed";
        synchronization_state = result.status.synchronization_state;
        pool = stream.spec.pool;
      })
      >> pure after

  -- The stream that is written back after a success: its finalizer is set or removed.
  unfoldable pub written_back : Stream → StreamReconcileResult → Stream
  written_back stream result =
      with_status
        (with_finalizers stream (
          if result.delete_finalized
          then r.client.remove_finalizer stream.meta.finalizers finalizer
          else r.client.add_finalizer stream.meta.finalizers finalizer))
        result.status

  -- From the result of `Process` on.
  unfoldable pub conclude : Stream → StreamReconcileResult → Action W ℤ
  unfolding written_back
  conclude stream result = if result.skipped then pure (pos 0) else elim result.error [
    | some _ ↦
        handle (call (r.client.update_stream (with_status stream result.status)))
          (λ _. finish stream result (requeue_after result.requeue))
          (λ _. finish stream result (requeue_after result.requeue))
    | none ↦
        handle (call (r.client.update_stream (written_back stream result)))
          (λ _. finish stream result (pos 0)) (λ _. finish stream result (requeue_after true))
  ]

  -- `Reconcile`
  unfoldable pub reconcile : String → String → Action W ℤ
  unfolding conclude
  reconcile namespace name =
      handle (call (r.client.get_stream namespace name))
        (λ stream. process L r show_acl stream >>= λ result. conclude stream result)
        (λ e. pure (requeue_after (if r.client.is_not_found e then false else true)))
