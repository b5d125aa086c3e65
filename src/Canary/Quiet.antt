-- ===== src/Canary/Quiet.antt =====
-- A property that neither closure of the canary's `main` can break, from what the closures assign.
use kafkarator.Base.{ℤ, ◌≡◌, refl, Bool, true, false, [], if◌then◌else◌}
use kafkarator.Go.{Error, Result, ok, err, panic, is_sentinel, Sys}
use kafkarator.Kafka.Errors.{is_err_unauthorized}
use kafkarator.Kafka.Producer
use kafkarator.Kafka.Producer.{Producer, fatal_text}
use kafkarator.Canary.Model.{
  Sample, Platform, Canary, cancel, crash, sample, time_now, at_time, value, since, last_produced,
  last_produced_offset, produce_latency, produce_tx_latency, transaction_latency,
  transacted_messages_total,
}
use kafkarator.Canary.Samples.{consumed_value, picked}
use kafkarator.Canary.Produce.{
  repeated, transaction_size, report_produced, after_produce, produce, recreated,
  transaction_failed, after_transaction, produce_tx,
}

-- The property does not depend on the variables that the closures assign, and on no sample but those of
-- the last consumed offset.
pub record IsQuiet {P W Time : Type 0} (Q : Canary P W Time → Type 0) : Type 0 where
  pub sampled :
      (d : Canary P W Time) (s : Sample Time) → picked consumed_value s ≡ [] → Q d → Q (sample s d)
  pub cancelled : (d : Canary P W Time) → Q d → Q (cancel d)
  pub crashes : (d : Canary P W Time) → Q d → Q (crash d)
  pub moved : (d : Canary P W Time) (t : Sys W) → Q d → Q (record d { sys = t })
  pub replaced : (d : Canary P W Time) (p : Producer P) → Q d → Q (record d { prodtx = p })

module _ {P W Time : Type 0} (platform : Platform P W Time) (Q : Canary P W Time → Type 0)
    (quiet : IsQuiet Q) where
  guarded : (c d : Canary P W Time) (b : Bool) → Q c → Q d → Q (if b then c else d)
  guarded c d true h k = h
  guarded c d false h k = k

  report_produced-keeps : (o : ℤ) (d : Canary P W Time) → Q d → Q (report_produced platform o d)
  unfolding report_produced
  report_produced-keeps o d h =
      let s = at_time last_produced (time_now platform d) in
      quiet.sampled (sample s d) (value last_produced_offset o) refl (quiet.sampled d s refl h)

  after_produce-keeps :
      (timer : Time) (x : Result (ℤ × ℤ) × Sys W) (c : Canary P W Time)
      → Q c
      → Q (after_produce platform timer x c)
  unfolding after_produce
  after_produce-keeps timer (ok (_, o), t) c h =
      let d = record c { sys = t } in
      let s = since produce_latency timer (time_now platform d) in
      report_produced-keeps o (sample s d) (quiet.sampled d s refl (quiet.moved c t h))
  after_produce-keeps timer (err e, t) c h =
      let d = record c { sys = t } in
      let s = since produce_latency timer (time_now platform d) in
      let k = quiet.sampled d s refl (quiet.moved c t h) in
      report_produced-keeps platform.on_error.1 _ (
        guarded (cancel (sample s d)) (sample s d) (is_err_unauthorized platform.texts e)
          (quiet.cancelled (sample s d) k) k)
  after_produce-keeps timer (panic, t) c h =
      quiet.crashes (record c { sys = t }) (quiet.moved c t h)

  pub produce-keeps : (c : Canary P W Time) → Q c → Q (produce platform c)
  unfolding produce
  produce-keeps c h =
      let timer = time_now platform c in
      let x =
        Producer.produce platform.sarama platform.machine c.prod (platform.clock.format_nano timer)
          c.sys in
      guarded c (after_produce platform timer x c) c.cancelled h (after_produce-keeps timer x c h)

  recreated-keeps :
      (x : Result (Producer P) × Sys W) (d : Canary P W Time) → Q d → Q (recreated platform x d)
  unfolding recreated
  recreated-keeps (ok p, t) d h = quiet.replaced (record d { sys = t }) p (quiet.moved d t h)
  recreated-keeps (err _, t) d h = quiet.moved d t h
  recreated-keeps (panic, t) d h = quiet.crashes (record d { sys = t }) (quiet.moved d t h)

  transaction_failed-keeps :
      (e : Error) (d : Canary P W Time) → Q d → Q (transaction_failed platform e d)
  unfolding transaction_failed
  transaction_failed-keeps e d h =
      guarded (cancel d) _ (is_err_unauthorized platform.texts e) (quiet.cancelled d h) (
        guarded _ d (is_sentinel e fatal_text)
          (recreated-keeps (Producer.recreate platform.sarama platform.machine d.prodtx d.sys) d h)
          h)

  after_transaction-keeps :
      (timer : Time) (x : Result (ℤ × ℤ) × Sys W) (c : Canary P W Time)
      → Q c
      → Q (after_transaction platform timer x c)
  unfolding after_transaction
  after_transaction-keeps timer (ok (_, o), t) c h =
      let d = record c { sys = t } in
      let now = time_now platform d in
      let r = since produce_tx_latency timer now in
      let s = since transaction_latency timer now in
      quiet.sampled (sample s (sample r d)) (value transacted_messages_total o) refl
        (quiet.sampled (sample r d) s refl (quiet.sampled d r refl (quiet.moved c t h)))
  after_transaction-keeps timer (err e, t) c h =
      let d = record c { sys = t } in
      let r = since produce_tx_latency timer (time_now platform d) in
      transaction_failed-keeps e (sample r d) (quiet.sampled d r refl (quiet.moved c t h))
  after_transaction-keeps timer (panic, t) c h =
      quiet.crashes (record c { sys = t }) (quiet.moved c t h)

  pub produce_tx-keeps : (c : Canary P W Time) → Q c → Q (produce_tx platform c)
  unfolding produce_tx
  produce_tx-keeps c h =
      let timer = time_now platform c in
      let x =
        Producer.produce_tx platform.sarama platform.machine c.prodtx
          (repeated transaction_size (platform.clock.format_nano timer)) c.sys in
      guarded c (after_transaction platform timer x c) c.cancelled h
        (after_transaction-keeps timer x c h)
