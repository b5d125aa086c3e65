-- ===== src/Canary/Produce.antt =====
-- cmd/canary/main.go: the closures `produce` and `produceTx`.
use kafkarator.Base.{ℕ, ℤ, zero, suc, List, [], ◌∷◌, ◌++◌, if◌then◌else◌}
use kafkarator.Go.{Error, Result, ok, err, panic, is_sentinel, Sys}
use kafkarator.Kafka.Errors.{is_err_unauthorized}
use kafkarator.Kafka.Producer
use kafkarator.Kafka.Producer.{Message, Producer, fatal_text}
use kafkarator.Canary.Model.{
  last_produced, last_produced_offset, produce_latency, produce_tx_latency, transaction_latency,
  transacted_messages_total, at_time, value, since, Platform, Canary, cancel, crash, sample,
  time_now,
}

abbrev pub transaction_size : ℕ
transaction_size = 5

-- The loop that makes the messages of a transaction.
unfoldable pub repeated : ℕ → Message → List Message
repeated zero m = []
repeated (suc n) m = repeated n m ++ (m ∷ [])

module _ {P W Time : Type 0} (platform : Platform P W Time) where
  -- The end of `produce`: the offset counts as the last one, whether or not there was an error.
  unfoldable pub report_produced : ℤ → Canary P W Time → Canary P W Time
  unfolding sample
  report_produced offset c =
      sample (value last_produced_offset offset)
        (sample (at_time last_produced (time_now platform c)) c)

  -- `produce` after its call of `prod.Produce`.
  unfoldable pub after_produce : Time → Result (ℤ × ℤ) × Sys W → Canary P W Time → Canary P W Time
  unfolding cancel crash sample report_produced
  after_produce timer (ok (_, offset), t) c =
      let c = record c { sys = t } in
      report_produced offset (sample (since produce_latency timer (time_now platform c)) c)
  after_produce timer (err e, t) c =
      let c = record c { sys = t } in
      let c = sample (since produce_latency timer (time_now platform c)) c in
      report_produced platform.on_error.1
        (if is_err_unauthorized platform.texts e then cancel c else c)
  after_produce timer (panic, t) c = crash (record c { sys = t })

  -- `produce`
  unfoldable pub produce : Canary P W Time → Canary P W Time
  unfolding after_produce
  produce c =
      if c.cancelled
      then c
      else (let timer = time_now platform c in
          after_produce timer
            (Producer.produce platform.sarama platform.machine c.prod
              (platform.clock.format_nano timer) c.sys)
            c)

  -- What follows `prodtx.Recreate()`: the new connection is kept, an error is only logged.
  unfoldable pub recreated : Result (Producer P) × Sys W → Canary P W Time → Canary P W Time
  unfolding crash
  recreated (ok p, t) c = record c { sys = t; prodtx = p }
  recreated (err _, t) c = record c { sys = t }
  recreated (panic, t) c = crash (record c { sys = t })

  -- The handling of an error of `prodtx.ProduceTx`.
  unfoldable pub transaction_failed : Error → Canary P W Time → Canary P W Time
  unfolding cancel recreated
  transaction_failed e c =
      if is_err_unauthorized platform.texts e
      then cancel c
      else (if is_sentinel e fatal_text
          then recreated (Producer.recreate platform.sarama platform.machine c.prodtx c.sys) c
          else c)

  -- `produceTx` after its call of `prodtx.ProduceTx`.
  unfoldable pub after_transaction :
      Time → Result (ℤ × ℤ) × Sys W → Canary P W Time → Canary P W Time
  unfolding crash sample transaction_failed
  after_transaction timer (ok (_, offset), t) c =
      let c = record c { sys = t } in
      let now = time_now platform c in
      sample (value transacted_messages_total offset) (
        sample (since transaction_latency timer now)
          (sample (since produce_tx_latency timer now) c))
  after_transaction timer (err e, t) c =
      let c = record c { sys = t } in
      transaction_failed e (sample (since produce_tx_latency timer (time_now platform c)) c)
  after_transaction timer (panic, t) c = crash (record c { sys = t })

  -- `produceTx`
  unfoldable pub produce_tx : Canary P W Time → Canary P W Time
  unfolding after_transaction repeated
  produce_tx c =
      if c.cancelled
      then c
      else (let timer = time_now platform c in
          after_transaction timer
            (Producer.produce_tx platform.sarama platform.machine c.prodtx
              (repeated transaction_size (platform.clock.format_nano timer)) c.sys)
            c)
