-- ===== src/Canary/Ticks.antt =====
-- One tick of the canary that fails, and the way of one message through the callback and the channel.
use kafkarator.Base.{
  ltb, length, ℤ, ◌≡◌, refl, ◌∙◌, ap, Bool, true, false, List, [], ◌∷◌, ◌++◌, none, some,
  if◌then◌else◌,
}
use kafkarator.Go.{Error, ok, err, Sys}
use kafkarator.Kafka.Errors.{is_err_unauthorized}
use kafkarator.Kafka.Producer
use kafkarator.Canary.Certificates.{diff_and_update}
use kafkarator.Canary.Model.{
  Sample, CanaryMessage, ConsumerMessage, Platform, capacity, exit_runtime, Canary, cancel, sample,
  time_now, callback, message_of, at_time, value, since, last_consumed, last_consumed_offset,
  consume_latency, last_produced, last_produced_offset, produce_latency,
}
use kafkarator.Canary.Samples.{produced_value, values, values-snoc, values-pass}
use kafkarator.Canary.Produce.{produce, after_produce, report_produced}
use kafkarator.Canary.Steps.{step-on_event, end_iteration-exit, end_iteration-samples}
use kafkarator.Canary.Loop.{
  produce_tick, consume, deliver, step, on_event, on_produce_tick, end_iteration, send, receive,
  on_message,
}

module _ {P W Time : Type 0} (platform : Platform P W Time) where
  -- The offsets that have been reported as produced.
  abbrev pub produced : Canary P W Time → List ℤ
  produced c = values produced_value c.samples

  report_produced-produced :
      (o : ℤ) (d : Canary P W Time)
      → produced (report_produced platform o d) ≡ produced d ++ (o ∷ [])
  unfolding report_produced sample
  report_produced-produced o d =
      let s = at_time last_produced (time_now platform d) in
      values-snoc produced_value (sample s d).samples (value last_produced_offset o)
      ∙ ap (λ l. l ++ (o ∷ [])) (values-pass produced_value d.samples s refl)

  abbrev denied : Error → Bool
  denied e = is_err_unauthorized platform.texts e

  -- The state after a failed call, with or without `cancel()`.
  abbrev either : Canary P W Time → Sample Time → Sys W → Bool → Canary P W Time
  either c s t b =
      if b then cancel (sample s (record c { sys = t })) else sample s (record c { sys = t })

  produced-either :
      (c : Canary P W Time) (timer now : Time) (t : Sys W) (b : Bool)
      → produced (either c (since produce_latency timer now) t b) ≡ produced c
  unfolding sample cancel
  produced-either c timer now t true =
      values-pass produced_value c.samples (since produce_latency timer now) refl
  produced-either c timer now t false =
      values-pass produced_value c.samples (since produce_latency timer now) refl

  cancelled-either :
      (c : Canary P W Time) (s : Sample Time) (t : Sys W) (b : Bool)
      → c.cancelled ≡ false
      → (either c s t b).cancelled ≡ b
  unfolding sample cancel
  cancelled-either c s t true h = refl
  cancelled-either c s t false h = h

  exit-either :
      (c : Canary P W Time) (s : Sample Time) (t : Sys W) (b : Bool)
      → (either c s t b).exit ≡ c.exit
  unfolding sample cancel
  exit-either c s t true = refl
  exit-either c s t false = refl

  if_else : (x y : Canary P W Time) (b : Bool) → b ≡ false → (if b then x else y) ≡ y
  if_else x y true h = cc
  if_else x y false h = refl

  after_produce-failure :
      (e : Error) (timer : Time) (t : Sys W) (c : Canary P W Time)
      → c.cancelled ≡ false
      → (produced (after_produce platform timer (err e, t) c)
          ≡ produced c ++ (platform.on_error.1 ∷ []))
        × ((after_produce platform timer (err e, t) c).cancelled ≡ denied e)
        × ((after_produce platform timer (err e, t) c).exit ≡ c.exit)
  unfolding after_produce report_produced sample cancel
  after_produce-failure e timer t c going =
      let d = record c { sys = t } in
      let s = since produce_latency timer (time_now platform d) in
      let x = if denied e then cancel (sample s d) else sample s d in
      (
        report_produced-produced platform.on_error.1 x
            ∙ ap (λ l. l ++ (platform.on_error.1 ∷ []))
                (produced-either c timer (time_now platform d) t (denied e)),
        cancelled-either c s t (denied e) going,
        exit-either c s t (denied e),
      )

  -- While the process runs, a tick at which `Produce` fails still reports an offset as the last one
  -- produced, namely that which comes beside the error; and the process ends, with the exit code for
  -- a runtime error, exactly if the error means that the credentials are invalid.
  pub produce_tick-failure :
      (c : Canary P W Time) (e : Error) (t : Sys W)
      → c.exit ≡ none
      → c.cancelled ≡ false
      → Producer.produce platform.sarama platform.machine c.prod
          (platform.clock.format_nano (time_now platform c))
          c.sys
        ≡ (err e, t)
      → (d : Canary P W Time) × (step platform produce_tick c ≡ some d)
        × (produced d ≡ produced c ++ (platform.on_error.1 ∷ []))
        × (d.exit ≡ (if is_err_unauthorized platform.texts e then some exit_runtime else none))
  unfolding on_event on_produce_tick produce
  produce_tick-failure c e t running going failed =
      let b = record c { cert_bundle = diff_and_update platform.files c.sys.world c.cert_bundle } in
      let timer = time_now platform c in
      let a = after_produce platform timer (err e, t) b in
      let (h, k, l) = after_produce-failure e timer t b going in
      let same =
        if_else b
          (after_produce platform timer
            (Producer.produce platform.sarama platform.machine c.prod
              (platform.clock.format_nano timer) c.sys)
            b)
          c.cancelled going
        ∙ ap (λ x. after_produce platform timer x b) failed in
      (
        end_iteration platform a,
        step-on_event platform produce_tick c running
            ∙ ap (λ d. some (end_iteration platform d)) same,
        ap (values produced_value) (end_iteration-samples platform a) ∙ h,
        end_iteration-exit platform a (l ∙ running)
            ∙ ap (λ v. if v then some exit_runtime else none) k,
      )

  -- A time that the canary sends comes back, if it is parsed from its own text: if a message with
  -- the text of the time `t` is delivered to a running canary with nothing in its channel, and the
  -- loop receives from the channel, the latency since `t` is observed, and the offset of the
  -- message is reported.
  pub deliver-consume :
      (c : Canary P W Time) (t : Time) (offset partition : ℤ)
      → platform.clock.parse_nano (platform.clock.format_nano t) ≡ ok t
      → c.exit ≡ none
      → c.cons ≡ []
      → (d : Canary P W Time) × (f : Canary P W Time) × (step platform
            (deliver (record {
              value = platform.clock.format_nano t;
              offset = offset;
              partition = partition;
            }))
            c
          ≡ some d)
        × (step platform consume d ≡ some f)
        × (f.samples
            ≡ c.samples
              ++ (at_time last_consumed (time_now platform c) ∷ [])
              ++ (since consume_latency t (time_now platform c) ∷ [])
              ++ (value last_consumed_offset offset ∷ []))
  unfolding on_event callback on_message sample send receive message_of
  deliver-consume c t offset partition parsed running empty =
      let m : CanaryMessage Time = record {
        offset = offset;
        time_stamp = t;
        partition = partition;
      } in
      let d = record c { cons = m ∷ [] } in
      let msg : ConsumerMessage = record {
        value = platform.clock.format_nano t;
        offset = offset;
        partition = partition;
      } in
      (
        d,
        end_iteration platform (on_message platform m (record c { cons = [] })),
        step-on_event platform (deliver msg) c running
            ∙ ap (λ x. send platform (message_of platform msg x) c) parsed
            ∙ ap
                (λ l.
                  if ltb (length l) capacity
                  then some (record c { cons = l ++ (m ∷ []) })
                  else none)
                empty,
        step-on_event platform consume d running,
        end_iteration-samples platform (on_message platform m (record c { cons = [] })),
      )
