-- ===== src/Canary/Loop.antt =====
-- cmd/canary/main.go: the loop of `main`, as steps of the goroutines that it meets. What the others do while
-- `main` is still starting counts as done when it has entered the loop.
use kafkarator.Base.{◌≡◌, List, [], ◌∷◌, ◌++◌, Option, none, some, if◌then◌else◌, ltb, length}
use kafkarator.Go.{Result, ok, err, panic}
use kafkarator.Canary.Certificates.{diff_and_update}
use kafkarator.Canary.Model.{
  last_consumed, last_consumed_offset, consume_latency, transaction_latency, last_consumed_tx,
  at_time, value, since, CanaryMessage, ConsumerMessage, Platform, exit_ok, exit_runtime, Canary,
  capacity, cancel, crash, sample, time_now, callback,
}
use kafkarator.Canary.Produce.{produce, produce_tx}

-- The cases of the `select`, and what other goroutines do: a consumer runs its callback on a message, or
-- the context is cancelled, by a consumer or by the server of the metrics.
pub data Event : Type 0 where
  produce_tick : Event
  consume : Event
  produce_tx_tick : Event
  consume_tx : Event
  signal : Event
  deliver : ConsumerMessage → Event
  deliver_tx : ConsumerMessage → Event
  cancelled_elsewhere : Event

module _ {P W Time : Type 0} (platform : Platform P W Time) where
  -- The condition of the loop, and what follows the loop.
  unfoldable pub end_iteration : Canary P W Time → Canary P W Time
  end_iteration c = elim c.exit [
    | some _ ↦ c
    | none ↦ if c.cancelled then record c { exit = some exit_runtime } else c
  ]

  -- `case <-produceTicker.C`
  unfoldable pub on_produce_tick : Canary P W Time → Canary P W Time
  unfolding diff_and_update produce
  on_produce_tick c =
      produce platform
        (record c { cert_bundle = diff_and_update platform.files c.sys.world c.cert_bundle })

  -- `case msg := <-cons`
  unfoldable pub on_message : CanaryMessage Time → Canary P W Time → Canary P W Time
  unfolding sample
  on_message msg c = sample (value last_consumed_offset msg.offset) (
      sample (since consume_latency msg.time_stamp (time_now platform c))
        (sample (at_time last_consumed (time_now platform c)) c))

  -- `case msg := <-consTx`
  unfoldable pub on_message_tx : CanaryMessage Time → Canary P W Time → Canary P W Time
  unfolding sample
  on_message_tx msg c =
      sample (since transaction_latency msg.time_stamp (time_now platform c))
        (sample (at_time last_consumed_tx (time_now platform c)) c)

  -- A receive from a channel, which waits while the channel is empty.
  unfoldable pub receive : List (CanaryMessage Time) → Canary P W Time → Option (Canary P W Time)
  unfolding on_message end_iteration
  receive [] c = none
  receive (m ∷ ms) c = some (end_iteration (on_message m (record c { cons = ms })))

  unfoldable pub receive_tx : List (CanaryMessage Time) → Canary P W Time → Option (Canary P W Time)
  unfolding on_message_tx end_iteration
  receive_tx [] c = none
  receive_tx (m ∷ ms) c = some (end_iteration (on_message_tx m (record c { cons_tx = ms })))

  -- A send on a channel, which waits while the channel is full. A message that cannot be parsed is
  -- not sent.
  unfoldable pub send : Result (CanaryMessage Time) → Canary P W Time → Option (Canary P W Time)
  unfolding crash
  send (ok m) c =
      if ltb (length c.cons) capacity then some (record c { cons = c.cons ++ (m ∷ []) }) else none
  send (err _) c = some c
  send panic c = some (crash c)

  unfoldable pub send_tx : Result (CanaryMessage Time) → Canary P W Time → Option (Canary P W Time)
  unfolding crash
  send_tx (ok m) c =
      if ltb (length c.cons_tx) capacity
      then some (record c { cons_tx = c.cons_tx ++ (m ∷ []) })
      else none
  send_tx (err _) c = some c
  send_tx panic c = some (crash c)

  -- What an event does to the running process; `none` if it cannot happen.
  unfoldable pub on_event : Event → Canary P W Time → Option (Canary P W Time)
  unfolding on_produce_tick receive receive_tx send send_tx end_iteration cancel callback produce_tx
  on_event produce_tick c = some (end_iteration (on_produce_tick c))
  on_event consume c = receive c.cons c
  on_event produce_tx_tick c = some (end_iteration (produce_tx platform c))
  on_event consume_tx c = receive_tx c.cons_tx c
  on_event signal c = some (record (cancel c) { exit = some exit_ok })
  on_event (deliver msg) c = send (callback platform msg) c
  on_event (deliver_tx msg) c = send_tx (callback platform msg) c
  on_event cancelled_elsewhere c = some (cancel c)

  -- A step of the process, which takes none once it has ended.
  unfoldable pub step : Event → Canary P W Time → Option (Canary P W Time)
  unfolding on_event
  step e c = elim c.exit [ some _ ↦ none | none ↦ on_event e c ]

  -- A run of the process over events, from one state to another. Between them the world goes on by
  -- itself as far as `drift` allows: time passes, and others change the files.
  pub data Run (drift : W → W → Type 0)
      : Canary P W Time → List Event → Canary P W Time → Type 0 where
    done : {c : Canary P W Time} → Run drift c [] c
    then_ :
        {c d f : Canary P W Time} {e : Event} {es : List Event}
        → step e c ≡ some d
        → Run drift d es f
        → Run drift c (e ∷ es) f
    elsewhere :
        {c f : Canary P W Time} {w : W} {es : List Event}
        → drift c.sys.world w
        → Run drift (record c { sys = record c.sys { world = w } }) es f
        → Run drift c es f
