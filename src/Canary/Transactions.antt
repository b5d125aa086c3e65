-- ===== src/Canary/Transactions.antt =====
-- In every run of the canary, whole transactions are committed, and no more are reported.
use kafkarator.Base.{
  ◌+◌, ◌≤◌, ◌≡◌, refl, Bool, true, false, List, [], ◌∷◌, ◌++◌, length, Option, none, some,
}
use kafkarator.Go.{Result, ok, err, panic}
use kafkarator.Kafka.Transactions.{Record}
use kafkarator.Canary.Certificates.{diff_and_update}
use kafkarator.Canary.Model.{
  CanaryMessage, Platform, Exit, exit_ok, Canary, cancel, crash, sample, time_now, callback,
  at_time, value, since, last_consumed, last_consumed_offset, last_consumed_tx, consume_latency,
  transaction_latency,
}
use kafkarator.Canary.Broker.{IsBroker}
use kafkarator.Canary.Produce.{produce_tx}
use kafkarator.Canary.Batches.{
  Adds, Same, Same-Adds, Adds-trans, sample-Same, produce-Same, produce_tx-Adds, batches,
  transacted,
}
use kafkarator.Canary.Loop.{
  Event, produce_tick, consume, produce_tx_tick, consume_tx, signal, deliver, deliver_tx,
  cancelled_elsewhere, end_iteration, on_produce_tick, on_message, on_message_tx, receive,
  receive_tx, send, send_tx, on_event, step, Run, done, then_, elsewhere,
}
use kafkarator.Canary.Steps.{When, When-at, When-if, finished, end_iteration-finished, step-When}

module _ {P W Time : Type 0} (platform : Platform P W Time) (committed : W → List Record)
    (pending : P → W → List Record) (is_open : P → W → Bool)
    (broker : IsBroker platform.sarama committed pending is_open) where
  infix 20 ◌adds◌ ◌same◌
  abbrev ◌adds◌ : Canary P W Time → Canary P W Time → Type 0
  c adds d = Adds platform committed pending is_open broker c d

  abbrev ◌same◌ : Canary P W Time → Canary P W Time → Type 0
  c same d = Same platform committed pending is_open broker c d

  unchanged : (c d : Canary P W Time) → c same d → c adds d
  unchanged = Same-Adds platform committed pending is_open broker

  finished-Adds :
      (c d : Canary P W Time) (o : Option Exit) (b : Bool) → c adds d → c adds (finished o b d)
  finished-Adds c d (some _) b h = h
  finished-Adds c d none true h = h
  finished-Adds c d none false h = h

  end_iteration-Adds : (c d : Canary P W Time) → c adds d → c adds (end_iteration platform d)
  end_iteration-Adds c d h =
      rw (← end_iteration-finished platform d) (finished-Adds c d d.exit d.cancelled h)

  on_produce_tick-Same : (c : Canary P W Time) → c same (on_produce_tick platform c)
  unfolding on_produce_tick
  on_produce_tick-Same c =
      produce-Same platform committed pending is_open broker
        (record c { cert_bundle = diff_and_update platform.files c.sys.world c.cert_bundle })

  observed :
      (c d : Canary P W Time) (m : CanaryMessage Time) → c same d → c same (on_message platform m d)
  unfolding on_message
  observed c d m h =
      let now = time_now platform d in
      let s = at_time last_consumed now in
      let t = since consume_latency m.time_stamp now in
      let keep = sample-Same platform committed pending is_open broker c in
      keep (sample t (sample s d)) (value last_consumed_offset m.offset) refl
        (keep (sample s d) t refl (keep d s refl h))

  observed_tx :
      (c d : Canary P W Time) (m : CanaryMessage Time)
      → c same d
      → c same (on_message_tx platform m d)
  unfolding on_message_tx
  observed_tx c d m h =
      let now = time_now platform d in
      let s = at_time last_consumed_tx now in
      let t = since transaction_latency m.time_stamp now in
      let keep = sample-Same platform committed pending is_open broker c in
      keep (sample s d) t refl (keep d s refl h)

  receive-Adds :
      (l : List (CanaryMessage Time)) (c : Canary P W Time)
      → When (λ d. c adds d) (receive platform l c)
  unfolding receive
  receive-Adds [] c = tt
  receive-Adds (m ∷ ms) c =
      let d = record c { cons = ms } in
      end_iteration-Adds c (on_message platform m d)
        (unchanged c (on_message platform m d) (observed c d m (refl, refl, refl)))

  receive_tx-Adds :
      (l : List (CanaryMessage Time)) (c : Canary P W Time)
      → When (λ d. c adds d) (receive_tx platform l c)
  unfolding receive_tx
  receive_tx-Adds [] c = tt
  receive_tx-Adds (m ∷ ms) c =
      let d = record c { cons_tx = ms } in
      end_iteration-Adds c (on_message_tx platform m d)
        (unchanged c (on_message_tx platform m d) (observed_tx c d m (refl, refl, refl)))

  send-Adds :
      (x : Result (CanaryMessage Time)) (c : Canary P W Time)
      → When (λ d. c adds d) (send platform x c)
  unfolding send crash
  send-Adds (ok m) c =
      let d = record c { cons = c.cons ++ (m ∷ []) } in
      When-if (λ d. c adds d) _ d (unchanged c d (refl, refl, refl))
  send-Adds (err _) c = unchanged c c (refl, refl, refl)
  send-Adds panic c = unchanged c (crash c) (refl, refl, refl)

  send_tx-Adds :
      (x : Result (CanaryMessage Time)) (c : Canary P W Time)
      → When (λ d. c adds d) (send_tx platform x c)
  unfolding send_tx crash
  send_tx-Adds (ok m) c =
      let d = record c { cons_tx = c.cons_tx ++ (m ∷ []) } in
      When-if (λ d. c adds d) _ d (unchanged c d (refl, refl, refl))
  send_tx-Adds (err _) c = unchanged c c (refl, refl, refl)
  send_tx-Adds panic c = unchanged c (crash c) (refl, refl, refl)

  on_event-Adds : (e : Event) (c : Canary P W Time) → When (λ d. c adds d) (on_event platform e c)
  unfolding on_event cancel
  on_event-Adds produce_tick c =
      end_iteration-Adds c (on_produce_tick platform c)
        (unchanged c (on_produce_tick platform c) (on_produce_tick-Same c))
  on_event-Adds consume c = receive-Adds c.cons c
  on_event-Adds produce_tx_tick c =
      end_iteration-Adds c (produce_tx platform c)
        (produce_tx-Adds platform committed pending is_open broker c)
  on_event-Adds consume_tx c = receive_tx-Adds c.cons_tx c
  on_event-Adds signal c =
      unchanged c (record (cancel c) { exit = some exit_ok }) (refl, refl, refl)
  on_event-Adds (deliver msg) c = send-Adds (callback platform msg) c
  on_event-Adds (deliver_tx msg) c = send_tx-Adds (callback platform msg) c
  on_event-Adds cancelled_elsewhere c = unchanged c (cancel c) (refl, refl, refl)

  step-Adds : (e : Event) (c d : Canary P W Time) → step platform e c ≡ some d → c adds d
  step-Adds e c d h =
      When-at (λ d. c adds d) _ d h
        (step-When platform (λ d. c adds d) e c (λ _. on_event-Adds e c))

  -- Over a broker with transactions, whatever the order of events in a run of the canary: what its
  -- transactional producer has committed is a list of whole batches, each of five messages with the
  -- text of one time, and the gauge of transacted messages has been set at most as often as there are
  -- batches.
  pub Run-commits_batches :
      (drift : W → W → Type 0)
      → ((v w : W) → drift v w → committed w ≡ committed v)
      → (c d : Canary P W Time) (es : List Event) → Run platform drift c es d
      → (ts : List Time) × (committed d.sys.world
          ≡ committed c.sys.world
            ++ batches platform committed pending is_open broker c.prodtx.topic ts)
        × (length (transacted platform committed pending is_open broker d)
            ≤ length (transacted platform committed pending is_open broker c) + length ts)
        × (d.prodtx.topic ≡ c.prodtx.topic)
  Run-commits_batches drift calm c _ _ (done) = unchanged c c (refl, refl, refl)
  Run-commits_batches drift calm c f _ (then_ {d} {e} {es} h r) =
      Adds-trans platform committed pending is_open broker c d f (step-Adds e c d h)
        (Run-commits_batches drift calm d f es r)
  Run-commits_batches drift calm c f es (elsewhere {w} moved r) =
      let d = record c { sys = record c.sys { world = w } } in
      Adds-trans platform committed pending is_open broker c d f
        (unchanged c d (calm c.sys.world w moved, refl, refl))
        (Run-commits_batches drift calm d f es r)
