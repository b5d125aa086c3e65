-- ===== src/Canary/Queues.antt =====
-- The channels between the consumers and the loop of the canary, and how the process ends.
use kafkarator.Base.{
  ℤ, ◌≤◌, ◌≡◌, refl, sym, ap, ◌∙◌, true, List, [], ◌∷◌, ◌++◌, length, none, some, ltb, arith,
  length-append, Bool-cases, inl, inr,
}
use mathlib.Core.List.{append-nil, append_assoc}
use kafkarator.Go.{Result, ok, err, panic}
use kafkarator.Canary.Certificates.{diff_and_update}
use kafkarator.Canary.Model.{
  CanaryMessage, Platform, Canary, capacity, cancel, crash, sample, time_now, callback, at_time,
  value, since, last_consumed, last_consumed_offset, last_consumed_tx, consume_latency,
  transaction_latency,
}
use kafkarator.Canary.Samples.{consumed_value, values-snoc, values-pass}
use kafkarator.Canary.Produce.{produce_tx}
use kafkarator.Canary.Quiet.{produce-keeps, produce_tx-keeps}
use kafkarator.Canary.Loop.{
  Event, produce_tick, consume, produce_tx_tick, consume_tx, signal, deliver, deliver_tx,
  cancelled_elsewhere, end_iteration, on_produce_tick, on_message, on_message_tx, receive,
  receive_tx, send, send_tx, on_event, step, Run, done, then_, elsewhere,
}
use kafkarator.Canary.Steps.{When, When-at, end_iteration-finished, step-When}
use kafkarator.Canary.Channels.{
  Going-none, Going-EndsWell, offsets, offsets-append, offset_of, consumed, received, IsConsistent,
  Still, Still-IsQuiet, Moves, finished-Moves, Still-Moves,
}

module _ {P W Time : Type 0} (platform : Platform P W Time) where
  -- The offset that an event puts into the channel of the plain topic.
  abbrev pub delivered : Event → List ℤ
  delivered (deliver msg) = offset_of (callback platform msg)
  delivered _ = []

  abbrev pub all_delivered : List Event → List ℤ
  all_delivered [] = []
  all_delivered (e ∷ es) = delivered e ++ all_delivered es

  end_iteration-Moves :
      (l : List ℤ) (c d : Canary P W Time) → Moves l c d → Moves l c (end_iteration platform d)
  end_iteration-Moves l c d h =
      rw (← end_iteration-finished platform d) (finished-Moves l c d d.exit d.cancelled refl refl h)

  unmoved_end :
      (c d : Canary P W Time)
      → length c.cons ≤ capacity
      → length c.cons_tx ≤ capacity
      → Still c d
      → Moves [] c (end_iteration platform d)
  unmoved_end c d k m h = end_iteration-Moves [] c d (Still-Moves c d k m h)

  on_message-consumed :
      (d : Canary P W Time) (m : CanaryMessage Time)
      → consumed (on_message platform m d) ≡ consumed d ++ (m.offset ∷ [])
  unfolding on_message sample
  on_message-consumed d m =
      let r = at_time last_consumed (time_now platform d) in
      let t = since consume_latency m.time_stamp (time_now platform d) in
      values-snoc consumed_value (sample t (sample r d)).samples
        (value last_consumed_offset m.offset)
      ∙ ap (λ l. l ++ (m.offset ∷ []))
          (values-pass consumed_value (sample r d).samples t refl
            ∙ values-pass consumed_value d.samples r refl)

  on_message_tx-consumed :
      (d : Canary P W Time) (m : CanaryMessage Time)
      → consumed (on_message_tx platform m d) ≡ consumed d
  unfolding on_message_tx sample
  on_message_tx-consumed d m =
      let r = at_time last_consumed_tx (time_now platform d) in
      let t = since transaction_latency m.time_stamp (time_now platform d) in
      values-pass consumed_value (sample r d).samples t refl
      ∙ values-pass consumed_value d.samples r refl

  room_for :
      (l : List (CanaryMessage Time)) (m : CanaryMessage Time)
      → ltb (length l) capacity ≡ true
      → length (l ++ (m ∷ [])) ≤ capacity
  room_for l m room = ground (arith, length-append l (m ∷ []))

  receive-Moves :
      (l : List (CanaryMessage Time)) (c : Canary P W Time)
      → c.cons ≡ l
      → c.exit ≡ none
      → IsConsistent c
      → When (Moves [] c) (receive platform l c)
  unfolding receive on_message sample
  receive-Moves [] c e g h = tt
  receive-Moves (m ∷ ms) c e g (k, n, _) =
      let d = record c { cons = ms } in
      end_iteration-Moves [] c (on_message platform m d) (
        ap (λ l. l ++ offsets ms) (on_message-consumed d m)
            ∙ append_assoc (consumed c) (m.offset ∷ []) (offsets ms)
            ∙ sym (append-nil (received c) ∙ ap (λ l. consumed c ++ offsets l) e),
        omega (arith, k, ap length e),
        n,
        Going-EndsWell c.exit c.cancelled (Going-none c.exit g),
      )

  receive_tx-Moves :
      (l : List (CanaryMessage Time)) (c : Canary P W Time)
      → c.cons_tx ≡ l
      → c.exit ≡ none
      → IsConsistent c
      → When (Moves [] c) (receive_tx platform l c)
  unfolding receive_tx on_message_tx sample
  receive_tx-Moves [] c e g h = tt
  receive_tx-Moves (m ∷ ms) c e g (k, n, _) =
      let d = record c { cons_tx = ms } in
      end_iteration-Moves [] c (on_message_tx platform m d) (
        ap (λ l. l ++ offsets c.cons) (on_message_tx-consumed d m) ∙ sym (append-nil (received c)),
        k,
        omega (arith, n, ap length e),
        Going-EndsWell c.exit c.cancelled (Going-none c.exit g),
      )

  send-Moves :
      (x : Result (CanaryMessage Time)) (c : Canary P W Time)
      → IsConsistent c
      → When (Moves (offset_of x) c) (send platform x c)
  unfolding send crash
  send-Moves (ok m) c (k, n, w) = elim (Bool-cases (ltb (length c.cons) capacity)) [
    | inl room ↦ rw room (
      rw (offsets-append c.cons (m ∷ []))
          (sym (append_assoc (consumed c) (offsets c.cons) (m.offset ∷ []))),
      room_for c.cons m room,
      n,
      w,
    )
    | inr full ↦ rw full tt
  ]
  send-Moves (err _) c (k, n, w) = (sym (append-nil (received c)), k, n, w)
  send-Moves panic c (k, n, w) = (sym (append-nil (received c)), k, n, tt)

  send_tx-Moves :
      (x : Result (CanaryMessage Time)) (c : Canary P W Time)
      → IsConsistent c
      → When (Moves [] c) (send_tx platform x c)
  unfolding send_tx crash
  send_tx-Moves (ok m) c (k, n, w) = elim (Bool-cases (ltb (length c.cons_tx) capacity)) [
    | inl room ↦ rw room (sym (append-nil (received c)), k, room_for c.cons_tx m room, w)
    | inr full ↦ rw full tt
  ]
  send_tx-Moves (err _) c (k, n, w) = (sym (append-nil (received c)), k, n, w)
  send_tx-Moves panic c (k, n, w) = (sym (append-nil (received c)), k, n, tt)

  on_event-Moves :
      (e : Event) (c : Canary P W Time)
      → IsConsistent c
      → c.exit ≡ none
      → When (Moves (delivered e) c) (on_event platform e c)
  unfolding on_event cancel on_produce_tick
  on_event-Moves produce_tick c (k, n, w) g =
      let d = record c { cert_bundle = diff_and_update platform.files c.sys.world c.cert_bundle } in
      unmoved_end c (on_produce_tick platform c) k n (
        produce-keeps platform (Still c) (Still-IsQuiet c) d
          (refl, refl, refl, Going-none c.exit g))
  on_event-Moves consume c h g = receive-Moves c.cons c refl g h
  on_event-Moves produce_tx_tick c (k, n, w) g = unmoved_end c (produce_tx platform c) k n (
      produce_tx-keeps platform (Still c) (Still-IsQuiet c) c
        (refl, refl, refl, Going-none c.exit g))
  on_event-Moves consume_tx c h g = receive_tx-Moves c.cons_tx c refl g h
  on_event-Moves signal c (k, n, w) g = (sym (append-nil (received c)), k, n, refl)
  on_event-Moves (deliver msg) c h g = send-Moves (callback platform msg) c h
  on_event-Moves (deliver_tx msg) c h g = send_tx-Moves (callback platform msg) c h
  on_event-Moves cancelled_elsewhere c (k, n, w) g =
      (sym (append-nil (received c)), k, n, Going-EndsWell c.exit true (Going-none c.exit g))

  step-Moves :
      (e : Event) (c d : Canary P W Time)
      → IsConsistent c
      → step platform e c ≡ some d
      → Moves (delivered e) c d
  step-Moves e c d h s =
      When-at (Moves (delivered e) c) _ d s
        (step-When platform (Moves (delivered e) c) e c (on_event-Moves e c h))

  -- In every state that a run of the canary reaches from a consistent one, both channels hold at
  -- most 32 messages, and if the process has ended by itself, it has not been with the exit code
  -- for a wrong configuration, and not without the context cancelled, unless by a panic.
  pub Run-IsConsistent :
      (drift : W → W → Type 0) (c d : Canary P W Time) (es : List Event)
      → Run platform drift c es d
      → IsConsistent c
      → IsConsistent d
  Run-IsConsistent drift c _ _ (done) h = h
  Run-IsConsistent drift c f _ (then_ {d} {e} {es} s r) h =
      let (moved, k, n, w) = step-Moves e c d h s in Run-IsConsistent drift d f es r (k, n, w)
  Run-IsConsistent drift c f es (elsewhere {w} moved r) h =
      Run-IsConsistent drift (record c { sys = record c.sys { world = w } }) f es r h

  -- No message is lost, doubled or overtaken between the consumer and the metrics: in a run from a
  -- consistent state, the offsets that have been reported as consumed, followed by those that wait
  -- in the channel, are those of the start followed by those of the messages that the callback has
  -- delivered meanwhile, in order.
  pub Run-keeps_order :
      (drift : W → W → Type 0) (c d : Canary P W Time) (es : List Event)
      → Run platform drift c es d
      → IsConsistent c
      → received d ≡ received c ++ all_delivered es
  Run-keeps_order drift c _ _ (done) h = sym (append-nil (received c))
  Run-keeps_order drift c f es (elsewhere {w} moved r) h =
      Run-keeps_order drift (record c { sys = record c.sys { world = w } }) f es r h
  Run-keeps_order drift c f _ (then_ {d} {e} {es} s r) h =
      let (moved, k, n, w) = step-Moves e c d h s in
      Run-keeps_order drift d f es r (k, n, w)
      ∙ ap (λ l. l ++ all_delivered es) moved
      ∙ append_assoc (received c) (delivered e) (all_delivered es)
