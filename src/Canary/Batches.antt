-- ===== src/Canary/Batches.antt =====
-- What the canary commits in transactions, against what it reports.
use kafkarator.Base.{
  ℤ, ◌+◌, ◌≤◌, ◌⊎◌, ◌≡◌, refl, sym, ap, ◌∙◌, Bool, true, false, String, List, [], ◌∷◌, ◌++◌, map,
  length, arith, Bool-cases, inl, inr, if◌then◌else◌, length-append,
}
use mathlib.Core.List.{append-nil, append_assoc}
use kafkarator.Go.{Error, Result, ok, err, panic, is_sentinel, Sys}
use kafkarator.Kafka.Errors.{is_err_unauthorized}
use kafkarator.Kafka.Producer.{Producer, fatal_text}
use kafkarator.Kafka.Transactions.{Record}
use kafkarator.Kafka.Whole.{Whole, produce_tx-Whole}
use kafkarator.Canary.Model.{
  Sample, Platform, Canary, cancel, crash, sample, time_now, at_time, value, since, last_produced,
  last_produced_offset, produce_latency, produce_tx_latency, transaction_latency,
  transacted_messages_total,
}
use kafkarator.Canary.Samples.{transacted_value, picked, values, values-snoc, values-pass}
use kafkarator.Canary.Broker.{IsBroker, Renewed, recreate-Renewed, produce-committed}
use kafkarator.Canary.Produce.{
  repeated, transaction_size, report_produced, after_produce, produce, recreated,
  transaction_failed, after_transaction, produce_tx,
}

module _ {P W Time : Type 0} (platform : Platform P W Time) (committed : W → List Record)
    (pending : P → W → List Record) (is_open : P → W → Bool)
    (broker : IsBroker platform.sarama committed pending is_open) where
  -- The records of one transaction: the text of one time, as often as a transaction has messages.
  abbrev pub batch : String → Time → List Record
  batch topic t = map (λ m. (topic, m)) (repeated transaction_size (platform.clock.format_nano t))

  abbrev pub batches : String → List Time → List Record
  batches topic [] = []
  batches topic (t ∷ ts) = batch topic t ++ batches topic ts

  batches-append :
      (topic : String) (ts us : List Time)
      → batches topic (ts ++ us) ≡ batches topic ts ++ batches topic us
  batches-append topic [] us = refl
  batches-append topic (t ∷ ts) us =
      rw (batches-append topic ts us)
        (sym (append_assoc (batch topic t) (batches topic ts) (batches topic us)))

  -- The offsets of the transactions that have been reported.
  abbrev pub transacted : Canary P W Time → List ℤ
  transacted c = values transacted_value c.samples

  -- From one state to another, whole transactions have been committed, and no more reported.
  abbrev pub Adds : Canary P W Time → Canary P W Time → Type 0
  Adds c d =
      (ts : List Time) × (committed d.sys.world
        ≡ committed c.sys.world ++ batches c.prodtx.topic ts)
      × (length (transacted d) ≤ length (transacted c) + length ts)
      × (d.prodtx.topic ≡ c.prodtx.topic)

  -- From one state to another, nothing has been committed or reported.
  abbrev pub Same : Canary P W Time → Canary P W Time → Type 0
  Same c d =
      (committed d.sys.world ≡ committed c.sys.world)
      × (transacted d ≡ transacted c)
      × (d.prodtx.topic ≡ c.prodtx.topic)

  pub Same-Adds : (c d : Canary P W Time) → Same c d → Adds c d
  Same-Adds c d (h, k, e) = ([], h ∙ sym (append-nil _), omega (arith, ap length k), e)

  pub Adds-trans : (c d f : Canary P W Time) → Adds c d → Adds d f → Adds c f
  Adds-trans c d f (ts, h, k, e) (us, i, l, g) = (
    ts ++ us,
    i
        ∙ rw (h, e)
            (append_assoc (committed c.sys.world) (batches c.prodtx.topic ts)
                (batches c.prodtx.topic us)
              ∙ ap (λ l. committed c.sys.world ++ l) (sym (batches-append c.prodtx.topic ts us))),
    omega (arith, k, l, length-append ts us),
    g ∙ e,
  )

  pub sample-Same :
      (c d : Canary P W Time) (s : Sample Time)
      → picked transacted_value s ≡ []
      → Same c d
      → Same c (sample s d)
  unfolding sample
  sample-Same c d s p (h, k, e) = (h, values-pass transacted_value d.samples s p ∙ k, e)

  report_produced-Same :
      (c d : Canary P W Time) (o : ℤ) → Same c d → Same c (report_produced platform o d)
  unfolding report_produced
  report_produced-Same c d o h =
      let s = at_time last_produced (time_now platform d) in
      sample-Same c (sample s d) (value last_produced_offset o) refl (sample-Same c d s refl h)

  -- The state after a call of `prod.Produce`, with its latency.
  abbrev measured : Time → Sys W → Canary P W Time → Canary P W Time
  measured timer t c =
      sample (since produce_latency timer (platform.clock.now t.world)) (record c { sys = t })

  measured-Same :
      (timer : Time) (t : Sys W) (c : Canary P W Time)
      → committed t.world ≡ committed c.sys.world
      → Same c (measured timer t c)
  measured-Same timer t c h =
      sample-Same c (record c { sys = t })
        (since produce_latency timer (platform.clock.now t.world)) refl (h, refl, refl)

  cancel-Same : (c d : Canary P W Time) → Same c d → Same c (cancel d)
  unfolding cancel
  cancel-Same c d h = h

  after_produce-Same :
      (timer : Time) (x : Result (ℤ × ℤ) × Sys W) (c : Canary P W Time)
      → committed x.1.world ≡ committed c.sys.world
      → Same c (after_produce platform timer x c)
  unfolding after_produce cancel crash
  after_produce-Same timer (ok (_, o), t) c h =
      report_produced-Same c (measured timer t c) o (measured-Same timer t c h)
  after_produce-Same timer (err e, t) c h =
      elim (Bool-cases (is_err_unauthorized platform.texts e)) [
        | inl denied ↦ rw denied (
            report_produced-Same c (cancel (measured timer t c)) platform.on_error.1
              (cancel-Same c (measured timer t c) (measured-Same timer t c h)))
        | inr other ↦ rw other (
            report_produced-Same c (measured timer t c) platform.on_error.1
              (measured-Same timer t c h))
      ]
  after_produce-Same timer (panic, t) c h = (h, refl, refl)

  guarded-Same : (c d : Canary P W Time) (b : Bool) → Same c d → Same c (if b then c else d)
  guarded-Same c d true h = (refl, refl, refl)
  guarded-Same c d false h = h

  pub produce-Same : (c : Canary P W Time) → Same c (produce platform c)
  unfolding produce
  produce-Same c =
      let timer = time_now platform c in
      guarded-Same c _ c.cancelled (
        after_produce-Same timer _ c (
          produce-committed platform.sarama platform.machine committed pending is_open broker c.prod
            (platform.clock.format_nano timer) c.sys))

  recreated-Same :
      (c d : Canary P W Time) (x : Result (Producer P) × Sys W)
      → Same c d
      → Renewed platform.sarama platform.machine committed pending is_open broker d.prodtx d.sys x
      → Same c (recreated platform x d)
  unfolding recreated crash
  recreated-Same c d (ok q, t) (h, k, e) (i, l) = (i ∙ h, k, l ∙ e)
  recreated-Same c d (err _, t) (h, k, e) i = (i ∙ h, k, e)
  recreated-Same c d (panic, t) (h, k, e) i = (i ∙ h, k, e)

  transaction_failed-Same :
      (e : Error) (c d : Canary P W Time) → Same c d → Same c (transaction_failed platform e d)
  unfolding transaction_failed cancel
  transaction_failed-Same e c d h = elim (Bool-cases (is_err_unauthorized platform.texts e)) [
    | inl denied ↦ rw denied h
    | inr other ↦ rw other (elim (Bool-cases (is_sentinel e fatal_text)) [
      | inl fatal ↦ rw fatal (
          recreated-Same c d _ h (
            recreate-Renewed platform.sarama platform.machine committed pending is_open broker
              d.prodtx d.sys))
      | inr kept ↦ rw kept h
    ])
  ]

  -- A transaction that fails has been committed or not, and is not reported.
  doubtful-Adds :
      (timer : Time) (c : Canary P W Time) (t : Sys W)
      → (committed t.world ≡ committed c.sys.world)
        ⊎ (committed t.world ≡ committed c.sys.world ++ batch c.prodtx.topic timer)
      → Adds c (record c { sys = t })
  doubtful-Adds timer c t (inl h) = Same-Adds c (record c { sys = t }) (h, refl, refl)
  doubtful-Adds timer c t (inr h) = (
    timer ∷ [],
    h ∙ ap (λ l. committed c.sys.world ++ l) (sym (append-nil (batch c.prodtx.topic timer))),
    omega arith,
    refl,
  )

  after_transaction-Adds :
      (timer : Time) (x : Result (ℤ × ℤ) × Sys W) (c : Canary P W Time)
      → Whole platform.sarama platform.machine c.prodtx committed
          (pending c.prodtx.producer)
          (is_open c.prodtx.producer)
          (broker.transactional c.prodtx.producer)
          (committed c.sys.world ++ batch c.prodtx.topic timer)
          (committed c.sys.world)
          x
      → Adds c (after_transaction platform timer x c)
  unfolding after_transaction crash sample
  after_transaction-Adds timer (ok (_, o), t) c h =
      let now = platform.clock.now t.world in
      let d = record c { sys = t } in
      let e =
        sample (since transaction_latency timer now)
          (sample (since produce_tx_latency timer now) d) in
      (
        timer ∷ [],
        h ∙ ap (λ l. committed c.sys.world ++ l) (sym (append-nil (batch c.prodtx.topic timer))),
        (let one =
              ap length (
                values-snoc transacted_value e.samples (value transacted_messages_total o)
                ∙ ap (λ l. l ++ (o ∷ []))
                    (values-pass transacted_value
                        (sample (since produce_tx_latency timer now) d).samples
                        (since transaction_latency timer now) refl
                      ∙ values-pass transacted_value d.samples (since produce_tx_latency timer now)
                          refl))
              ∙ length-append (transacted c) (o ∷ []) in
            omega (arith, one)),
        refl,
      )
  after_transaction-Adds timer (err e, t) c h =
      let s = since produce_tx_latency timer (platform.clock.now t.world) in
      let b = record c { sys = t } in
      let d = sample s b in
      Adds-trans c b (transaction_failed platform e d) (doubtful-Adds timer c t h) (
        Same-Adds b (transaction_failed platform e d)
          (transaction_failed-Same e b d (sample-Same b b s refl (refl, refl, refl))))
  after_transaction-Adds timer (panic, t) c h =
      let b = record c { sys = t } in
      Adds-trans c b (crash b) (doubtful-Adds timer c t h)
        (Same-Adds b (crash b) (refl, refl, refl))

  guarded-Adds : (c d : Canary P W Time) (b : Bool) → Adds c d → Adds c (if b then c else d)
  guarded-Adds c d true h = Same-Adds c c (refl, refl, refl)
  guarded-Adds c d false h = h

  pub produce_tx-Adds : (c : Canary P W Time) → Adds c (produce_tx platform c)
  unfolding produce_tx
  produce_tx-Adds c =
      let timer = time_now platform c in
      guarded-Adds c _ c.cancelled (
        after_transaction-Adds timer _ c (
          produce_tx-Whole platform.sarama platform.machine c.prodtx committed
            (pending c.prodtx.producer) (is_open c.prodtx.producer)
            (broker.transactional c.prodtx.producer)
            (repeated transaction_size (platform.clock.format_nano timer)) c.sys))
