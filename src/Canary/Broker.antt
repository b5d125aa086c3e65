-- ===== src/Canary/Broker.antt =====
-- What the canary relies on in Kafka, for every producer, and what a producer's calls commit.
use kafkarator.Base.{ℤ, ◌≡◌, refl, ◌∙◌, Bool, String, ◌<>◌, List}
use kafkarator.Go.{
  Result, ok, err, panic, Sys, Action, wrap, error_text, pure, fail, call, handle, ◌>>=◌,
}
use kafkarator.Kafka.Transactions.{Record, Sent, IsTransactional}
use kafkarator.Kafka.Producer.{
  Message, SaramaConfig, Sarama, Machine, Producer, new, recreate, produce,
}

-- Every producer has transactions; a producer that is closed or made commits nothing.
pub record IsBroker {P W : Type 0} (sarama : Sarama P W) (committed : W → List Record)
    (pending : P → W → List Record) (is_open : P → W → Bool) : Type 0 where
  pub transactional : (p : P) → IsTransactional sarama p committed (pending p) (is_open p)
  pub new_law :
      (w : W) (brokers : List String) (config : SaramaConfig)
      → committed (sarama.new_sync_producer brokers config w).1 ≡ committed w
  pub close_law : (w : W) (p : P) → committed (sarama.close p w).1 ≡ committed w

module _ {P W : Type 0} (sarama : Sarama P W) (machine : Machine W) (committed : W → List Record)
    (pending : P → W → List Record) (is_open : P → W → Bool)
    (broker : IsBroker sarama committed pending is_open) (p : Producer P) where
  -- Nothing has been committed, and a new producer sends to the same topic.
  abbrev pub Renewed : Sys W → Result (Producer P) × Sys W → Type 0
  Renewed s (ok q, t) = (committed t.world ≡ committed s.world) × (q.topic ≡ p.topic)
  Renewed s (err _, t) = committed t.world ≡ committed s.world
  Renewed s (panic, t) = committed t.world ≡ committed s.world

  abbrev renew : Action W (Producer P)
  renew =
      handle (new sarama machine p.brokers p.topic p.tx_producer)
        (λ fresh. pure (record p { producer = fresh.producer }))
        (λ e. fail (wrap ("recreating producer: " <> error_text e) e))

  made-Renewed :
      (s t : Sys W) (x : Result P × W)
      → committed x.1 ≡ committed s.world
      → Renewed s (
          handle {A = Producer P}
            (call (λ _. x) >>= λ q. pure (record {
              producer = q;
              topic = p.topic;
              brokers = p.brokers;
              tx_producer = p.tx_producer;
            }))
            (λ fresh. pure (record p { producer = fresh.producer }))
            (λ e. fail (wrap ("recreating producer: " <> error_text e) e))
            t)
  made-Renewed s t (ok q, w) h = (h, refl)
  made-Renewed s t (err _, w) h = h
  made-Renewed s t (panic, w) h = h

  renew-Renewed : (s t : Sys W) → committed t.world ≡ committed s.world → Renewed s (renew t)
  unfolding new
  renew-Renewed s t h = made-Renewed s t _ (broker.new_law t.world p.brokers _ ∙ h)

  closed-Renewed :
      (s : Sys W) (x : Result (Unit {0}) × W)
      → committed x.1 ≡ committed s.world
      → Renewed s (handle (call (λ _. x)) (λ _. renew) (λ _. renew) s)
  closed-Renewed s (ok _, w) h = renew-Renewed s (record s { world = w }) h
  closed-Renewed s (err _, w) h = renew-Renewed s (record s { world = w }) h
  closed-Renewed s (panic, w) h = h

  pub recreate-Renewed : (s : Sys W) → Renewed s (recreate sarama machine p s)
  unfolding recreate
  recreate-Renewed s = closed-Renewed s _ (broker.close_law s.world p.producer)

  Sent-committed :
      (w : W) (m : Record) (x : Result (ℤ × ℤ) × W)
      → Sent committed (pending p.producer) (is_open p.producer) w m x
      → committed x.1 ≡ committed w
  Sent-committed w m (ok _, v) h = h.0
  Sent-committed w m (err _, v) h = h
  Sent-committed w m (panic, v) h = h

  pub produce-committed :
      (m : Message) (s : Sys W)
      → committed (produce sarama machine p m s).1.world ≡ committed s.world
  unfolding produce
  produce-committed m s =
      Sent-committed s.world (p.topic, m) _
        ((broker.transactional p.producer).send_law s.world p.topic (machine.now s.world) m)
