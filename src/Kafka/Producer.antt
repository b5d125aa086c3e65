-- ===== src/Kafka/Producer.antt =====
-- pkg/kafka/producer/producer.go. The logging and the pauses between attempts are left out.
use kafkarator.Base.{
  ℕ, ℤ, zero, suc, Bool, ◌||◌, String, ◌<>◌, List, [], ◌∷◌, Option, none, some, if◌then◌else◌,
}
use kafkarator.Base.Int.{pos}
use kafkarator.Go.{
  Error, Result, text, sentinel, wrap, error_text, Action, pure, fail, call, ask, ◌>>=◌, handle,
}

-- `kafka.Message`, by its bytes.
abbrev pub Message : Type 0
Message = List ℕ

-- `sarama.ProducerMessage`, as far as it is set.
pub record ProducerMessage : Type 0 where
  pub topic : String
  pub value : Message
  pub timestamp : String

-- `sarama.Config`, as far as it depends on the arguments of `New`.
pub record SaramaConfig : Type 0 where
  pub client_id : String
  pub transaction_id : Option String
  pub idempotent : Bool
  pub max_open_requests : Option ℤ

-- github.com/IBM/sarama: the calls for a producer. `P` is its type of producers.
pub record Sarama (P W : Type 0) : Type 0 where
  pub new_sync_producer : List String → SaramaConfig → W → Result P × W
  pub send_message : P → ProducerMessage → W → Result (ℤ × ℤ) × W
  pub begin_txn : P → W → Result (Unit {0}) × W
  pub commit_txn : P → W → Result (Unit {0}) × W
  pub abort_txn : P → W → Result (Unit {0}) × W
  pub close : P → W → Result (Unit {0}) × W
  -- `TxnStatus()&ProducerTxnFlagFatalError != 0`
  pub has_fatal_flag : P → W → Bool
  -- `TxnStatus() == ProducerTxnFlagUninitialized`
  pub is_uninitialized : P → W → Bool

-- What is read off the machine: the host's name, a fresh UUID, and the time.
pub record Machine (W : Type 0) : Type 0 where
  pub hostname : W → String
  pub uuid : W → String
  pub now : W → String

abbrev pub fatal_text : String
fatal_text = "transactional producer is in a fatal state and must be recreated"

-- `ErrFatalProducer`
abbrev pub err_fatal_producer : Error
err_fatal_producer = sentinel fatal_text

-- `fmt.Errorf("%w: ...", ErrFatalProducer, ...)`
abbrev pub fatal : String → Error
fatal details = wrap (fatal_text <> ": " <> details) err_fatal_producer

pub record Producer (P : Type 0) : Type 0 where
  pub producer : P
  pub topic : String
  pub brokers : List String
  pub tx_producer : Bool

-- The settings that `New` makes.
unfoldable pub config_for : Bool → String → String → SaramaConfig
config_for tx_producer hostname uuid = record {
  client_id = hostname;
  transaction_id = if tx_producer then some uuid else none;
  idempotent = tx_producer;
  max_open_requests = if tx_producer then some (pos 1) else none;
}

abbrev pub retry_count : ℕ
retry_count = 3

module _ {P W : Type 0} (sarama : Sarama P W) (machine : Machine W) where
  -- `New`
  unfoldable pub new : List String → String → Bool → Action W (Producer P)
  unfolding config_for
  new brokers topic tx_producer = ask machine.hostname >>= λ hostname. ask machine.uuid >>= λ uuid.
      call (sarama.new_sync_producer brokers (config_for tx_producer hostname uuid)) >>= λ p.
      pure (record { producer = p; topic = topic; brokers = brokers; tx_producer = tx_producer })

  -- `Recreate`, which gives the producer as it is afterwards.
  unfoldable pub recreate : Producer P → Action W (Producer P)
  unfolding new
  recreate p =
      let renew : Action W (Producer P) =
        handle (new p.brokers p.topic p.tx_producer)
          (λ fresh. pure (record p { producer = fresh.producer }))
          (λ e. fail (wrap ("recreating producer: " <> error_text e) e)) in
      handle (call (sarama.close p.producer)) (λ _. renew) (λ _. renew)

  -- `isFatal`
  unfoldable pub is_fatal : Producer P → W → Bool
  is_fatal p w = sarama.has_fatal_flag p.producer w || sarama.is_uninitialized p.producer w

  -- `Produce`
  unfoldable pub produce : Producer P → Message → Action W (ℤ × ℤ)
  produce p msg = ask machine.now >>= λ now.
      call
        (sarama.send_message p.producer (record { topic = p.topic; value = msg; timestamp = now }))

  -- `AbortTxn`, and the error that is returned: `e`, or a fatal one if the transaction stays open.
  unfoldable pub abort_with : Producer P → Error → String → Action W (ℤ × ℤ)
  abort_with p e cause =
      handle (call (sarama.abort_txn p.producer)) (λ _. fail e)
        (λ abort_err. fail (fatal (cause <> ", abort txn error: " <> error_text abort_err)))

  -- The loop over the messages, with the partition and offset of the last one.
  unfoldable pub send_all : Producer P → ℤ × ℤ → List Message → Action W (ℤ × ℤ)
  unfolding produce abort_with
  send_all p sent [] = pure sent
  send_all p sent (m ∷ msgs) =
      handle (produce p m) (λ next. send_all p next msgs)
        (λ e. abort_with p e ("produce error: " <> error_text e))

  -- The loop over the attempts to commit, with the error of the last one, and what follows it.
  unfoldable pub commit : Producer P → ℕ → ℤ × ℤ → Error → Action W (ℤ × ℤ)
  unfolding is_fatal abort_with
  commit p zero sent last =
      abort_with p (wrap ("commit error: " <> error_text last) last)
        ("commit error: " <> error_text last)
  commit p (suc retries) sent last =
      handle (call (sarama.commit_txn p.producer)) (λ _. pure sent)
        (λ e. ask (is_fatal p) >>= λ stuck.
          if stuck
          then fail (fatal ("commit error: " <> error_text e))
          else commit p retries sent e)

  -- `ProduceTx`
  unfoldable pub produce_tx : Producer P → List Message → Action W (ℤ × ℤ)
  unfolding is_fatal send_all commit
  produce_tx p msgs = ask (is_fatal p) >>= λ stuck.
      if stuck
      then fail err_fatal_producer
      else handle (call (sarama.begin_txn p.producer))
          (λ _. send_all p (pos 0, pos 0) msgs >>= λ sent. commit p retry_count sent (text "<nil>"))
          (λ e.
            ask (is_fatal p) >>= λ broken. if broken then fail (fatal (error_text e)) else fail e)
