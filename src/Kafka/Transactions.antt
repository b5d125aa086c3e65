-- ===== src/Kafka/Transactions.antt =====
-- What the program relies on in Kafka's transactions, which sarama runs for `pkg/kafka/producer`.
use kafkarator.Base.{◌⊎◌, ℤ, ◌≡◌, Bool, true, false, String, List, [], ◌∷◌, ◌++◌}
use kafkarator.Go.{Result, ok, err, panic}
use kafkarator.Kafka.Producer.{Message, Sarama}

-- A message by its topic and its value.
abbrev pub Record : Type 0
Record = String × Message

module _ {W : Type 0} (committed pending : W → List Record) (is_open : W → Bool) (w : W) where
  abbrev pub Begun : Result (Unit {0}) × W → Type 0
  Begun (ok _, w') = (committed w' ≡ committed w) × (pending w' ≡ []) × (is_open w' ≡ true)
  Begun (err _, w') = (committed w' ≡ committed w) × (is_open w' ≡ is_open w)
  Begun (panic, w') = committed w' ≡ committed w

  abbrev pub Sent : Record → Result (ℤ × ℤ) × W → Type 0
  Sent m (ok _, w') = (committed w' ≡ committed w) × (pending w' ≡ pending w ++ (m ∷ []))
  Sent m (err _, w') = committed w' ≡ committed w
  Sent m (panic, w') = committed w' ≡ committed w

  abbrev pub Committed : Result (Unit {0}) × W → Type 0
  Committed (ok _, w') = (committed w' ≡ committed w ++ pending w) × (is_open w' ≡ false)
  Committed (err _, w') =
      ((committed w' ≡ committed w) × (pending w' ≡ pending w))
      ⊎ ((committed w' ≡ committed w ++ pending w) × (pending w' ≡ []))
  Committed (panic, w') = (committed w' ≡ committed w) ⊎ (committed w' ≡ committed w ++ pending w)

  abbrev pub Aborted : Result (Unit {0}) × W → Type 0
  Aborted (ok _, w') = (committed w' ≡ committed w) × (is_open w' ≡ false)
  Aborted (err _, w') = committed w' ≡ committed w
  Aborted (panic, w') = committed w' ≡ committed w

-- Kafka's transactions, as the program relies on them: what is sent is pending until a commit. A commit
-- that fails, by a timeout for example, may have been completed by Kafka or not; if it has, a further
-- attempt has nothing left to commit. The other calls commit nothing.
pub record IsTransactional {P W : Type 0} (sarama : Sarama P W) (p : P)
    (committed pending : W → List Record) (is_open : W → Bool) : Type 0 where
  pub begin_law : (w : W) → Begun committed pending is_open w (sarama.begin_txn p w)
  pub send_law :
      (w : W) (topic timestamp : String) (value : Message)
      → Sent committed pending is_open w
          (topic, value)
          (sarama.send_message p (record { topic = topic; value = value; timestamp = timestamp }) w)
  pub commit_law : (w : W) → Committed committed pending is_open w (sarama.commit_txn p w)
  pub abort_law : (w : W) → Aborted committed pending is_open w (sarama.abort_txn p w)
