-- ===== src/Kafka/Tests.antt =====
-- A broker with one producer, whose first attempt to commit fails although it is completed; and a callback that asks for retries.
use kafkarator.Base.{◌≡◌, none, some, inr}
use kafkarator.Base.{ℕ, zero, suc, refl, Bool, true, false, List, [], ◌∷◌, ◌++◌}
use kafkarator.Base.Int.{pos}
use kafkarator.Go.{Result, ok, err, text, Sys}
use kafkarator.Kafka.Producer.{Sarama, Machine, Producer, produce_tx}
use kafkarator.Kafka.Consumer.{Callback, Claim, consume_claim}
use kafkarator.Kafka.Marking.{stops, consume_claim-marks}
use kafkarator.Kafka.Transactions.{Record, Committed, IsTransactional}
use kafkarator.Kafka.Commit.{Atomic}
use kafkarator.Kafka.Atomic.{produce_tx-Atomic}

record Broker : Type 0 where
  committed : List Record
  pending : List Record
  is_open : Bool
  failures : ℕ

abbrev commit_once : Broker → ℕ → Result (Unit {0}) × Broker
commit_once b zero =
    (ok tt, record b { committed = b.committed ++ b.pending; pending = []; is_open = false })
commit_once b (suc n) = (
  err (text "timed out"),
  record b { committed = b.committed ++ b.pending; pending = []; failures = n },
)

abbrev sarama : Sarama (Unit {0}) Broker
sarama = record {
  new_sync_producer = λ brokers cfg b. (ok tt, b);
  send_message =
      λ p m b. (ok (pos 0, pos 7), record b { pending = b.pending ++ ((m.topic, m.value) ∷ []) });
  begin_txn = λ p b. (ok tt, record b { pending = []; is_open = true });
  commit_txn = λ p b. commit_once b b.failures;
  abort_txn = λ p b. (ok tt, record b { pending = []; is_open = false });
  close = λ p b. (ok tt, b);
  has_fatal_flag = λ p b. false;
  is_uninitialized = λ p b. false;
}

abbrev machine : Machine Broker
machine = record { hostname = λ b. "canary"; uuid = λ b. "uuid"; now = λ b. "now" }

commit_once-Committed :
    (b : Broker) (n : ℕ)
    → Committed (λ (c : Broker). c.committed) (λ c. c.pending) (λ c. c.is_open) b (commit_once b n)
commit_once-Committed b zero = (refl, refl)
commit_once-Committed b (suc n) = inr (refl, refl)

sarama-IsTransactional :
    IsTransactional sarama tt (λ (c : Broker). c.committed) (λ c. c.pending) (λ c. c.is_open)
sarama-IsTransactional = record {
  begin_law = λ b. (refl, refl, refl);
  send_law = λ b topic timestamp value. (refl, refl);
  commit_law = λ b. commit_once-Committed b b.failures;
  abort_law = λ b. (refl, refl);
}

abbrev producer : Producer (Unit {0})
producer = record { producer = tt; topic = "canary"; brokers = []; tx_producer = true }

abbrev start : Sys Broker
start = record {
  world = record { committed = []; pending = []; is_open = false; failures = 1 };
  observed = [];
  processed = [];
}

produce_tx-Atomic_example :
    Atomic sarama machine producer
      (λ (c : Broker). c.committed)
      (λ c. c.pending)
      (λ c. c.is_open)
      sarama-IsTransactional
      (("canary", 1 ∷ []) ∷ ("canary", 2 ∷ []) ∷ [])
      []
      (produce_tx sarama machine producer ((1 ∷ []) ∷ (2 ∷ []) ∷ []) start)
produce_tx-Atomic_example =
    produce_tx-Atomic sarama machine producer (λ c. c.committed) (λ c. c.pending) (λ c. c.is_open)
      sarama-IsTransactional ((1 ∷ []) ∷ (2 ∷ []) ∷ []) start refl

-- The world counts the attempts left for a message that is not done.
abbrev second_time : Callback ℕ ℕ
second_time message zero = ((false, none), 1)
second_time message (suc n) = ((true, some (text "busy")), zero)

second_time-stops : (m w : ℕ) → stops second_time 2 m w ≡ true
second_time-stops m zero = refl
second_time-stops m (suc n) = refl

consume_claim-marks_example :
    (d : Claim ℕ ℕ) × (consume_claim second_time
        (λ w. 0)
        2
        (5 ∷ 6 ∷ [])
        (record { world = 1; marked = []; sizes = [] })
      ≡ some d)
    × (d.marked ≡ 5 ∷ 6 ∷ [])
consume_claim-marks_example =
    consume_claim-marks second_time (λ w. 0) 2 second_time-stops (5 ∷ 6 ∷ [])
      (record { world = 1; marked = []; sizes = [] })
