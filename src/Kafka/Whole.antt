-- ===== src/Kafka/Whole.antt =====
-- `ProduceTx` commits all its messages or none, also where an earlier transaction has been left open.
use kafkarator.Base.{ℤ, ◌≡◌, refl, Bool, List, ◌++◌, Bool-cases, inl, inr, if◌then◌else◌}
use kafkarator.Base.Int.{pos}
use kafkarator.Go.{Result, ok, err, panic, Sys, text, error_text, fail, call, ask, ◌>>=◌, handle}
use kafkarator.Kafka.Transactions.{Record, Begun, IsTransactional}
use kafkarator.Kafka.Producer.{
  Message, Sarama, Machine, Producer, fatal, is_fatal, send_all, commit, produce_tx, retry_count,
}
use kafkarator.Kafka.Commit.{AllOrNone, Atomic}
use kafkarator.Kafka.Atomic.{records, sending-Atomic}

module _ {P W : Type 0} (sarama : Sarama P W) (machine : Machine W) (p : Producer P)
    (committed pending : W → List Record) (is_open : W → Bool)
    (T : IsTransactional sarama p.producer committed pending is_open) where
  -- A call that succeeds has committed `all`, and any other all or nothing.
  abbrev pub Whole : List Record → List Record → Result (ℤ × ℤ) × Sys W → Type 0
  Whole all before (ok _, t) = committed t.world ≡ all
  Whole all before (err _, t) =
      AllOrNone sarama machine p committed pending is_open T all before t.world
  Whole all before (panic, t) =
      AllOrNone sarama machine p committed pending is_open T all before t.world

  Atomic-Whole :
      (all before : List Record) (x : Result (ℤ × ℤ) × Sys W)
      → Atomic sarama machine p committed pending is_open T all before x
      → Whole all before x
  Atomic-Whole all before (ok _, t) h = h.0
  Atomic-Whole all before (err _, t) h = h.0
  Atomic-Whole all before (panic, t) h = h

  after_begin-Whole :
      (msgs : List Message) (s : Sys W) (x : Result (Unit {0}) × W)
      → Begun committed pending is_open s.world x
      → Whole
          (committed s.world ++ records sarama machine p committed pending is_open T msgs)
          (committed s.world)
          (handle
            (call (λ _. x))
            (λ _. send_all sarama machine p (pos 0, pos 0) msgs >>= λ sent.
              commit sarama machine p retry_count sent (text "<nil>"))
            (λ e. ask (is_fatal sarama machine p) >>= λ broken.
              if broken then fail (fatal (error_text e)) else fail e)
            s)
  after_begin-Whole msgs s (ok _, w) c =
      Atomic-Whole _ _ _ (sending-Atomic sarama machine p committed pending is_open T msgs s w c)
  after_begin-Whole msgs s (err e, w) c = elim (Bool-cases (is_fatal sarama machine p w)) [
    | inl broken ↦ rw broken (inl c.0)
    | inr fine ↦ rw fine (inl c.0)
  ]
  after_begin-Whole msgs s (panic, w) c = inl c

  pub produce_tx-Whole :
      (msgs : List Message) (s : Sys W)
      → Whole
          (committed s.world ++ records sarama machine p committed pending is_open T msgs)
          (committed s.world)
          (produce_tx sarama machine p msgs s)
  unfolding produce_tx
  produce_tx-Whole msgs s = elim (Bool-cases (is_fatal sarama machine p s.world)) [
    | inl stuck ↦ rw stuck (inl refl)
    | inr alive ↦ rw alive (after_begin-Whole msgs s _ (T.begin_law s.world))
  ]
