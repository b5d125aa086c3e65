-- ===== src/Kafka/Atomic.antt =====
-- `ProduceTx` commits all its messages or none of them.
use kafkarator.Base.{
  ℤ, ◌≡◌, refl, sym, ap, ◌∙◌, Bool, false, ◌<>◌, List, [], ◌∷◌, ◌++◌, map, string_eq, arith,
  Bool-cases, inl, inr, if◌then◌else◌,
}
use mathlib.Core.List.{append-nil, append_assoc}
use kafkarator.Go.{
  Result, ok, err, panic, Sys, Action, text, error_text, is_sentinel, fail, call, ask, ◌>>=◌,
  handle,
}
use kafkarator.Base.Int.{pos}
use kafkarator.Kafka.Transactions.{Record, Begun, Sent, IsTransactional}
use kafkarator.Kafka.Producer.{
  Message, Sarama, Machine, Producer, fatal, is_fatal, produce, abort_with, send_all, commit,
  produce_tx, retry_count,
}
use kafkarator.Kafka.Commit.{Atomic, fatal-Atomic, Failed-bind, abort_with-Failed, commit-Atomic}

module _ {P W : Type 0} (sarama : Sarama P W) (machine : Machine W) (p : Producer P)
    (committed pending : W → List Record) (is_open : W → Bool)
    (T : IsTransactional sarama p.producer committed pending is_open) where
  abbrev pub records : List Message → List Record
  records msgs = map (λ m. (p.topic, m)) msgs

  abbrev record_of : Message → Record
  record_of m = (p.topic, m)

  send-step :
      (before all : List Record) (k : ℤ × ℤ → Action W (ℤ × ℤ)) (m : Message) (s : Sys W)
      (next : ℤ × ℤ → Action W (ℤ × ℤ)) (x : Result (ℤ × ℤ) × W)
      → committed s.world ≡ before
      → Sent committed pending is_open s.world (record_of m) x
      → ((sent : ℤ × ℤ) (t : Sys W)
          → committed t.world ≡ before
          → pending t.world ≡ pending s.world ++ (record_of m ∷ [])
          → Atomic sarama machine p committed pending is_open T all before ((next sent >>= k) t))
      → Atomic sarama machine p committed pending is_open T all before (
          (handle
                (call (λ _. x))
                next
                (λ e. abort_with sarama machine p e ("produce error: " <> error_text e))
              >>= k)
            s)
  send-step before all k m s next (ok sent, w) h c rest =
      rest sent (record s { world = w }) (c.0 ∙ h) c.1
  send-step before all k m s next (err e, w) h c rest =
      Failed-bind sarama machine p committed pending is_open T all before k
        (abort_with sarama machine p e ("produce error: " <> error_text e) (record s { world = w }))
        s
        (abort_with-Failed sarama machine p committed pending is_open T before e _
          (record s { world = w }) (c ∙ h))
  send-step before all k m s next (panic, w) h c rest = inl (c ∙ h)

  send_all-Atomic :
      (before all done : List Record) (k : ℤ × ℤ → Action W (ℤ × ℤ))
      → ((sent : ℤ × ℤ) (t : Sys W)
          → committed t.world ≡ before
          → pending t.world ≡ done
          → Atomic sarama machine p committed pending is_open T all before (k sent t))
      → (msgs : List Message) (sent : ℤ × ℤ) (s : Sys W) → committed s.world ≡ before
      → pending s.world ++ records msgs ≡ done
      → Atomic sarama machine p committed pending is_open T all before
          ((send_all sarama machine p sent msgs >>= k) s)
  unfolding send_all produce
  send_all-Atomic before all done k f [] sent s h e = f sent s h (sym (append-nil _) ∙ e)
  send_all-Atomic before all done k f (m ∷ msgs) sent s h e =
      send-step before all k m s (λ next. send_all sarama machine p next msgs) _ h
        (T.send_law s.world p.topic (machine.now s.world) m)
        (λ next t c g. send_all-Atomic before all done k f msgs next t c (
          ap (λ l. l ++ records msgs) g
          ∙ append_assoc (pending s.world) (record_of m ∷ []) (records msgs)
          ∙ e))

  pub sending-Atomic :
      (msgs : List Message) (s : Sys W) (w : W)
      → Begun committed pending is_open s.world (ok tt, w)
      → Atomic sarama machine p committed pending is_open T
          (committed s.world ++ records msgs)
          (committed s.world)
          ((send_all sarama machine p (pos 0, pos 0) msgs >>= λ sent.
              commit sarama machine p retry_count sent (text "<nil>"))
            (record s { world = w }))
  sending-Atomic msgs s w c =
      send_all-Atomic (committed s.world) (committed s.world ++ records msgs) (records msgs)
        (λ sent. commit sarama machine p retry_count sent (text "<nil>"))
        (λ sent t h e.
          commit-Atomic sarama machine p committed pending is_open T (committed s.world)
            (records msgs) 3 sent _ t (inl (h, e)))
        msgs (pos 0, pos 0) (record s { world = w }) c.0 (ap (λ l. l ++ records msgs) c.1)

  after_begin-Atomic :
      (msgs : List Message) (s : Sys W) (x : Result (Unit {0}) × W)
      → is_open s.world ≡ false
      → Begun committed pending is_open s.world x
      → Atomic sarama machine p committed pending is_open T
          (committed s.world ++ records msgs)
          (committed s.world)
          (handle
            (call (λ _. x))
            (λ _. send_all sarama machine p (pos 0, pos 0) msgs >>= λ sent.
              commit sarama machine p retry_count sent (text "<nil>"))
            (λ e. ask (is_fatal sarama machine p) >>= λ broken.
              if broken then fail (fatal (error_text e)) else fail e)
            s)
  after_begin-Atomic msgs s (ok _, w) closed c = sending-Atomic msgs s w c
  after_begin-Atomic msgs s (err e, w) closed c = elim (Bool-cases (is_fatal sarama machine p w)) [
    | inl broken ↦ rw broken (
        fatal-Atomic sarama machine p committed pending is_open T _ (committed s.world)
          (error_text e) (record s { world = w }) (inl c.0))
    | inr fine ↦ rw fine (inl c.0, ground arith)
  ]
  after_begin-Atomic msgs s (panic, w) closed c = inl c

  -- Started with no open transaction, `ProduceTx` that succeeds has committed all its messages, in
  -- order and each once, and nothing else, also after attempts to commit that have failed, whether
  -- Kafka has completed them or not. If it fails, it has committed all of them, in order and each
  -- once, or none; and the transaction is closed unless the error is `ErrFatalProducer`. This relies
  -- on Kafka's transactions, in which a commit that fails is completed when it returns or not at all.
  pub produce_tx-Atomic :
      (msgs : List Message) (s : Sys W)
      → is_open s.world ≡ false
      → Atomic sarama machine p committed pending is_open T
          (committed s.world ++ records msgs)
          (committed s.world)
          (produce_tx sarama machine p msgs s)
  unfolding produce_tx is_sentinel string_eq
  produce_tx-Atomic msgs s closed = elim (Bool-cases (is_fatal sarama machine p s.world)) [
    | inl stuck ↦ rw stuck (inl refl, refl)
    | inr alive ↦ rw alive (after_begin-Atomic msgs s _ closed (T.begin_law s.world))
  ]
