-- ===== src/Kafka/Group.antt =====
-- pkg/kafka/consumer/consumer.go: `New` and its two goroutines. The consumer groups of sarama are a
-- parameter. The pause in front of a further session is left out.
use kafkarator.Base.{
  ℕ, ℤ, zero, suc, ◌<◌, ◌≡◌, refl, Bool, true, false, String, List, [], ◌∷◌, Option, none, some,
  if◌then◌else◌, arith,
}
use kafkarator.Go.{Error, Result, Action, pure, call, ask, ◌>>=◌}
use kafkarator.Kafka.Errors.{SaramaTexts, is_err_unauthorized}

-- `sarama.Config`, as far as it depends on the machine and the arguments of `New`.
pub record GroupConfig : Type 0 where
  pub client_id : String
  pub max_processing_time : ℤ

-- `sarama.NewConsumerGroup`. `G` is the type of consumer groups.
pub record Groups (G W : Type 0) : Type 0 where
  pub new_consumer_group : List String → String → GroupConfig → W → Result G × W
  -- `Consume` on one topic, which returns when the session ends
  pub consume : G → String → W → Result (Unit {0}) × W

-- `Config`, without the callback. Durations are in nanoseconds.
pub record Config : Type 0 where
  pub brokers : List String
  pub group_id : String
  pub max_processing_time : ℤ
  pub retry_interval : ℤ
  pub topic : String

-- `Consumer`, without the callback.
pub record Consumer (G : Type 0) : Type 0 where
  pub consumer : G
  pub group_id : String
  pub retry_interval : ℤ
  pub topic : String

-- `New`, with the consumer that the goroutines run.
unfoldable pub new_consumer :
    {G W : Type 0} → Groups G W → (W → String) → Config → Action W (Consumer G)
new_consumer groups hostname cfg = ask hostname >>= λ client_id.
    call (
      groups.new_consumer_group cfg.brokers cfg.group_id
        (record { client_id = client_id; max_processing_time = cfg.max_processing_time }))
    >>= λ group. pure (record {
      consumer = group;
      group_id = cfg.group_id;
      retry_interval = cfg.retry_interval;
      topic = cfg.topic;
    })

-- The loop over `Errors()`: whether it calls `cancel()`, and the errors that it leaves unread.
unfoldable pub watch_errors : SaramaTexts → List Error → Bool × List Error
watch_errors texts [] = (false, [])
watch_errors texts (e ∷ es) =
    let rest = watch_errors texts es in if is_err_unauthorized texts e then (true, es) else rest

-- The loop of the goroutine that consumes, with `ctx.Err() != nil` read off the world: the state in which it
-- ends, if that is after at most as many sessions as the fuel. An error of a session is only logged.
unfoldable pub consume_sessions :
    {G W : Type 0} → Groups G W → (W → Bool) → ℕ → Consumer G → W → Option W
consume_sessions groups cancelled zero c w = if cancelled w then some w else none
consume_sessions groups cancelled (suc fuel) c w =
    let rest = consume_sessions groups cancelled fuel c (groups.consume c.consumer c.topic w).1 in
    if cancelled w then some w else rest

-- The state after a number of sessions.
abbrev after_sessions : {G W : Type 0} → Groups G W → ℕ → Consumer G → W → W
after_sessions groups zero c w = w
after_sessions groups (suc n) c w =
    after_sessions groups n c (groups.consume c.consumer c.topic w).1

-- If the context is cancelled after `n` sessions and not before, `n` is fuel enough.
consume_sessions-ends :
    {G W : Type 0} (groups : Groups G W) (cancelled : W → Bool) (n : ℕ) (c : Consumer G) (w : W)
    → ((k : ℕ) → k < n → cancelled (after_sessions groups k c w) ≡ false)
    → cancelled (after_sessions groups n c w) ≡ true
    → consume_sessions groups cancelled n c w ≡ some (after_sessions groups n c w)
unfolding consume_sessions
consume_sessions-ends groups cancelled zero c w before ended = rw ended refl
consume_sessions-ends groups cancelled (suc n) c w before ended =
    let rest =
      consume_sessions-ends groups cancelled n c (groups.consume c.consumer c.topic w).1
        (λ k less. before (suc k) (omega (arith, less))) ended in
    rw (before 0 (omega arith)) rest
