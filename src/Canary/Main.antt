-- ===== src/Canary/Main.antt =====
-- The whole canary: the start of `main`, and the runs of its loop from there.
use kafkarator.Base.{◌≤◌, ◌≡◌, refl, ap, ◌∙◌, List, ◌++◌, length, Bool, arith}
use kafkarator.Go.{ok, Sys}
use kafkarator.Go.Posts.{Post-at}
use kafkarator.Kafka.Tls.{Crypto}
use kafkarator.Kafka.Transactions.{Record}
use kafkarator.Kafka.Group.{Groups}
use kafkarator.Canary.Model.{Platform, Canary}
use kafkarator.Canary.Broker.{IsBroker}
use kafkarator.Canary.Batches.{batches, transacted}
use kafkarator.Canary.Loop.{Event, Run}
use kafkarator.Canary.Transactions.{Run-commits_batches}
use kafkarator.Canary.Channels.{received, IsConsistent, Going-EndsWell, Going-none}
use kafkarator.Canary.Queues.{all_delivered, Run-IsConsistent, Run-keeps_order}
use kafkarator.Canary.Startup.{Settings, prepare}
use kafkarator.Canary.Prepared.{IsStart, prepare-Starts}

module _ {P W Time K C G : Type 0} (platform : Platform P W Time) (crypto : Crypto K C)
    (groups : Groups G W) (settings : Settings) (s t : Sys W) (c d : Canary P W Time)
    (es : List Event) (started : prepare platform crypto groups settings s ≡ (ok c, t))
    (drift : W → W → Type 0) (ran : Run platform drift c es d) where
  start : IsStart settings c
  start =
      Post-at (λ (x : Canary P W Time) u. IsStart settings x) _ c t started
        (prepare-Starts platform crypto groups settings s)

  start-IsConsistent : IsConsistent c
  start-IsConsistent =
      let (h, q, e, f, g) = start in
      (
        rw e (omega arith),
        rw f (omega arith),
        Going-EndsWell c.exit c.cancelled (Going-none c.exit g),
      )

  -- In every state that the canary reaches after its start, whatever the order of events: both
  -- channels hold at most 32 messages; and if the process has ended, then by a panic or with the
  -- context cancelled, and not with the exit code for a wrong configuration.
  pub main-IsConsistent : IsConsistent d
  main-IsConsistent = Run-IsConsistent platform drift c d es ran start-IsConsistent

  -- No message is lost, doubled or overtaken between the consumer of the canary and its metrics: the
  -- offsets that have been reported as consumed, followed by those that wait in the channel, are the
  -- offsets of the messages that the callback has delivered since the start, in order.
  pub main-keeps_order : received d ≡ all_delivered platform es
  main-keeps_order =
      let (h, (q, r), e, f, g) = start in
      Run-keeps_order platform drift c d es ran start-IsConsistent ∙ rw (r, e) refl

  module _ (committed : W → List Record) (pending : P → W → List Record) (is_open : P → W → Bool)
      (broker : IsBroker platform.sarama committed pending is_open)
      (calm : (v w : W) → drift v w → committed w ≡ committed v) where
    -- Over a broker with transactions, in every state that the canary reaches after its start,
    -- whatever the order of events, the failures, and the producers that have been made again, if
    -- nothing is committed in between by itself: what has been committed in transactions since the
    -- start of the loop is a list of whole batches on `KafkaTopic`, each of five messages with the text
    -- of one and the same time, and the gauge of transacted messages has been set at most once for each
    -- batch.
    pub main-commits_batches :
        (ts : List Time) × (committed d.sys.world
          ≡ committed c.sys.world
            ++ batches platform committed pending is_open broker settings.kafka_topic ts)
        × (length (transacted platform committed pending is_open broker d) ≤ length ts)
    main-commits_batches =
        let (topic, (quiet, r), e, f, g) = start in
        let (ts, h, k, l) =
          Run-commits_batches platform committed pending is_open broker drift calm c d es ran in
        (ts, rw topic at h, omega (arith, k, ap length quiet))
