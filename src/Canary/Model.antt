-- ===== src/Canary/Model.antt =====
-- The state of cmd/canary/main.go, and pkg/canary/kafka: its messages and the consumer's callback.
use kafkarator.Base.{ℕ, ℤ, Bool, true, String, List, [], ◌∷◌, ◌++◌, Option, some}
use kafkarator.Go.{Result, ok, err, panic, text, error_text, Sys}
use kafkarator.Utils.Tls.{Files}
use kafkarator.Kafka.Errors.{SaramaTexts}
use kafkarator.Kafka.Producer.{Sarama, Machine, Producer}
use kafkarator.Canary.Certificates.{Certificates}

-- The gauges and histograms, by the `Name` of each.
pub data Metric : Type 0 where
  lead_time : Metric
  deploy_timestamp : Metric
  start_timestamp : Metric
  last_produced : Metric
  last_consumed : Metric
  last_produced_offset : Metric
  last_consumed_offset : Metric
  produce_latency : Metric
  produce_tx_latency : Metric
  consume_latency : Metric
  transaction_latency : Metric
  transacted_messages_total : Metric
  last_consumed_tx : Metric

-- One value that is given to a metric. An offset stands as an integer, not as a float.
pub data Sample (Time : Type 0) : Type 0 where
  -- `SetToCurrentTime()`, with the time
  at_time : Metric → Time → Sample Time
  -- `Set` of an integer
  value : Metric → ℤ → Sample Time
  -- `Set` or `Observe` of `time.Since(t).Seconds()`: `t`, and the time now
  since : Metric → Time → Time → Sample Time

-- `canarykafka.Message`
pub record CanaryMessage (Time : Type 0) : Type 0 where
  pub offset : ℤ
  pub time_stamp : Time
  pub partition : ℤ

-- `sarama.ConsumerMessage`, as far as it is read.
pub record ConsumerMessage : Type 0 where
  pub value : List ℕ
  pub offset : ℤ
  pub partition : ℤ

-- Go's package `time`.
pub record Clock (W Time : Type 0) : Type 0 where
  pub now : W → Time
  -- the bytes of `Format(time.RFC3339Nano)`
  pub format_nano : Time → List ℕ
  -- `time.Parse(time.RFC3339Nano, ...)`
  pub parse_nano : List ℕ → Result Time
  -- `time.Parse(time.RFC3339, ...)`
  pub parse_rfc3339 : String → Result Time
  pub unix : Time → ℤ

-- What the canary runs on.
pub record Platform (P W Time : Type 0) : Type 0 where
  pub sarama : Sarama P W
  pub machine : Machine W
  pub clock : Clock W Time
  pub files : Files W
  pub texts : SaramaTexts
  -- the partition and the offset that `SendMessage` returns beside an error
  pub on_error : ℤ × ℤ

-- How the process ends: `os.Exit` with one of the three codes, or a panic.
pub data Exit : Type 0 where
  exit_ok : Exit
  exit_config : Exit
  exit_runtime : Exit
  crashed : Exit

-- The variables of `main`, with the two channels as queues, and the metrics.
pub record Canary (P W Time : Type 0) : Type 0 where
  pub sys : Sys W
  -- `ctx.Err() != nil`
  pub cancelled : Bool
  pub exit : Option Exit
  pub cert_bundle : Certificates
  pub prod : Producer P
  pub prodtx : Producer P
  pub cons : List (CanaryMessage Time)
  pub cons_tx : List (CanaryMessage Time)
  pub samples : List (Sample Time)

-- The capacity of both channels.
abbrev pub capacity : ℕ
capacity = 32

module _ {P W Time : Type 0} where
  -- `cancel()`
  unfoldable pub cancel : Canary P W Time → Canary P W Time
  cancel c = record c { cancelled = true }

  -- A panic ends the process.
  unfoldable pub crash : Canary P W Time → Canary P W Time
  crash c = record c { exit = some crashed }

  -- A metric gets a value.
  unfoldable pub sample : Sample Time → Canary P W Time → Canary P W Time
  sample s c = record c { samples = c.samples ++ (s ∷ []) }

  module _ (platform : Platform P W Time) where
    abbrev pub time_now : Canary P W Time → Time
    time_now c = platform.clock.now c.sys.world

    -- The message of the callback, on the outcome of `time.Parse`.
    unfoldable pub message_of : ConsumerMessage → Result Time → Result (CanaryMessage Time)
    message_of msg (ok t) =
        ok (record { offset = msg.offset; time_stamp = t; partition = msg.partition })
    message_of msg (err e) = err (text (error_text e))
    message_of msg panic = panic

    -- `Callback.Callback` up to the send on the channel. It never asks for a further attempt.
    unfoldable pub callback : ConsumerMessage → Result (CanaryMessage Time)
    unfolding message_of
    callback msg = message_of msg (platform.clock.parse_nano msg.value)
