-- ===== src/Canary/Startup.antt =====
-- cmd/canary/main.go: `formatter`, `recordStartupTimes`, and `main` up to its loop. The configuration
-- values are read once; the server of the metrics is left out.
use kafkarator.Base.{
  ℤ, true, false, String, ◌<>◌, List, [], ◌∷◌, none, ◌==◌, string_eq, if◌then◌else◌,
}
use kafkarator.Base.Int.{pos}
use kafkarator.Go.{Result, ok, err, panic, text, Sys, Action, lift, ◌>>=◌, ◌>>?◌}
use kafkarator.Kafka.Tls.{Crypto, tls_config}
use kafkarator.Kafka.Producer
use kafkarator.Kafka.Producer.{Producer}
use kafkarator.Kafka.Group.{Groups, Config, new_consumer}
use kafkarator.Canary.Certificates
use kafkarator.Canary.Certificates.{Certificates}
use kafkarator.Canary.Model.{
  Sample, at_time, value, since, start_timestamp, deploy_timestamp, lead_time, Platform, Exit,
  exit_config, crashed, Canary,
}

-- The configuration options.
pub record Settings : Type 0 where
  pub kafka_brokers : List String
  pub kafka_ca_path : String
  pub kafka_certificate_path : String
  pub kafka_group_id : String
  pub kafka_key_path : String
  pub kafka_topic : String
  pub deploy_start_time : String
  pub log_format : String
  pub kafka_transaction_topic : String

-- The two formatters of logrus.
pub data Formatter : Type 0 where
  json_formatter : Formatter
  text_formatter : Formatter

-- `formatter`
unfoldable pub formatter : String → Result Formatter
formatter log_format =
    if log_format == "json"
    then ok json_formatter
    else (if log_format == "text"
        then ok text_formatter
        else err (text ("unsupported log format '" <> log_format <> "'")))

abbrev second : ℤ
second = pos 1000000000

abbrev ten_seconds : ℤ
ten_seconds = pos 10000000000

-- How `main` goes on: with an exit code, or into its loop.
pub data Started (P W Time : Type 0) : Type 0 where
  stopped : Exit → Sys W → Started P W Time
  ready : Canary P W Time → Started P W Time

module _ {P W Time : Type 0} (platform : Platform P W Time) where
  -- `recordStartupTimes`: what the three gauges are set to.
  unfoldable pub record_startup_times : Settings → W → Result (List (Sample Time))
  record_startup_times settings w =
      platform.clock.parse_rfc3339 settings.deploy_start_time >>? λ deploy_start_time. ok (
        at_time start_timestamp (platform.clock.now w)
        ∷ value deploy_timestamp (platform.clock.unix deploy_start_time)
        ∷ since lead_time deploy_start_time (platform.clock.now w)
        ∷ [])

  -- A read of the world that may fail.
  abbrev pub reading : {A : Type 0} → (W → Result A) → Action W A
  reading f s = (f s.world, s)

  module _ {K C G : Type 0} (crypto : Crypto K C) (groups : Groups G W) where
    -- The configuration of a consumer of a topic.
    unfoldable pub consumer_config : Settings → String → Config
    consumer_config settings topic = record {
      brokers = settings.kafka_brokers;
      group_id = settings.kafka_group_id;
      max_processing_time = second;
      retry_interval = ten_seconds;
      topic = topic;
    }

    -- The state in which the loop begins.
    abbrev pub initial :
        Certificates → Producer P → Producer P → List (Sample Time) → Sys W → Canary P W Time
    initial cert_bundle prod prodtx samples t = record {
      sys = t;
      cancelled = false;
      exit = none;
      cert_bundle = cert_bundle;
      prod = prod;
      prodtx = prodtx;
      cons = [];
      cons_tx = [];
      samples = samples;
    }

    -- The two consumers, and the state in which the loop begins.
    unfoldable pub start_consumers :
        Settings
        → Certificates
        → Producer P
        → Producer P
        → List (Sample Time)
        → Action W (Canary P W Time)
    unfolding consumer_config
    start_consumers settings bundle prod prodtx samples =
        new_consumer groups platform.machine.hostname
          (consumer_config settings settings.kafka_transaction_topic)
        >>= λ group_tx.
            new_consumer groups platform.machine.hostname
              (consumer_config settings settings.kafka_topic)
            >>= λ group. λ t. (ok (initial bundle prod prodtx samples t), t)

    -- The two producers, and what follows.
    unfoldable pub start_producers :
        Settings → Certificates → List (Sample Time) → Action W (Canary P W Time)
    unfolding start_consumers
    start_producers settings bundle samples =
        Producer.new platform.sarama platform.machine settings.kafka_brokers settings.kafka_topic
          true
        >>= λ prodtx.
            Producer.new platform.sarama platform.machine settings.kafka_brokers
              settings.kafka_topic false
            >>= λ prod. start_consumers settings bundle prod prodtx samples

    -- The certificates, and what follows.
    unfoldable pub load_certificates : Settings → List (Sample Time) → Action W (Canary P W Time)
    unfolding start_producers
    load_certificates settings samples =
        reading (λ w.
          Certificates.new platform.files w settings.kafka_certificate_path settings.kafka_key_path
            settings.kafka_ca_path)
        >>= λ bundle. lift (tls_config crypto bundle.cert bundle.key bundle.ca) >>= λ tls.
            start_producers settings bundle samples

    -- `main` up to the loop; every error in it ends the process.
    unfoldable pub prepare : Settings → Action W (Canary P W Time)
    unfolding formatter record_startup_times load_certificates
    prepare settings = lift (formatter settings.log_format) >>= λ logfmt.
        reading (record_startup_times settings) >>= λ samples. load_certificates settings samples

    started : Result (Canary P W Time) × Sys W → Started P W Time
    started (ok c, t) = ready c
    started (err _, t) = stopped exit_config t
    started (panic, t) = stopped crashed t

    -- `main` up to the loop, with the exit code that follows an error.
    unfoldable pub start_up : Settings → Sys W → Started P W Time
    unfolding prepare started
    start_up settings s = started (prepare settings s)
