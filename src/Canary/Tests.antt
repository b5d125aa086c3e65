-- ===== src/Canary/Tests.antt =====
-- A run of the canary over a broker in memory: a plain message that comes back, and a transaction.
use kafkarator.Base.{
  ℕ, ◌≤◌, ◌≡◌, refl, ap, ◌+◌, Bool, true, false, List, [], ◌∷◌, ◌++◌, Option, none, some, string_eq,
  list_eq, nat_eq, length,
}
use kafkarator.Base.Int.{pos, negsuc}
use kafkarator.Go.{Result, ok, err, text, Sys}
use kafkarator.Utils.Tls.{tls_from_files, describe}
use kafkarator.Kafka.Producer
use kafkarator.Kafka.Producer.{
  Sarama, Machine, Producer, config_for, is_fatal, send_all, commit, abort_with,
}
use kafkarator.Kafka.Tls.{Crypto, tls_config, required, explained}
use kafkarator.Kafka.Group.{Groups, new_consumer}
use kafkarator.Kafka.Transactions.{Record}
use kafkarator.Canary.Certificates
use kafkarator.Canary.Certificates.{diff_and_update, update_with}
use kafkarator.Canary.Model.{
  Platform, at_time, value, since, start_timestamp, deploy_timestamp, lead_time, Canary,
  ConsumerMessage, sample, message_of, callback,
}
use kafkarator.Canary.Broker.{IsBroker}
use kafkarator.Canary.Produce.{
  repeated, report_produced, after_produce, produce, after_transaction, produce_tx,
}
use kafkarator.Canary.Loop.{
  Event, produce_tick, consume, produce_tx_tick, deliver, end_iteration, on_produce_tick,
  on_message, receive, send, on_event, step, Run, done, then_, elsewhere,
}
use kafkarator.Canary.Batches.{batches, transacted}
use kafkarator.Canary.Channels.{IsConsistent, received}
use kafkarator.Canary.Startup.{
  Settings, record_startup_times, formatter, consumer_config, initial, start_consumers,
  start_producers, load_certificates, prepare,
}
use kafkarator.Canary.Main.{main-IsConsistent, main-keeps_order, main-commits_batches}

pub record World : Type 0 where
  pub committed : List Record
  pub pending : List Record
  pub is_open : Bool
  pub hours : ℕ

abbrev pub sarama : Sarama (Unit {0}) World
sarama = record {
  new_sync_producer = λ brokers config w. (ok tt, w);
  send_message =
      λ p m w. (ok (pos 0, pos 7), record w { pending = w.pending ++ ((m.topic, m.value) ∷ []) });
  begin_txn = λ p w. (ok tt, record w { pending = []; is_open = true });
  commit_txn = λ p w.
      (ok tt, record w { committed = w.committed ++ w.pending; pending = []; is_open = false });
  abort_txn = λ p w. (ok tt, record w { pending = []; is_open = false });
  close = λ p w. (ok tt, w);
  has_fatal_flag = λ p w. false;
  is_uninitialized = λ p w. false;
}

sarama-IsBroker : IsBroker sarama (λ (w : World). w.committed) (λ p w. w.pending) (λ p w. w.is_open)
sarama-IsBroker = record {
  transactional = λ p. record {
    begin_law = λ w. (refl, refl, refl);
    send_law = λ w topic timestamp value. (refl, refl);
    commit_law = λ w. (refl, refl);
    abort_law = λ w. (refl, refl);
  };
  new_law = λ w brokers config. refl;
  close_law = λ w p. refl;
}

-- A time is a number, and its text is the number itself.
abbrev pub parse : List ℕ → Result ℕ
parse (n ∷ []) = ok n
parse _ = err (text "cannot parse time")

abbrev pub platform : Platform (Unit {0}) World ℕ
platform = record {
  sarama = sarama;
  machine = record { hostname = λ w. "canary"; uuid = λ w. "uuid"; now = λ w. "now" };
  clock = record {
    now = λ w. 40 + w.hours + length w.pending;
    format_nano = λ t. t ∷ [];
    parse_nano = parse;
    parse_rfc3339 = λ s. ok 30;
    unix = λ t. pos t;
  };
  files = record { read_file = λ w path. ok (1 ∷ []) };
  texts = record {
    topic_authorization_failed = "topic";
    cluster_authorization_failed = "cluster";
    group_authorization_failed = "group";
    sasl_authentication_failed = "sasl";
  };
  on_error = (negsuc 0, negsuc 0);
}

abbrev pub crypto : Crypto (Unit {0}) (Unit {0})
crypto = record {
  decode = λ bytes. some bytes;
  parse_private_key_pem = λ bytes. ok tt;
  parse_certificate = λ bytes. ok tt;
}

abbrev pub groups : Groups (Unit {0}) World
groups = record {
  new_consumer_group = λ brokers group config w. (ok tt, w);
  consume = λ g topic w. (ok tt, w);
}

abbrev settings : Settings
settings = record {
  kafka_brokers = [];
  kafka_ca_path = "ca.crt";
  kafka_certificate_path = "kafka.crt";
  kafka_group_id = "canary";
  kafka_key_path = "kafka.key";
  kafka_topic = "kafkarator-canary";
  deploy_start_time = "2024-01-01T00:00:00Z";
  log_format = "text";
  kafka_transaction_topic = "kafkarator-tx-canary";
}

abbrev pub before : Sys World
before = record {
  world = record { committed = []; pending = []; is_open = false; hours = 0 };
  observed = [];
  processed = [];
}

abbrev else_ :
    Canary (Unit {0}) World ℕ → Option (Canary (Unit {0}) World ℕ) → Canary (Unit {0}) World ℕ
else_ c none = c
else_ c (some d) = d

abbrev pub prod : Bool → Producer (Unit {0})
prod tx = record { producer = tt; topic = "kafkarator-canary"; brokers = []; tx_producer = tx }

abbrev pub first : Canary (Unit {0}) World ℕ
first =
    initial platform crypto groups
      (record {
        cert_path = "kafka.crt";
        key_path = "kafka.key";
        ca_path = "ca.crt";
        cert = 1 ∷ [];
        key = 1 ∷ [];
        ca = 1 ∷ [];
      })
      (prod false) (prod true)
      (at_time start_timestamp 40 ∷ value deploy_timestamp (pos 30) ∷ since lead_time 30 40 ∷ [])
      before

prepared : prepare platform crypto groups settings before ≡ (ok first, before)
unfolding prepare formatter record_startup_times load_certificates Certificates.new tls_from_files
    describe tls_config required explained start_producers Producer.new config_for start_consumers
    new_consumer consumer_config string_eq
prepared = refl

-- A tick, the message of the tick as it comes back, and a transaction.
abbrev pub echo : ConsumerMessage
echo = record { value = 40 ∷ []; offset = pos 7; partition = pos 0 }

abbrev ticked : Canary (Unit {0}) World ℕ
ticked = else_ first (step platform produce_tick first)

abbrev filled : Canary (Unit {0}) World ℕ
filled = else_ first (step platform (deliver echo) ticked)

abbrev emptied : Canary (Unit {0}) World ℕ
emptied = else_ first (step platform consume filled)

-- An hour passes before the transaction.
abbrev later : Canary (Unit {0}) World ℕ
later = record emptied {
  sys = record emptied.sys { world = record emptied.sys.world { hours = 1 } };
}

abbrev last : Canary (Unit {0}) World ℕ
last = else_ first (step platform produce_tx_tick later)

-- Only time passes by itself.
abbrev Passes : World → World → Type 0
Passes v w = w ≡ record v { hours = w.hours }

Passes-committed : (v w : World) → Passes v w → w.committed ≡ v.committed
Passes-committed v w h = ap (λ (u : World). u.committed) h

abbrev events : List Event
events = produce_tick ∷ deliver echo ∷ consume ∷ produce_tx_tick ∷ []

first_run : Run platform Passes first events last
unfolding step on_event on_produce_tick produce Producer.produce after_produce report_produced
    sample diff_and_update update_with tls_from_files describe end_iteration string_eq callback
    message_of send receive on_message produce_tx Producer.produce_tx is_fatal send_all commit
    after_transaction repeated list_eq nat_eq
first_run = then_ {d = ticked} refl (
    then_ {d = filled} refl (
      then_ {d = emptied} refl (elsewhere {w = later.sys.world} refl (then_ {d = last} refl done))))

main-IsConsistent_example : IsConsistent last
main-IsConsistent_example =
    main-IsConsistent platform crypto groups settings before before first last events prepared
      Passes first_run

main-keeps_order_example : received last ≡ pos 7 ∷ []
unfolding callback message_of
main-keeps_order_example =
    main-keeps_order platform crypto groups settings before before first last events prepared Passes
      first_run

main-commits_batches_example :
    (ts : List ℕ) × (last.sys.world.committed
      ≡ first.sys.world.committed
        ++ batches platform
            (λ w. w.committed)
            (λ p w. w.pending)
            (λ p w. w.is_open)
            sarama-IsBroker
            "kafkarator-canary"
            ts)
    × (length (
          transacted platform
            (λ w. w.committed)
            (λ p w. w.pending)
            (λ p w. w.is_open)
            sarama-IsBroker
            last)
        ≤ length ts)
main-commits_batches_example =
    main-commits_batches platform crypto groups settings before before first last events prepared
      Passes first_run (λ w. w.committed) (λ p w. w.pending) (λ p w. w.is_open) sarama-IsBroker
      Passes-committed
