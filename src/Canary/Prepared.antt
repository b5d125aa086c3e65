-- ===== src/Canary/Prepared.antt =====
-- What `main` of the canary has set up when it enters its loop.
use kafkarator.Base.{◌≡◌, refl, Bool, true, false, String, List, [], ◌∷◌, none}
use kafkarator.Go.{Result, ok, err, panic, Sys, Action, ◌>>=◌, ◌>>?◌, lift, pure, call}
use kafkarator.Go.Posts.{Post, Post-bind, Post-at}
use kafkarator.Kafka.Tls.{Crypto, tls_config}
use kafkarator.Kafka.Producer
use kafkarator.Kafka.Producer.{Producer, Sarama, Machine}
use kafkarator.Kafka.Group.{Groups, Consumer, new_consumer}
use kafkarator.Canary.Certificates
use kafkarator.Canary.Model.{
  Sample, Platform, Canary, at_time, value, since, start_timestamp, deploy_timestamp, lead_time,
}
use kafkarator.Canary.Samples.{transacted_value, consumed_value, values}
use kafkarator.Canary.Startup.{
  Settings, record_startup_times, formatter, consumer_config, initial, start_consumers,
  start_producers, load_certificates, prepare, reading,
}

-- A new producer sends to the topic that it is made for.
new-topic :
    {P W : Type 0} (sarama : Sarama P W) (machine : Machine W) (brokers : List String)
    (topic : String) (tx : Bool) (s : Sys W)
    → Post (λ (p : Producer P) t. p.topic ≡ topic) (Producer.new sarama machine brokers topic tx s)
unfolding Producer.new
new-topic {P} {W} sarama machine brokers topic tx s =
    go (sarama.new_sync_producer brokers _ s.world)
  where
    go :
        (x : Result P × W)
        → Post
            (λ (p : Producer P) t. p.topic ≡ topic)
            ((call (λ _. x) >>= λ p.
                pure (record { producer = p; topic = topic; brokers = brokers; tx_producer = tx }))
              s)
    go (ok p, w) = refl
    go (err _, w) = tt
    go (panic, w) = tt

-- No transaction and no message has been reported.
abbrev pub IsQuietStart : {Time : Type 0} → List (Sample Time) → Type 0
IsQuietStart l = (values transacted_value l ≡ []) × (values consumed_value l ≡ [])

-- The state in which `main` enters its loop.
abbrev pub IsStart : {P W Time : Type 0} → Settings → Canary P W Time → Type 0
IsStart settings c =
    (c.prodtx.topic ≡ settings.kafka_topic)
    × IsQuietStart c.samples
    × (c.cons ≡ [])
    × (c.cons_tx ≡ [])
    × (c.exit ≡ none)

module _ {P W Time : Type 0} (platform : Platform P W Time) where
  startup_times-quiet :
      (settings : Settings) (s : Sys W)
      → Post (λ l t. IsQuietStart l) (reading platform (record_startup_times platform settings) s)
  unfolding record_startup_times
  startup_times-quiet settings s = go (platform.clock.parse_rfc3339 settings.deploy_start_time)
    where
      go :
          (x : Result Time)
          → Post
              (λ (l : List (Sample Time)) t. IsQuietStart l)
              (
                x >>? (λ u. ok (
                    at_time start_timestamp (platform.clock.now s.world)
                    ∷ value deploy_timestamp (platform.clock.unix u)
                    ∷ since lead_time u (platform.clock.now s.world)
                    ∷ [])),
                s,
              )
      go (ok u) = (refl, refl)
      go (err _) = tt
      go panic = tt

  module _ {K C G : Type 0} (crypto : Crypto K C) (groups : Groups G W) (settings : Settings) where
    abbrev Starts : Canary P W Time → Sys W → Type 0
    Starts c t = IsStart settings c

    start_consumers-Starts :
        (bundle : Certificates.Certificates) (prod prodtx : Producer P) (l : List (Sample Time))
        (s : Sys W)
        → prodtx.topic ≡ settings.kafka_topic
        → IsQuietStart l
        → Post Starts (start_consumers platform crypto groups settings bundle prod prodtx l s)
    unfolding start_consumers
    start_consumers-Starts bundle prod prodtx l s h q =
        let last : Consumer G → Action W (Canary P W Time) =
          λ group t. (ok (initial platform crypto groups bundle prod prodtx l t), t) in
        let second =
          new_consumer groups platform.machine.hostname
            (consumer_config platform crypto groups settings settings.kafka_topic) in
        Post-bind Starts
          (new_consumer groups platform.machine.hostname
            (consumer_config platform crypto groups settings settings.kafka_transaction_topic))
          (λ _. second >>= last) s
          (λ a t e. Post-bind Starts second last t (λ b u f. (h, q, refl, refl, refl)))

    start_producers-Starts :
        (bundle : Certificates.Certificates) (l : List (Sample Time)) (s : Sys W)
        → IsQuietStart l
        → Post Starts (start_producers platform crypto groups settings bundle l s)
    unfolding start_producers
    start_producers-Starts bundle l s q =
        let make =
          Producer.new platform.sarama platform.machine settings.kafka_brokers
            settings.kafka_topic in
        let last = λ (prodtx prod : Producer P).
          start_consumers platform crypto groups settings bundle prod prodtx l in
        Post-bind Starts (make true) (λ prodtx. make false >>= last prodtx) s
          (λ prodtx t e. Post-bind Starts (make false) (last prodtx) t (λ prod u f.
            start_consumers-Starts bundle prod prodtx l u
              (Post-at (λ (p : Producer P) v. p.topic ≡ settings.kafka_topic) _ prodtx t e
                (new-topic platform.sarama platform.machine settings.kafka_brokers
                  settings.kafka_topic true s))
              q))

    load_certificates-Starts :
        (l : List (Sample Time)) (s : Sys W)
        → IsQuietStart l
        → Post Starts (load_certificates platform crypto groups settings l s)
    unfolding load_certificates
    load_certificates-Starts l s q =
        let tls =
          λ (b : Certificates.Certificates). lift {W = W} (tls_config crypto b.cert b.key b.ca) in
        let last =
          λ (b : Certificates.Certificates). start_producers platform crypto groups settings b l in
        Post-bind Starts
          (reading platform (λ w.
            Certificates.new platform.files w settings.kafka_certificate_path
              settings.kafka_key_path settings.kafka_ca_path))
          (λ b. tls b >>= λ _. last b) s
          (λ b t e.
            Post-bind Starts (tls b) (λ _. last b) t (λ _ u f. start_producers-Starts b l u q))

    pub prepare-Starts : (s : Sys W) → Post Starts (prepare platform crypto groups settings s)
    unfolding prepare
    prepare-Starts s =
        let times = reading platform (record_startup_times platform settings) in
        let last = load_certificates platform crypto groups settings in
        Post-bind Starts (lift (formatter settings.log_format)) (λ _. times >>= last) s
          (λ _ t e. Post-bind Starts times last t (λ l u f. load_certificates-Starts l u (
            Post-at (λ (m : List (Sample Time)) v. IsQuietStart m) _ l u f
              (startup_times-quiet settings t))))
