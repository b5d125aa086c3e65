-- ===== src/Canary/TickTests.antt =====
-- A tick that fails, a message that comes back, and a certificate that is renewed.
use kafkarator.Base.{ℕ, ◌≡◌, refl, [], ◌∷◌, ◌++◌, some, string_eq}
use kafkarator.Base.Int.{pos, negsuc}
use kafkarator.Go.{ok, err, text, error_text}
use kafkarator.Utils.Tls.{Files, tls_from_files, describe}
use kafkarator.Kafka.Errors.{is_err_unauthorized}
use kafkarator.Kafka.Producer
use kafkarator.Canary.Certificates.{bundle, new, diff_and_update}
use kafkarator.Canary.Model.{
  Platform, Canary, exit_runtime, at_time, value, since, last_consumed, last_consumed_offset,
  consume_latency,
}
use kafkarator.Canary.Loop.{produce_tick, consume, deliver, step}
use kafkarator.Canary.Ticks.{produced, produce_tick-failure, deliver-consume}
use kafkarator.Canary.Renewal.{diff_and_update-new}
use kafkarator.Canary.Tests.{World, platform, first, echo}

-- The broker no longer lets the canary in.
abbrev locked : Platform (Unit {0}) World ℕ
locked = record platform {
  sarama = record platform.sarama { send_message = λ p m w. (err (text "topic"), w) };
}

produce_tick-failure_example :
    (d : Canary (Unit {0}) World ℕ) × (step locked produce_tick first ≡ some d)
    × (produced locked d ≡ negsuc 0 ∷ [])
    × (d.exit ≡ some exit_runtime)
unfolding Producer.produce is_err_unauthorized error_text string_eq
produce_tick-failure_example =
    produce_tick-failure locked first (text "topic") first.sys refl refl refl

deliver-consume_example :
    (d : Canary (Unit {0}) World ℕ) × (f : Canary (Unit {0}) World ℕ) × (step platform
        (deliver echo)
        first
      ≡ some d)
    × (step platform consume d ≡ some f)
    × (f.samples
        ≡ first.samples
          ++ (at_time last_consumed 40 ∷ [])
          ++ (since consume_latency 40 40 ∷ [])
          ++ (value last_consumed_offset (pos 7) ∷ []))
deliver-consume_example = deliver-consume platform first 40 (pos 7) (pos 0) refl refl refl

-- Files that change with the number that the world is.
abbrev files : Files ℕ
files = record { read_file = λ w path. ok (w ∷ []) }

diff_and_update-new_example :
    diff_and_update files 2 (bundle files "crt" "key" "ca" (1 ∷ [], 1 ∷ [], 1 ∷ []))
    ≡ record (bundle files "crt" "key" "ca" (1 ∷ [], 1 ∷ [], 1 ∷ [])) { cert = 2 ∷ [] }
unfolding new tls_from_files describe
diff_and_update-new_example = diff_and_update-new files "crt" "key" "ca" 1 2 _ _ refl refl
