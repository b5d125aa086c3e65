-- ===== src/Kafka/Errors.antt =====
-- pkg/kafka/kafka.go: `IsErrUnauthorized`. The texts of sarama's errors are a parameter.
use kafkarator.Base.{Bool, true, false, String, ◌==◌, string_eq, if◌then◌else◌}
use kafkarator.Go.{Error, error_text}

-- What `Error()` of four error codes of sarama prints.
pub record SaramaTexts : Type 0 where
  pub topic_authorization_failed : String
  pub cluster_authorization_failed : String
  pub group_authorization_failed : String
  pub sasl_authentication_failed : String

-- `IsErrUnauthorized`
unfoldable pub is_err_unauthorized : SaramaTexts → Error → Bool
is_err_unauthorized sarama e =
    let s = error_text e in
    if s == sarama.topic_authorization_failed
    then true
    else (if s == sarama.cluster_authorization_failed
        then true
        else (if s == sarama.group_authorization_failed
            then true
            else (if s == sarama.sasl_authentication_failed then true else false)))
