-- ===== src/Utils/Tests.antt =====
-- Errors with and without a trigger word.
use kafkarator.Base.{◌≡◌, refl, All, nat_eq}
use kafkarator.Go.{text, error_text}
use kafkarator.Utils.CredStrip.{
  trigger_words, has_trigger, codes, lower, is_prefix, contains_text,
  check_for_possible_credentials,
}
use kafkarator.Utils.Redaction.{Occurs, clean-no_word, check-redacts, check-unchanged}

check-redacts_example :
    All
      (λ word. ¬ (Occurs word (error_text (check_for_possible_credentials (text "bad Token xyz")))))
      trigger_words
check-redacts_example = check-redacts (text "bad Token xyz")

harmless : All (λ word. ¬ (Occurs word "timed out")) trigger_words
unfolding has_trigger codes lower is_prefix contains_text nat_eq
harmless = clean-no_word "timed out" refl

check-unchanged_example : check_for_possible_credentials (text "timed out") ≡ text "timed out"
unfolding error_text
check-unchanged_example = check-unchanged (text "timed out") harmless
