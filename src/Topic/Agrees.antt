-- ===== src/Topic/Agrees.antt =====
-- `topicConfigChanged` against a description field by field.
use kafkarator.Base.{
  ℤ, ◌≡◌, refl, ◌↔◌, Bool, not, true, false, Option, none, some, arith, length, ◌==◌,
}
use kafkarator.Base.Int.{pos, int_eq}
use kafkarator.Go.{Result, ok, err, panic}
use kafkarator.External.{Numeric, Config, KafkaTopic}
use kafkarator.Topic.Fields.{
  retention_ms, segment_ms, percent_to_ratio, retention_hour_default, delete_retention_hour_default,
  local_retention_hour_default,
}
use kafkarator.Topic.Changed.{
  or_else, when_set, value_differs, int_p_to_value_changed, ratio_changed, ratio_differs,
  topic_config_changed,
}

or_else-false :
    (a b : Result Bool) (P Q : Type 0)
    → ((a ≡ ok false) ↔ P)
    → ((b ≡ ok false) ↔ Q)
    → (or_else a b ≡ ok false) ↔ (P × Q)
or_else-false (ok true) b P Q p q = (λ h. cc, λ (x, y). cc (p.1 x))
or_else-false (ok false) b P Q p q = (λ h. (p.0 refl, q.0 h), λ (x, y). q.1 y)
or_else-false (err e) b P Q p q = (λ h. cc, λ (x, y). cc (p.1 x))
or_else-false panic b P Q p q = (λ h. cc, λ (x, y). cc (p.1 x))

-- Where the configuration sets a field, Aiven has the value that it stands for.
abbrev pub Holds : Option ℤ → Option ℤ → Option ℤ → Type 0
Holds none wanted existing = Unit
Holds (some _) wanted existing = (w : ℤ) × (wanted ≡ some w) × (existing ≡ some w)

value_differs-false :
    (a b : Option ℤ) → (value_differs a b ≡ ok false) ↔ ((w : ℤ) × (b ≡ some w) × (a ≡ some w))
value_differs-false (some a) (some b) = (λ h. (b, refl, ground arith), λ (w, p, q). ground arith)
value_differs-false (some a) none = (λ h. cc, λ (w, p, q). cc)
value_differs-false none (some b) = (λ h. cc, λ (w, p, q). cc)
value_differs-false none none = (λ h. cc, λ (w, p, q). cc)

int-false :
    (cfg tcfg : Option ℤ) → (int_p_to_value_changed cfg tcfg ≡ ok false) ↔ Holds cfg cfg tcfg
unfolding int_p_to_value_changed
int-false none tcfg = (λ _. tt, λ _. refl)
int-false (some c) tcfg = value_differs-false tcfg (some c)

converted-false :
    (cfg wanted tcfg : Option ℤ)
    → (when_set cfg (λ _. value_differs tcfg wanted) ≡ ok false) ↔ Holds cfg wanted tcfg
converted-false none wanted tcfg = (λ _. tt, λ _. refl)
converted-false (some c) wanted tcfg = value_differs-false tcfg wanted

-- Where the configuration sets a number, this is it.
abbrev pub Is : Option ℤ → ℤ → Type 0
Is none n = Unit
Is (some v) n = n ≡ v

number-false :
    (cfg : Option ℤ) (n : ℤ) → (when_set cfg (λ v. ok (not (n == v))) ≡ ok false) ↔ Is cfg n
number-false none n = (λ _. tt, λ _. refl)
number-false (some v) n = (λ h. ground arith, λ h. ground arith)

module _ (N : Numeric) where
  -- Where the configuration sets a percentage, it is valid and Aiven has an equal ratio.
  abbrev pub HoldsRatio : Option N.IntOrString → Option N.Float64 → Type 0
  HoldsRatio none existing = Unit
  HoldsRatio (some p) existing =
      (ratio v : N.Float64) × (percent_to_ratio N (some p) ≡ ok (some ratio))
      × (existing ≡ some v)
      × (N.float_eq v ratio ≡ true)

  ratio_differs-false :
      (q : Option N.Float64) (r : Result (Option N.Float64))
      → (ratio_differs N q r ≡ ok false) ↔ (
          (ratio v : N.Float64) × (r ≡ ok (some ratio))
          × (q ≡ some v)
          × (N.float_eq v ratio ≡ true))
  ratio_differs-false (some v) (ok (some ratio)) =
      (λ h. (ratio, v, refl, refl, ground arith), λ (x, x', p, q, e). ground arith)
  ratio_differs-false (some v) (ok none) = (λ h. cc, λ (ratio, v, p, q, e). cc)
  ratio_differs-false none (ok r) = (λ h. cc, λ (ratio, v, p, q, e). cc)
  ratio_differs-false (some v) (err e) = (λ h. cc, λ (ratio, v, p, q, e). cc)
  ratio_differs-false none (err e) = (λ h. cc, λ (ratio, v, p, q, e). cc)
  ratio_differs-false (some v) panic = (λ h. cc, λ (ratio, v, p, q, e). cc)
  ratio_differs-false none panic = (λ h. cc, λ (ratio, v, p, q, e). cc)

  ratio-false :
      (cfg : Option N.IntOrString) (existing : Option N.Float64)
      → (ratio_changed N cfg existing ≡ ok false) ↔ HoldsRatio cfg existing
  unfolding ratio_changed
  ratio-false none existing = (λ _. tt, λ _. refl)
  ratio-false (some p) existing = ratio_differs-false existing _

module _ {N : Numeric} (topic : KafkaTopic N) (config : Config N) where
  -- The topic in Aiven has every value that the configuration sets. The cleanup policy is not in it.
  abbrev pub Agrees : Type 0
  Agrees =
      Is config.replication topic.replication
      × (Is config.partitions (pos (length topic.partitions))
          × (Holds config.retention_hours
                (retention_ms config.retention_hours retention_hour_default)
                topic.config.retention_ms
              × (Holds config.retention_bytes config.retention_bytes topic.config.retention_bytes
                  × (Holds config.delete_retention_hours
                        (retention_ms config.delete_retention_hours delete_retention_hour_default)
                        topic.config.delete_retention_ms
                      × (Holds config.local_retention_hours
                            (retention_ms config.local_retention_hours local_retention_hour_default)
                            topic.config.local_retention_ms
                          × (Holds config.local_retention_bytes config.local_retention_bytes
                                topic.config.local_retention_bytes
                              × (Holds config.minimum_in_sync_replicas
                                    config.minimum_in_sync_replicas topic.config.min_insync_replicas
                                  × (Holds config.segment_hours (segment_ms config)
                                        topic.config.segment_ms
                                      × (Holds config.max_message_bytes config.max_message_bytes
                                            topic.config.max_message_bytes
                                          × (Holds config.min_compaction_lag_ms
                                                config.min_compaction_lag_ms
                                                topic.config.min_compaction_lag_ms
                                              × (Holds config.max_compaction_lag_ms
                                                    config.max_compaction_lag_ms
                                                    topic.config.max_compaction_lag_ms
                                                  × HoldsRatio N
                                                      config.min_cleanable_dirty_ratio_percent
                                                      topic.config.min_cleanable_dirty_ratio)))))))))))

  -- `topicConfigChanged` answers false, with no panic, exactly if the topic in Aiven has every value
  -- that the configuration sets, the cleanup policy aside.
  pub config_differs-Agrees : (topic_config_changed topic (some config) ≡ ok false) ↔ Agrees
  unfolding topic_config_changed
  config_differs-Agrees = or_else-false _ _ _ _ (number-false _ _) (
      or_else-false _ _ _ _ (number-false _ _) (
        or_else-false _ _ _ _ (converted-false _ _ _) (
          or_else-false _ _ _ _ (int-false _ _) (
            or_else-false _ _ _ _ (converted-false _ _ _) (
              or_else-false _ _ _ _ (converted-false _ _ _) (
                or_else-false _ _ _ _ (int-false _ _) (
                  or_else-false _ _ _ _ (int-false _ _) (
                    or_else-false _ _ _ _ (converted-false _ _ _) (
                      or_else-false _ _ _ _ (int-false _ _) (
                        or_else-false _ _ _ _ (int-false _ _)
                          (or_else-false _ _ _ _ (int-false _ _) (ratio-false N _ _))))))))))))
