-- ===== src/Canary/Samples.antt =====
-- What can be read off the values that the canary has given to its metrics.
use kafkarator.Base.{ℤ, ◌≡◌, sym, ◌∙◌, List, [], ◌∷◌, ◌++◌}
use mathlib.Core.List.{append-nil, append_assoc}
use kafkarator.Canary.Model.{
  Metric, Sample, at_time, value, since, last_consumed_offset, last_produced_offset,
  transacted_messages_total,
}

abbrev pub transacted_value : Metric → ℤ → List ℤ
transacted_value transacted_messages_total o = o ∷ []
transacted_value _ o = []

abbrev pub consumed_value : Metric → ℤ → List ℤ
consumed_value last_consumed_offset o = o ∷ []
consumed_value _ o = []

abbrev pub produced_value : Metric → ℤ → List ℤ
produced_value last_produced_offset o = o ∷ []
produced_value _ o = []

module _ {Time : Type 0} where
  -- The values of one metric, by its test, in order.
  abbrev pub picked : (Metric → ℤ → List ℤ) → Sample Time → List ℤ
  picked f (value m o) = f m o
  picked f (at_time _ _) = []
  picked f (since _ _ _) = []

  abbrev pub values : (Metric → ℤ → List ℤ) → List (Sample Time) → List ℤ
  values f [] = []
  values f (s ∷ l) = picked f s ++ values f l

  pub values-snoc :
      (f : Metric → ℤ → List ℤ) (l : List (Sample Time)) (s : Sample Time)
      → values f (l ++ (s ∷ [])) ≡ values f l ++ picked f s
  values-snoc f [] s = append-nil (picked f s)
  values-snoc f (x ∷ l) s =
      rw (values-snoc f l s) (sym (append_assoc (picked f x) (values f l) (picked f s)))

  pub values-pass :
      (f : Metric → ℤ → List ℤ) (l : List (Sample Time)) (s : Sample Time)
      → picked f s ≡ []
      → values f (l ++ (s ∷ [])) ≡ values f l
  values-pass f l s h = values-snoc f l s ∙ rw h (append-nil (values f l))
