-- ===== src/Canary/Channels.antt =====
-- What a step may do to the channels of the canary, and to the way in which the process ends.
use kafkarator.Base.{
  ℤ, ◌≤◌, ◌≡◌, refl, sym, ◌∙◌, Bool, true, false, List, [], ◌∷◌, ◌++◌, length, Option, none, some,
}
use mathlib.Core.List.{append-nil}
use kafkarator.Go.{Result, ok, err, panic}
use kafkarator.Canary.Model.{
  CanaryMessage, Exit, exit_ok, exit_config, exit_runtime, crashed, Canary, capacity, cancel, crash,
  sample,
}
use kafkarator.Canary.Samples.{consumed_value, values, values-pass}
use kafkarator.Canary.Quiet.{IsQuiet}
use kafkarator.Canary.Steps.{finished}

-- How a process that has ended did so: not with a configuration error, and not without `cancel()`.
abbrev pub EndsWell : Option Exit → Bool → Type 0
EndsWell none b = Unit
EndsWell (some crashed) b = Unit
EndsWell (some exit_ok) b = b ≡ true
EndsWell (some exit_runtime) b = b ≡ true
EndsWell (some exit_config) b = ⊥

-- The process has not come to an end of its own.
abbrev pub Going : Option Exit → Type 0
Going none = Unit
Going (some crashed) = Unit
Going (some exit_ok) = ⊥
Going (some exit_runtime) = ⊥
Going (some exit_config) = ⊥

pub Going-none : (o : Option Exit) → o ≡ none → Going o
Going-none o e = rw e tt

pub Going-EndsWell : (o : Option Exit) (b : Bool) → Going o → EndsWell o b
Going-EndsWell none b g = tt
Going-EndsWell (some crashed) b g = tt
Going-EndsWell (some exit_ok) b g = absurd g
Going-EndsWell (some exit_runtime) b g = absurd g
Going-EndsWell (some exit_config) b g = absurd g

module _ {Time : Type 0} where
  abbrev pub offsets : List (CanaryMessage Time) → List ℤ
  offsets [] = []
  offsets (m ∷ ms) = m.offset ∷ offsets ms

  pub offsets-append : (l m : List (CanaryMessage Time)) → offsets (l ++ m) ≡ offsets l ++ offsets m
  offsets-append [] m = refl
  offsets-append (x ∷ l) m = rw (offsets-append l m) refl

  abbrev pub offset_of : Result (CanaryMessage Time) → List ℤ
  offset_of (ok m) = m.offset ∷ []
  offset_of (err _) = []
  offset_of panic = []

module _ {P W Time : Type 0} where
  -- The offsets that have been reported as consumed.
  abbrev pub consumed : Canary P W Time → List ℤ
  consumed c = values consumed_value c.samples

  -- What has been reported, and what waits in the channel.
  abbrev pub received : Canary P W Time → List ℤ
  received c = consumed c ++ offsets c.cons

  -- The channels have room for what they hold, and an end has its cause.
  abbrev pub IsConsistent : Canary P W Time → Type 0
  IsConsistent c =
      (length c.cons ≤ capacity) × (length c.cons_tx ≤ capacity) × EndsWell c.exit c.cancelled

  -- From one state to another the channels are as they were.
  abbrev pub Still : Canary P W Time → Canary P W Time → Type 0
  Still c d = (d.cons ≡ c.cons) × (d.cons_tx ≡ c.cons_tx) × (consumed d ≡ consumed c) × Going d.exit

  pub Still-IsQuiet : (c : Canary P W Time) → IsQuiet (Still c)
  unfolding sample cancel crash
  Still-IsQuiet c = record {
    sampled = λ d s p (h, k, l, g). (h, k, values-pass consumed_value d.samples s p ∙ l, g);
    cancelled = λ d h. h;
    crashes = λ d (h, k, l, g). (h, k, l, tt);
    moved = λ d t h. h;
    replaced = λ d p h. h;
  }

  -- What a step does to the channels: it adds what is delivered, and keeps the state consistent.
  abbrev pub Moves : List ℤ → Canary P W Time → Canary P W Time → Type 0
  Moves l c d =
      (received d ≡ received c ++ l)
      × (length d.cons ≤ capacity)
      × (length d.cons_tx ≤ capacity)
      × EndsWell d.exit d.cancelled

  pub finished-Moves :
      (l : List ℤ) (c d : Canary P W Time) (o : Option Exit) (b : Bool)
      → d.exit ≡ o
      → d.cancelled ≡ b
      → Moves l c d
      → Moves l c (finished o b d)
  finished-Moves l c d (some _) b e f h = h
  finished-Moves l c d none true e f (h, k, m, g) = (h, k, m, f)
  finished-Moves l c d none false e f h = h

  pub Still-Moves :
      (c d : Canary P W Time)
      → length c.cons ≤ capacity
      → length c.cons_tx ≤ capacity
      → Still c d
      → Moves [] c d
  Still-Moves c d k m (h, i, l, g) = (
    rw (h, l) (sym (append-nil (received c))),
    rw h k,
    rw i m,
    Going-EndsWell d.exit d.cancelled g,
  )
