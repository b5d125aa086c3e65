-- ===== src/Canary/Steps.antt =====
-- What holds after a step of the canary, and after each part that the steps share.
use kafkarator.Base.{◌≡◌, refl, Bool, true, false, Option, none, some, if◌then◌else◌}
use kafkarator.Canary.Model.{Platform, Exit, exit_runtime, Canary}
use kafkarator.Canary.Loop.{Event, end_iteration, on_event, step}

module _ {P W Time : Type 0} where
  -- A property of the state reached, where there is one.
  abbrev pub When : (Canary P W Time → Type 0) → Option (Canary P W Time) → Type 0
  When Q none = Unit
  When Q (some d) = Q d

  pub When-at :
      (Q : Canary P W Time → Type 0) (x : Option (Canary P W Time)) (d : Canary P W Time)
      → x ≡ some d
      → When Q x
      → Q d
  When-at Q x d e h = rw e at h

  pub When-if :
      (Q : Canary P W Time → Type 0) (b : Bool) (d : Canary P W Time)
      → Q d
      → When Q (if b then some d else none)
  When-if Q true d h = h
  When-if Q false d h = tt

  abbrev pub finished : Option Exit → Bool → Canary P W Time → Canary P W Time
  finished (some _) b d = d
  finished none true d = record d { exit = some exit_runtime }
  finished none false d = d

  module _ (platform : Platform P W Time) where
    finished-eq :
        (o : Option Exit) (b : Bool) (d : Canary P W Time)
        → finished o b d
          ≡ (elim o [ some _ ↦ d | none ↦ if b then record d { exit = some exit_runtime } else d ])
    finished-eq (some _) b d = refl
    finished-eq none true d = refl
    finished-eq none false d = refl

    -- The end of an iteration, by cases on two fields.
    pub end_iteration-finished :
        (d : Canary P W Time) → finished d.exit d.cancelled d ≡ end_iteration platform d
    unfolding end_iteration
    end_iteration-finished d = finished-eq d.exit d.cancelled d

    running :
        (Q : Canary P W Time → Type 0) (o : Option Exit) (x : Option (Canary P W Time))
        → (o ≡ none → When Q x)
        → When Q (elim o [ some _ ↦ none | none ↦ x ])
    running Q (some _) x h = tt
    running Q none x h = h refl

    -- A step is an event of a process that has not ended.
    pub step-When :
        (Q : Canary P W Time → Type 0) (e : Event) (c : Canary P W Time)
        → (c.exit ≡ none → When Q (on_event platform e c))
        → When Q (step platform e c)
    unfolding step
    step-When Q e c h = running Q c.exit (on_event platform e c) h

    going :
        (o : Option Exit) (x : Option (Canary P W Time))
        → o ≡ none
        → elim o [ some _ ↦ none | none ↦ x ] ≡ x
    going (some _) x h = cc
    going none x h = refl

    -- A process that runs takes the step of the event.
    pub step-on_event :
        (e : Event) (c : Canary P W Time)
        → c.exit ≡ none
        → step platform e c ≡ on_event platform e c
    unfolding step
    step-on_event e c h = going c.exit (on_event platform e c) h

    exit_finished :
        (o : Option Exit) (b : Bool) (d : Canary P W Time)
        → o ≡ none
        → d.exit ≡ o
        → (finished o b d).exit ≡ (if b then some exit_runtime else none)
    exit_finished (some _) b d h k = cc
    exit_finished none true d h k = refl
    exit_finished none false d h k = k

    -- How the process goes on after an iteration.
    pub end_iteration-exit :
        (d : Canary P W Time)
        → d.exit ≡ none
        → (end_iteration platform d).exit ≡ (if d.cancelled then some exit_runtime else none)
    end_iteration-exit d h =
        rw (← end_iteration-finished d) (exit_finished d.exit d.cancelled d h refl)

    samples_finished :
        (o : Option Exit) (b : Bool) (d : Canary P W Time) → (finished o b d).samples ≡ d.samples
    samples_finished (some _) b d = refl
    samples_finished none true d = refl
    samples_finished none false d = refl

    pub end_iteration-samples :
        (d : Canary P W Time) → (end_iteration platform d).samples ≡ d.samples
    end_iteration-samples d =
        rw (← end_iteration-finished d) (samples_finished d.exit d.cancelled d)
