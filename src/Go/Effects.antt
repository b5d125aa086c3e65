-- ===== src/Go/Effects.antt =====
-- Code with effects: it runs on the state of the world outside (Aiven, Kubernetes, Kafka) and on the
-- program's own metrics. The state reached stays when a call fails.
use kafkarator.Base.{ℤ, String, List, [], ◌∷◌, ◌++◌}
use kafkarator.Go.Errors.{Error, Result, ok, err, panic}

-- One sample of the histogram `aiven_latency`, by its labels. The time measured is left out.
pub record Observation : Type 0 where
  pub operation : String
  pub status : ℤ
  pub pool : String

-- One increment of the counter `topics_processed` or `streams_processed`.
pub record Processed : Type 0 where
  pub counter : String
  pub synchronization_state : String
  pub pool : String

pub record Sys (W : Type 0) : Type 0 where
  pub world : W
  pub observed : List Observation
  pub processed : List Processed

abbrev pub Action : Type 0 → Type 0 → Type 0
Action W A = Sys W → Result A × Sys W

module _ {W : Type 0} where
  abbrev pub pure : {A : Type 0} → A → Action W A
  pure a s = (ok a, s)

  abbrev pub fail : {A : Type 0} → Error → Action W A
  fail e s = (err e, s)

  -- A pure computation that may fail.
  abbrev pub lift : {A : Type 0} → Result A → Action W A
  lift r s = (r, s)

  -- A call of code outside the program.
  abbrev pub call : {A : Type 0} → (W → Result A × W) → Action W A
  call f s = let (r, w) = f s.world in (r, record s { world = w })

  abbrev pub count : Processed → Action W (Unit {0})
  count p s = (ok tt, record s { processed = s.processed ++ (p ∷ []) })

  -- A value that is read off the world.
  abbrev pub ask : {A : Type 0} → (W → A) → Action W A
  ask f s = (ok (f s.world), s)

  infixl 5 ◌>>=◌ ◌>>◌
  abbrev pub ◌>>=◌ : {A B : Type 0} → Action W A → (A → Action W B) → Action W B
  ◌>>=◌ m f s =
      let (r, t) = m s in elim r [ ok a ↦ f a t | err e ↦ (err e, t) | panic ↦ (panic, t) ]

  abbrev pub ◌>>◌ : {B : Type 0} → Action W (Unit {0}) → Action W B → Action W B
  m >> k = m >>= λ _. k

  -- `v, err := m; if err != nil { on_error } ...`
  abbrev pub handle :
      {A B : Type 0} → Action W A → (A → Action W B) → (Error → Action W B) → Action W B
  handle m f h s = let (r, t) = m s in elim r [ ok a ↦ f a t | err e ↦ h e t | panic ↦ (panic, t) ]
