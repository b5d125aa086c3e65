-- ===== src/Go/Posts.antt =====
-- What holds of the value and the state in which a call succeeds.
use kafkarator.Base.{◌≡◌, refl}
use kafkarator.Go.Errors.{Error, Result, ok, err, panic}
use kafkarator.Go.Effects.{Sys, Action, ◌>>=◌, handle}

abbrev pub Post : {W A : Type 0} → (A → Sys W → Type 0) → Result A × Sys W → Type 0
Post P (ok a, t) = P a t
Post P (err _, t) = Unit
Post P (panic, t) = Unit

module _ {W A B : Type 0} (P : B → Sys W → Type 0) where
  handled :
      (y x : Result A × Sys W) (k : A → Action W B) (f : Error → Action W B) (s : Sys W)
      → y ≡ x
      → ((a : A) (t : Sys W) → y ≡ (ok a, t) → Post P (k a t))
      → ((e : Error) (t : Sys W) → y ≡ (err e, t) → Post P (f e t))
      → Post P (handle (λ _. x) k f s)
  handled y (ok a, t) k f s e g h = g a t e
  handled y (err r, t) k f s e g h = h r t e
  handled y (panic, t) k f s e g h = tt

  pub Post-handle :
      (m : Action W A) (k : A → Action W B) (f : Error → Action W B) (s : Sys W)
      → ((a : A) (t : Sys W) → m s ≡ (ok a, t) → Post P (k a t))
      → ((e : Error) (t : Sys W) → m s ≡ (err e, t) → Post P (f e t))
      → Post P (handle m k f s)
  Post-handle m k f s g h = handled (m s) (m s) k f s refl g h

  bound :
      (y x : Result A × Sys W) (k : A → Action W B) (s : Sys W)
      → y ≡ x
      → ((a : A) (t : Sys W) → y ≡ (ok a, t) → Post P (k a t))
      → Post P (((λ _. x) >>= k) s)
  bound y (ok a, t) k s e g = g a t e
  bound y (err r, t) k s e g = tt
  bound y (panic, t) k s e g = tt

  pub Post-bind :
      (m : Action W A) (k : A → Action W B) (s : Sys W)
      → ((a : A) (t : Sys W) → m s ≡ (ok a, t) → Post P (k a t))
      → Post P ((m >>= k) s)
  Post-bind m k s g = bound (m s) (m s) k s refl g

pub Post-map :
    {W A : Type 0} (P Q : A → Sys W → Type 0) (x : Result A × Sys W)
    → ((a : A) (t : Sys W) → P a t → Q a t)
    → Post P x
    → Post Q x
Post-map P Q (ok a, t) h p = h a t p
Post-map P Q (err _, t) h p = tt
Post-map P Q (panic, t) h p = tt

-- The post-condition of a call that is known to have succeeded.
pub Post-at :
    {W A : Type 0} (P : A → Sys W → Type 0) (x : Result A × Sys W) (a : A) (t : Sys W)
    → x ≡ (ok a, t)
    → Post P x
    → P a t
Post-at P x a t e p = rw e at p
