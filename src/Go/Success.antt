-- ===== src/Go/Success.antt =====
-- Calls that succeed, one after the other.
use kafkarator.Base.{◌≡◌, ap}
use kafkarator.Go.Errors.{Error, Result, ok, err, panic}
use kafkarator.Go.Effects.{Sys, Action, ◌>>=◌, handle}

abbrev pub value_of : {A : Type 0} → A → Result A → A
value_of d (ok a) = a
value_of d (err _) = d
value_of d panic = d

module _ {W A B : Type 0} where
  bind-cases :
      (x : Result A × Sys W) (k : A → Action W B) (s : Sys W) (a : A)
      → x.0 ≡ ok a
      → ((λ _. x) >>= k) s ≡ k a x.1
  bind-cases (ok b, t) k s a e = ap (λ y. k (value_of a y) t) e
  bind-cases (err _, t) k s a e = cc
  bind-cases (panic, t) k s a e = cc

  -- After a call that succeeds the next one runs.
  pub bind-ok :
      (m : Action W A) (k : A → Action W B) (s : Sys W) (a : A)
      → (m s).0 ≡ ok a
      → (m >>= k) s ≡ k a (m s).1
  bind-ok m k s a e = bind-cases (m s) k s a e

  handle-cases :
      (x : Result A × Sys W) (k : A → Action W B) (f : Error → Action W B) (s : Sys W) (a : A)
      → x.0 ≡ ok a
      → handle (λ _. x) k f s ≡ k a x.1
  handle-cases (ok b, t) k f s a e = ap (λ y. k (value_of a y) t) e
  handle-cases (err _, t) k f s a e = cc
  handle-cases (panic, t) k f s a e = cc

  pub handle-ok :
      (m : Action W A) (k : A → Action W B) (f : Error → Action W B) (s : Sys W) (a : A)
      → (m s).0 ≡ ok a
      → handle m k f s ≡ k a (m s).1
  handle-ok m k f s a e = handle-cases (m s) k f s a e
