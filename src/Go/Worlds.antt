-- ===== src/Go/Worlds.antt =====
-- How actions that are chained reach one world, or keep what is observed of it.
use kafkarator.Base.{◌≡◌}
use kafkarator.Go.Errors.{Error, Result, ok, err, panic}
use kafkarator.Go.Effects.{Sys, Action, ◌>>=◌, handle}

-- The call ended in a world where `obs` gives `o`.
abbrev pub Keeps : {W O A : Type 0} → (W → O) → O → Result A × Sys W → Type 0
Keeps obs o x = obs x.1.world ≡ o

-- The call ended in this world.
abbrev pub EndsIn : {W A : Type 0} → W → Result A × Sys W → Type 0
EndsIn w x = x.1.world ≡ w

module _ {W O A B : Type 0} (obs : W → O) (o : O) where
  bind-cases :
      (x : Result A × Sys W) (k : A → Action W B) (s : Sys W)
      → Keeps obs o x
      → ((a : A) (t : Sys W) → obs t.world ≡ o → Keeps obs o (k a t))
      → Keeps obs o (((λ _. x) >>= k) s)
  bind-cases (ok a, t) k s h g = g a t h
  bind-cases (err _, t) k s h g = h
  bind-cases (panic, t) k s h g = h

  pub Keeps-bind :
      (m : Action W A) (k : A → Action W B) (s : Sys W)
      → Keeps obs o (m s)
      → ((a : A) (t : Sys W) → obs t.world ≡ o → Keeps obs o (k a t))
      → Keeps obs o ((m >>= k) s)
  Keeps-bind m k s h g = bind-cases (m s) k s h g

  handle-cases :
      (x : Result A × Sys W) (k : A → Action W B) (f : Error → Action W B) (s : Sys W)
      → Keeps obs o x
      → ((a : A) (t : Sys W) → obs t.world ≡ o → Keeps obs o (k a t))
      → ((e : Error) (t : Sys W) → obs t.world ≡ o → Keeps obs o (f e t))
      → Keeps obs o (handle (λ _. x) k f s)
  handle-cases (ok a, t) k f s h g i = g a t h
  handle-cases (err e, t) k f s h g i = i e t h
  handle-cases (panic, t) k f s h g i = h

  pub Keeps-handle :
      (m : Action W A) (k : A → Action W B) (f : Error → Action W B) (s : Sys W)
      → Keeps obs o (m s)
      → ((a : A) (t : Sys W) → obs t.world ≡ o → Keeps obs o (k a t))
      → ((e : Error) (t : Sys W) → obs t.world ≡ o → Keeps obs o (f e t))
      → Keeps obs o (handle m k f s)
  Keeps-handle m k f s h g i = handle-cases (m s) k f s h g i

pub EndsIn-bind :
    {W A B : Type 0} (w : W) (m : Action W A) (k : A → Action W B) (s : Sys W)
    → EndsIn w (m s)
    → ((a : A) (t : Sys W) → t.world ≡ w → EndsIn w (k a t))
    → EndsIn w ((m >>= k) s)
EndsIn-bind {W} w m k s h g = Keeps-bind (λ (v : W). v) w m k s h g
