-- ===== src/Kafka/Commit.antt =====
-- What `ProduceTx` of pkg/kafka/producer has committed after its attempts to commit or to abort.
use kafkarator.Base.{
  ◌⊎◌, ℕ, ℤ, zero, suc, ◌≡◌, refl, ◌∙◌, Bool, true, false, not, ◌||◌, String, ◌<>◌, List, [], ◌++◌,
  string_eq, arith, Bool-cases, inl, inr, if◌then◌else◌,
}
use mathlib.Core.List.{append-nil}
use kafkarator.Go.{
  Error, Result, ok, err, panic, Sys, Action, error_text, is_sentinel, pure, fail, call, ask, ◌>>=◌,
  handle,
}
use kafkarator.Kafka.Transactions.{Record, Committed, Aborted, IsTransactional}
use kafkarator.Kafka.Producer.{
  Sarama, Machine, Producer, fatal, fatal_text, is_fatal, abort_with, commit,
}

module _ {P W : Type 0} (sarama : Sarama P W) (machine : Machine W) (p : Producer P)
    (committed pending : W → List Record) (is_open : W → Bool)
    (T : IsTransactional sarama p.producer committed pending is_open) where
  -- All of the records have been committed, or none.
  abbrev pub AllOrNone : List Record → List Record → W → Type 0
  AllOrNone all before w = (committed w ≡ before) ⊎ (committed w ≡ all)

  -- A call that succeeds has committed `all` and closed the transaction. One that fails has
  -- committed all or none, and the transaction is closed or the error is `ErrFatalProducer`.
  abbrev pub Atomic : List Record → List Record → Result (ℤ × ℤ) × Sys W → Type 0
  Atomic all before (ok _, t) = (committed t.world ≡ all) × (is_open t.world ≡ false)
  Atomic all before (err e, t) =
      AllOrNone all before t.world × ((is_sentinel e fatal_text || not (is_open t.world)) ≡ true)
  Atomic all before (panic, t) = AllOrNone all before t.world

  fatal-is_sentinel : (details : String) → is_sentinel (fatal details) fatal_text ≡ true
  unfolding is_sentinel string_eq
  fatal-is_sentinel details = refl

  pub fatal-Atomic :
      (all before : List Record) (details : String) (s : Sys W)
      → AllOrNone all before s.world
      → Atomic all before (err (fatal details), s)
  fatal-Atomic all before details s h = (h, ground (arith, fatal-is_sentinel details))

  -- The call has failed and committed nothing.
  abbrev pub Failed : List Record → Result (ℤ × ℤ) × Sys W → Type 0
  Failed before (ok _, t) = ⊥
  Failed before (err e, t) =
      (committed t.world ≡ before) × ((is_sentinel e fatal_text || not (is_open t.world)) ≡ true)
  Failed before (panic, t) = committed t.world ≡ before

  still :
      (all before now : List Record) (w : W)
      → committed w ≡ now
      → (now ≡ before) ⊎ (now ≡ all)
      → AllOrNone all before w
  still all before now w h (inl k) = inl (h ∙ k)
  still all before now w h (inr k) = inr (h ∙ k)

  Failed-Atomic :
      (all before now : List Record) (x : Result (ℤ × ℤ) × Sys W)
      → (now ≡ before) ⊎ (now ≡ all)
      → Failed now x
      → Atomic all before x
  Failed-Atomic all before now (ok _, t) k h = absurd h
  Failed-Atomic all before now (err e, t) k h = (still all before now t.world h.0 k, h.1)
  Failed-Atomic all before now (panic, t) k h = still all before now t.world h k

  pub Failed-bind :
      (all before : List Record) (k : ℤ × ℤ → Action W (ℤ × ℤ)) (x : Result (ℤ × ℤ) × Sys W)
      (s : Sys W)
      → Failed before x
      → Atomic all before (((λ _. x) >>= k) s)
  Failed-bind all before k (ok _, t) s h = absurd h
  Failed-bind all before k (err e, t) s h = (inl h.0, h.1)
  Failed-bind all before k (panic, t) s h = inl h

  pub abort_with-Failed :
      (before : List Record) (e : Error) (cause : String) (s : Sys W)
      → committed s.world ≡ before
      → Failed before (abort_with sarama machine p e cause s)
  unfolding abort_with
  abort_with-Failed before e cause s h = go _ (T.abort_law s.world)
    where
      go :
          (x : Result (Unit {0}) × W)
          → Aborted committed pending is_open s.world x
          → Failed before (
              handle
                (call (λ _. x))
                (λ _. fail e)
                (λ a. fail (fatal (cause <> ", abort txn error: " <> error_text a)))
                s)
      go (ok _, w) k = (k.0 ∙ h, ground arith)
      go (err a, w) k = (
        k ∙ h,
        ground (arith, fatal-is_sentinel (cause <> ", abort txn error: " <> error_text a)),
      )
      go (panic, w) k = k ∙ h

  abbrev committing : (ℤ × ℤ) → Action W (ℤ × ℤ) → Error → Action W (ℤ × ℤ)
  committing sent again e = ask (is_fatal sarama machine p) >>= λ stuck.
      if stuck then fail (fatal ("commit error: " <> error_text e)) else again

  -- Between the attempts to commit: nothing has been committed, or all and nothing is left.
  abbrev pub Stands : List Record → List Record → W → Type 0
  Stands before all w =
      ((committed w ≡ before) × (pending w ≡ all))
      ⊎ ((committed w ≡ before ++ all) × (pending w ≡ []))

  Stands-AllOrNone :
      (before all : List Record) (w : W) → Stands before all w → AllOrNone (before ++ all) before w
  Stands-AllOrNone before all w (inl h) = inl h.0
  Stands-AllOrNone before all w (inr h) = inr h.0

  -- What an attempt commits: nothing, or all that is pending.
  attempted :
      (before all : List Record) (v w : W)
      → Stands before all v
      → committed w ≡ committed v ++ pending v
      → committed w ≡ before ++ all
  attempted before all v w (inl h) k = k ∙ rw (h.0, h.1) refl
  attempted before all v w (inr h) k = k ∙ rw (h.0, h.1) (append-nil (before ++ all))

  unresolved :
      (before all : List Record) (v w : W) (e : Error)
      → Stands before all v
      → Committed committed pending is_open v (err e, w)
      → Stands before all w
  unresolved before all v w e (inl h) (inl k) = inl (k.0 ∙ h.0, k.1 ∙ h.1)
  unresolved before all v w e (inr h) (inl k) = inr (k.0 ∙ h.0, k.1 ∙ h.1)
  unresolved before all v w e h (inr k) = inr (attempted before all v w h k.0, k.1)

  crashed :
      (before all : List Record) (v w : W)
      → Stands before all v
      → (committed w ≡ committed v) ⊎ (committed w ≡ committed v ++ pending v)
      → AllOrNone (before ++ all) before w
  crashed before all v w h (inl k) =
      still (before ++ all) before (committed v) w k (Stands-AllOrNone before all v h)
  crashed before all v w h (inr k) = inr (attempted before all v w h k)

  pub commit-Atomic :
      (before all : List Record) (retries : ℕ) (sent : ℤ × ℤ) (last : Error) (s : Sys W)
      → Stands before all s.world
      → Atomic (before ++ all) before (commit sarama machine p retries sent last s)
  unfolding commit
  commit-Atomic before all zero sent last s h =
      Failed-Atomic (before ++ all) before (committed s.world) _
        (Stands-AllOrNone before all s.world h) (abort_with-Failed (committed s.world) _ _ s refl)
  commit-Atomic before all (suc n) sent last s h =
      go _ (T.commit_law s.world) (λ e t. commit-Atomic before all n sent e t)
    where
      go :
          (x : Result (Unit {0}) × W)
          → Committed committed pending is_open s.world x
          → ((e : Error) (t : Sys W)
              → Stands before all t.world
              → Atomic (before ++ all) before (commit sarama machine p n sent e t))
          → Atomic (before ++ all) before (
              handle
                (call (λ _. x))
                (λ _. pure sent)
                (λ e. committing sent (commit sarama machine p n sent e) e)
                s)
      go (ok _, w) c rest = (attempted before all s.world w h c.0, c.1)
      go (err e, w) c rest =
          let stands = unresolved before all s.world w e h c in
          elim (Bool-cases (is_fatal sarama machine p w)) [
            | inl stuck ↦ rw stuck (
                fatal-Atomic (before ++ all) before _ (record s { world = w })
                  (Stands-AllOrNone before all w stands))
            | inr alive ↦ rw alive (rest e (record s { world = w }) stands)
          ]
      go (panic, w) c rest = crashed before all s.world w h c
