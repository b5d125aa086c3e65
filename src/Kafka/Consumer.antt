-- ===== src/Kafka/Consumer.antt =====
-- pkg/kafka/consumer/consumer.go: `ConsumeClaim`. The logging and the pauses before a further attempt are
-- left out. The messages of a claim are the list that its channel gives until it is closed.
use kafkarator.Base.{ℕ, zero, suc, ◌+◌, Bool, true, false, List, [], ◌∷◌, ◌++◌, Option, none, some}
use kafkarator.Go.{Error}

-- `Callback`: whether to retry, and the error.
abbrev pub Callback : Type 0 → Type 0 → Type 0
Callback M W = M → W → (Bool × Option Error) × W

-- What `ConsumeClaim` changes: the world by the callback, the marked messages of the session, and the
-- values that the gauge of the queue's size is set to.
pub record Claim (M W : Type 0) : Type 0 where
  pub world : W
  pub marked : List M
  pub sizes : List ℕ

module _ {M W : Type 0} (callback : Callback M W) (buffered : W → ℕ) where
  -- The closure `report`; `buffered` is `len(claim.Messages())`.
  unfoldable pub report : ℕ → Claim M W → Claim M W
  report add c = record c { sizes = c.sizes ++ ((buffered c.world + add) ∷ []) }

  -- One attempt: whether to retry, and the state after it.
  unfoldable pub attempt : M → Claim M W → Bool × Claim M W
  unfolding report
  attempt message c =
      let c = report 1 c in
      let ((retry, _), w) = callback message c.world in (retry, record c { world = w })

  abbrev pub continue : Bool × Claim M W → (Claim M W → Option (Claim M W)) → Option (Claim M W)
  continue (true, c) again = again c
  continue (false, c) again = some c

  -- The loop `for retry`, on at most as many attempts as the fuel.
  unfoldable pub handle_message : ℕ → M → Claim M W → Option (Claim M W)
  unfolding attempt
  handle_message zero message c = none
  handle_message (suc fuel) message c = continue (attempt message c) (handle_message fuel message)

  -- The end of the loop's body: the message is marked.
  unfoldable pub mark : M → Claim M W → Claim M W
  unfolding report
  mark message c = report 0 (record c { marked = c.marked ++ (message ∷ []) })

  abbrev pub and_then : Option (Claim M W) → (Claim M W → Option (Claim M W)) → Option (Claim M W)
  and_then none next = none
  and_then (some c) next = next c

  -- The loop over the messages, with fuel for each.
  unfoldable pub consume : ℕ → List M → Claim M W → Option (Claim M W)
  unfolding handle_message mark
  consume fuel [] c = some c
  consume fuel (message ∷ messages) c =
      and_then (handle_message fuel message c) (λ d. consume fuel messages (mark message d))

  -- `ConsumeClaim`
  unfoldable pub consume_claim : ℕ → List M → Claim M W → Option (Claim M W)
  unfolding consume report
  consume_claim fuel messages c = consume fuel messages (report 0 c)
