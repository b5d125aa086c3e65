-- ===== src/Kafka/Marking.antt =====
-- `ConsumeClaim` marks every message once, after the callback is done with it.
use kafkarator.Base.{
  ℕ, zero, suc, ◌≡◌, refl, sym, ap, ◌∙◌, Bool, true, false, List, [], ◌∷◌, ◌++◌, some,
  if◌then◌else◌, Bool-cases, inl, inr,
}
use mathlib.Core.List.{append-nil, append_assoc}
use kafkarator.Kafka.Consumer.{
  Callback, Claim, report, attempt, handle_message, mark, consume, consume_claim,
}

module _ {M W : Type 0} (callback : Callback M W) where
  -- From this world, the callback stops asking for a retry within so many attempts.
  abbrev pub stops : ℕ → M → W → Bool
  stops zero m w = false
  stops (suc k) m w =
      let later = stops k m (callback m w).1 in if (callback m w).0.0 then later else true

  module _ (buffered : W → ℕ) where
    handle_message-marked :
        (k : ℕ) (m : M) (c : Claim M W)
        → stops k m c.world ≡ true
        → (d : Claim M W) × (handle_message callback buffered k m c ≡ some d)
          × (d.marked ≡ c.marked)
    unfolding handle_message attempt report
    handle_message-marked zero m c h = cc
    handle_message-marked (suc k) m c h =
        let next = attempt callback buffered m c in
        elim (Bool-cases (callback m c.world).0.0) [
          | inl again ↦
              let (d, e, f) = handle_message-marked k m next.1 (rw again at h) in (d, rw again e, f)
          | inr done ↦ (next.1, rw done refl, refl)
        ]

    consume-marked :
        (k : ℕ)
        → ((m : M) (w : W) → stops k m w ≡ true)
        → (messages : List M) (c : Claim M W)
        → (d : Claim M W) × (consume callback buffered k messages c ≡ some d)
          × (d.marked ≡ c.marked ++ messages)
    unfolding consume mark report
    consume-marked k h [] c = (c, refl, sym (append-nil c.marked))
    consume-marked k h (m ∷ messages) c =
        let (d, e, f) = handle_message-marked k m c (h m c.world) in
        let (t, p, q) = consume-marked k h messages (mark callback buffered m d) in
        (t, rw e p, q ∙ append_assoc d.marked (m ∷ []) messages ∙ ap (λ l. l ++ (m ∷ messages)) f)

    -- If the callback stops asking for a retry within `k` attempts at any message and in any world,
    -- then `ConsumeClaim` ends with `k` attempts for each message, and it has marked all messages,
    -- in order and each once.
    pub consume_claim-marks :
        (k : ℕ)
        → ((m : M) (w : W) → stops k m w ≡ true)
        → (messages : List M) (c : Claim M W)
        → (d : Claim M W) × (consume_claim callback buffered k messages c ≡ some d)
          × (d.marked ≡ c.marked ++ messages)
    unfolding consume_claim report
    consume_claim-marks k h messages c = consume-marked k h messages (report callback buffered 0 c)
