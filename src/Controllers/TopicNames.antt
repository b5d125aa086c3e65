-- ===== src/Controllers/TopicNames.antt =====
-- The topics of a service by their names, and what is relied on in the calls that change them.
use package.text.Mathlib.Text.{starts_with}
use kafkarator.Base.{
  ◌≡◌, refl, ◌∙◌, Bool, true, false, not, ◌&&◌, String, List, [], ◌∷◌, map, All, select, contains,
  ◌==◌, string_eq, arith,
}
use kafkarator.Go.{Result, ok, err, panic}
use kafkarator.External.{Numeric, KafkaListTopic}
use kafkarator.Acl.Untouched.{IsAclOnly}
use kafkarator.Controllers.Common.{Reconciler}

select-select :
    (p q : String → Bool) (l : List String) → select p (select q l) ≡ select (λ n. q n && p n) l
select-select p q [] = refl
select-select p q (n ∷ l) = ground (arith, select-select p q l)

select_congr :
    (p q : String → Bool) (l : List String) → ((n : String) → p n ≡ q n) → select p l ≡ select q l
select_congr p q [] h = refl
select_congr p q (n ∷ l) h = ground (arith, h n, select_congr p q l h)

-- The names without those that have the prefix and are in the list.
abbrev pub without : String → List String → List String → List String
without prefix gone l = select (λ n. not (starts_with n prefix && contains gone n)) l

-- The names that do not have the prefix.
abbrev pub unprefixed : String → List String → List String
unprefixed prefix l = select (λ n. not (starts_with n prefix)) l

pub without-cons :
    (prefix name : String) (gone l : List String)
    → starts_with name prefix ≡ true
    → without prefix gone (select (λ n. not (n == name)) l) ≡ without prefix (name ∷ gone) l
without-cons prefix name gone l h = select-select _ _ l ∙ select_congr _ _ l (λ n. same n)
  where
    same :
        (n : String)
        → (not (n == name) && not (starts_with n prefix && contains gone n))
          ≡ not (starts_with n prefix && contains (name ∷ gone) n)
    same n = ground arith

pub without-skip :
    (prefix name : String) (gone l : List String)
    → starts_with name prefix ≡ false
    → without prefix gone l ≡ without prefix (name ∷ gone) l
without-skip prefix name gone l h = select_congr _ _ l (λ n. ground arith)

pub without-nil : (prefix : String) (l : List String) → without prefix [] l ≡ l
without-nil prefix [] = refl
without-nil prefix (n ∷ l) = ground (arith, without-nil prefix l)

contains-cons :
    (x : String) (m l : List String)
    → All (λ n. contains m n ≡ true) l
    → All (λ n. contains (x ∷ m) n ≡ true) l
contains-cons x m [] h = tt
contains-cons x m (n ∷ l) h = (ground (arith, h.0), contains-cons x m l h.1)

pub contains_refl : (l : List String) → All (λ n. contains l n ≡ true) l
contains_refl [] = tt
contains_refl (n ∷ l) = (ground arith, contains-cons n l l (contains_refl l))

pub without-unprefixed :
    (prefix : String) (gone l : List String)
    → All (λ n. contains gone n ≡ true) l
    → without prefix gone l ≡ unprefixed prefix l
without-unprefixed prefix gone [] h = refl
without-unprefixed prefix gone (n ∷ l) h = ground (arith, h.0, without-unprefixed prefix gone l h.1)

module _ {W : Type 0} (names : W → List String) (w : W) where
  abbrev pub ListedTopics : Result (List KafkaListTopic) × W → Type 0
  ListedTopics (ok l, w') = (map (λ t. t.topic_name) l ≡ names w) × (names w' ≡ names w)
  ListedTopics (err _, w') = names w' ≡ names w
  ListedTopics (panic, w') = names w' ≡ names w

  abbrev pub DeletedTopic : String → Result (Unit {0}) × W → Type 0
  DeletedTopic name (ok _, w') = names w' ≡ select (λ n. not (n == name)) (names w)
  DeletedTopic name (err _, w') = names w' ≡ names w
  DeletedTopic name (panic, w') = names w' ≡ names w

-- What is relied on in Aiven: `names` are the topics of the service, which the calls for ACLs and the
-- look-up of a service's name leave alone.
pub record IsTopicStore {N : Numeric} {W : Type 0} (r : Reconciler N W) (project : String)
    (names : String → W → List String) : Type 0 where
  pub listed :
      (service : String) (w : W)
      → ListedTopics (names service) w (r.aiven.topics.list project service w)
  pub removed :
      (service name : String) (w : W)
      → DeletedTopic (names service) w name (r.aiven.topics.delete project service name w)
  pub resolved :
      (service : String) (w : W)
      → names service (r.aiven.resolve_kafka_service_name project w).1 ≡ names service w
  pub acls : (service : String) → IsAclOnly r.aiven.acls project service (names service)
