-- ===== src/Adapter/HandlerLaws.antt =====
-- The adapter of aiven-go-client meets the contract of the ACL store if that client keeps its own.
use kafkarator.Base.{
  ◌≡◌, refl, ◌∙◌, ap, not, String, List, [], ◌∷◌, ◌++◌, map, select, ◌==◌, string_eq, arith,
}
use mathlib.Core.List.{map-append}
use kafkarator.Go.{Result, ok, err, panic}
use kafkarator.External.{KafkaAcl}
use kafkarator.Acl.{Acl, CreateKafkaAclRequest, from_kafka_acl}
use kafkarator.Acl.Ids.{NodupIds}
use kafkarator.Acl.Store.{IsAclStore, Listed, Created, Deleted}
use kafkarator.Adapter.AivenGoClient.{
  KafkaAclRequest, KafkaAclHandler, map_result, list, create, delete, acl_client,
}

module _ {W : Type 0} (entries : W → List KafkaAcl) (w : W) where
  abbrev pub ListedAcls : Result (List KafkaAcl) × W → Type 0
  ListedAcls (ok l, w') = (l ≡ entries w) × (entries w' ≡ entries w)
  ListedAcls (err _, w') = entries w' ≡ entries w
  ListedAcls (panic, w') = entries w' ≡ entries w

  -- A creation appends one entry, as requested, and answers with it.
  abbrev pub CreatedAcl : KafkaAclRequest → Result KafkaAcl × W → Type 0
  CreatedAcl req (ok a, w') =
      (entries w' ≡ entries w ++ (a ∷ []))
      × (a.username ≡ req.username)
      × (a.topic ≡ req.topic)
      × (a.permission ≡ req.permission)
  CreatedAcl req (err _, w') = entries w' ≡ entries w
  CreatedAcl req (panic, w') = entries w' ≡ entries w

  abbrev pub DeletedAcl : String → Result (Unit {0}) × W → Type 0
  DeletedAcl id (ok _, w') = entries w' ≡ select (λ a. not (a.id == id)) (entries w)
  DeletedAcl id (err _, w') = entries w' ≡ entries w
  DeletedAcl id (panic, w') = entries w' ≡ entries w

pub record IsHandlerStore {W : Type 0} (c : KafkaAclHandler W) (project service : String)
    (entries : W → List KafkaAcl) : Type 0 where
  pub list_law : (w : W) → ListedAcls entries w (c.list project service w)
  pub create_law :
      (w : W) (req : KafkaAclRequest) → CreatedAcl entries w req (c.create project service req w)
  pub delete_law : (w : W) (id : String) → DeletedAcl entries w id (c.delete project service id w)
  pub distinct : (w : W) → NodupIds (map from_kafka_acl (entries w))

map-select :
    (id : String) (l : List KafkaAcl)
    → map from_kafka_acl (select (λ a. not (a.id == id)) l)
      ≡ select (λ a. not (a.id == id)) (map from_kafka_acl l)
unfolding from_kafka_acl
map-select id [] = refl
map-select id (a ∷ l) = ground (arith, map-select id l)

module _ {W : Type 0} (c : KafkaAclHandler W) (project service : String)
    (entries : W → List KafkaAcl) (H : IsHandlerStore c project service entries) where
  abbrev view : W → List Acl
  view w = map from_kafka_acl (entries w)

  abbrev request : CreateKafkaAclRequest → KafkaAclRequest
  request req = record { permission = req.permission; topic = req.topic; username = req.username }

  listed : (w : W) → Listed view w (list c project service w)
  unfolding list
  listed w = go (c.list project service w) (H.list_law w)
    where
      go :
          (x : Result (List KafkaAcl) × W)
          → ListedAcls entries w x
          → Listed view w (map_result (map from_kafka_acl) x)
      go (ok l, w') h = (ap (map from_kafka_acl) h.0, ap (map from_kafka_acl) h.1)
      go (err _, w') h = ap (map from_kafka_acl) h
      go (panic, w') h = ap (map from_kafka_acl) h

  created :
      (w : W) (req : CreateKafkaAclRequest) → Created view w req (create c project service req w)
  unfolding create from_kafka_acl
  created w req = go (c.create project service (request req) w) (H.create_law w (request req))
    where
      go :
          (x : Result KafkaAcl × W)
          → CreatedAcl entries w (request req) x
          → Created view w req (map_result from_kafka_acl x)
      go (ok a, w') (grown, user, topic, permission) = (
        ap (map from_kafka_acl) grown ∙ map-append from_kafka_acl (entries w) (a ∷ []),
        user,
        topic,
        permission,
      )
      go (err _, w') h = ap (map from_kafka_acl) h
      go (panic, w') h = ap (map from_kafka_acl) h

  deleted : (w : W) (id : String) → Deleted view w id (delete c project service id w)
  unfolding delete
  deleted w id = go (c.delete project service id w) (H.delete_law w id)
    where
      go : (x : Result (Unit {0}) × W) → DeletedAcl entries w id x → Deleted view w id x
      go (ok _, w') h = ap (map from_kafka_acl) h ∙ map-select id (entries w)
      go (err _, w') h = ap (map from_kafka_acl) h
      go (panic, w') h = ap (map from_kafka_acl) h

  -- If aiven-go-client lists the entries of the service, creates exactly the requested entry and answers
  -- with it, and deletes by ID, then the adapter over it is a lawful ACL store.
  pub handler-IsAclStore : IsAclStore (acl_client c) project service view
  unfolding acl_client
  handler-IsAclStore = record {
    list-view = listed;
    create-view = created;
    delete-view = deleted;
    distinct = H.distinct;
  }
