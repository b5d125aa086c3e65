-- ===== src/Acl/Store.antt =====
-- What the program relies on in the ACL API: a store of entries with distinct IDs. A call that fails
-- has changed nothing.
use kafkarator.Base.{◌≡◌, not, String, List, [], ◌∷◌, ◌++◌, select, ◌==◌, string_eq}
use kafkarator.Go.{Result, ok, err, panic}
use kafkarator.Acl.Model.{Acl, CreateKafkaAclRequest}
use kafkarator.Acl.Manager.{AclApi}
use kafkarator.Acl.Ids.{NodupIds}

module _ {W : Type 0} (view : W → List Acl) (w : W) where
  abbrev pub Listed : Result (List Acl) × W → Type 0
  Listed (ok l, w') = (l ≡ view w) × (view w' ≡ view w)
  Listed (err _, w') = view w' ≡ view w
  Listed (panic, w') = view w' ≡ view w

  abbrev pub Created : CreateKafkaAclRequest → Result Acl × W → Type 0
  Created req (ok a, w') =
      (view w' ≡ view w ++ (a ∷ []))
      × (a.username ≡ req.username)
      × (a.topic ≡ req.topic)
      × (a.permission ≡ req.permission)
  Created req (err _, w') = view w' ≡ view w
  Created req (panic, w') = view w' ≡ view w

  abbrev pub Deleted : String → Result (Unit {0}) × W → Type 0
  Deleted id (ok _, w') = view w' ≡ select (λ a. not (a.id == id)) (view w)
  Deleted id (err _, w') = view w' ≡ view w
  Deleted id (panic, w') = view w' ≡ view w

-- The entries of one service are `view w`.
pub record IsAclStore {W : Type 0} (api : AclApi W) (project service : String) (view : W → List Acl)
    : Type 0 where
  pub list-view : (w : W) → Listed view w (api.list project service w)
  pub create-view :
      (w : W) (req : CreateKafkaAclRequest) → Created view w req (api.create project service req w)
  pub delete-view : (w : W) (id : String) → Deleted view w id (api.delete project service id w)
  pub distinct : (w : W) → NodupIds (view w)
