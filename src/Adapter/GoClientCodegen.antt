-- ===== src/Adapter/GoClientCodegen.antt =====
-- pkg/aiven/adapter/goclientcodegen/adapter.go
use kafkarator.Base.{
  Bool, ◌&&◌, String, List, [], ◌∷◌, map, Option, none, some, ◌==◌, string_eq, if◌then◌else◌,
}
use kafkarator.Go.{Result, ok, err, panic, text}
use kafkarator.Acl.{Acl, CreateKafkaAclRequest, AclApi}
use kafkarator.Adapter.AivenGoClient.{map_result}

-- The generated client's `kafka.AclOut`; a permission is a text there too.
pub record AclOut : Type 0 where
  pub id : Option String
  pub permission : String
  pub topic : String
  pub username : String

-- The generated client's `ServiceKafkaAclAddIn`.
pub record AclAddIn : Type 0 where
  pub permission : String
  pub topic : String
  pub username : String

-- The generated client's calls for ACLs: an addition and a deletion answer with all entries.
pub record GeneratedClient (W : Type 0) : Type 0 where
  pub native_acl_list : String → String → W → Result (List AclOut) × W
  pub acl_add : String → String → AclAddIn → W → Result (List AclOut) × W
  pub acl_delete : String → String → String → W → Result (List AclOut) × W

-- `valueOrEmpty`
unfoldable pub value_or_empty : Option String → String
value_or_empty (some s) = s
value_or_empty none = ""

-- `makeAcl`
unfoldable pub make_acl : AclOut → Acl
unfolding value_or_empty
make_acl a = record {
  id = value_or_empty a.id;
  permission = a.permission;
  topic = a.topic;
  username = a.username;
}

-- The test in the loop of `Create`.
unfoldable pub matches : AclAddIn → AclOut → Bool
matches req a = a.permission == req.permission && a.topic == req.topic && a.username == req.username

-- The loop of `Create`, with `foundACL`.
unfoldable pub find_acl : AclAddIn → Option AclOut → List AclOut → Option AclOut
find_acl req found [] = found
find_acl req found (a ∷ out) = find_acl req (if matches req a then some a else found) out

-- The end of `Create`, on the entries that the server answered with.
unfoldable pub created_acl : AclAddIn → List AclOut → Result Acl
created_acl req out = elim (find_acl req none out) [
  | none ↦ err (text "created ACL not found from response ACL list")
  | some a ↦ ok (make_acl a)
]

module _ {W : Type 0} (c : GeneratedClient W) where
  -- `AclClient.List`
  unfoldable pub list : String → String → W → Result (List Acl) × W
  list project service w = map_result (map make_acl) (c.native_acl_list project service w)

  -- `AclClient.Create`
  unfoldable pub create : String → String → CreateKafkaAclRequest → W → Result Acl × W
  create project service req w =
      let in' : AclAddIn = record {
        permission = req.permission;
        topic = req.topic;
        username = req.username;
      } in
      let (r, w') = c.acl_add project service in' w in
      elim r [ ok out ↦ (created_acl in' out, w') | err e ↦ (err e, w') | panic ↦ (panic, w') ]

  -- `AclClient.Delete`
  unfoldable pub delete : String → String → String → W → Result (Unit {0}) × W
  delete project service acl_id w = map_result (λ _. tt) (c.acl_delete project service acl_id w)

  unfoldable pub acl_client : AclApi W
  acl_client = record { list = list; create = create; delete = delete }
