-- ===== src/Adapter/StoreLaws.antt =====
-- The adapter of the generated client meets the contract of the ACL store if that client keeps its own.
use kafkarator.Base.{
  ◌≡◌, refl, ◌∙◌, ap, not, String, List, [], ◌∷◌, ◌++◌, map, select, ◌==◌, string_eq, arith,
}
use mathlib.Core.List.{map-append}
use kafkarator.Go.{Result, ok, err, panic}
use kafkarator.Acl.{Acl, CreateKafkaAclRequest}
use kafkarator.Acl.Ids.{NodupIds}
use kafkarator.Acl.Store.{IsAclStore, Listed, Created, Deleted}
use kafkarator.Adapter.GoClientCodegen.{
  AclOut, AclAddIn, GeneratedClient, value_or_empty, make_acl, matches, created_acl, list, create,
  delete, acl_client,
}
use kafkarator.Adapter.AivenGoClient.{map_result}
use kafkarator.Adapter.FoundAcl.{created_acl-last}

module _ {W : Type 0} (entries : W → List AclOut) (w : W) where
  abbrev pub ListedOut : Result (List AclOut) × W → Type 0
  ListedOut (ok l, w') = (l ≡ entries w) × (entries w' ≡ entries w)
  ListedOut (err _, w') = entries w' ≡ entries w
  ListedOut (panic, w') = entries w' ≡ entries w

  -- An addition appends one entry, as requested, and answers with all entries.
  abbrev pub AddedOut : AclAddIn → Result (List AclOut) × W → Type 0
  AddedOut req (ok l, w') =
      (a : AclOut) × (entries w' ≡ entries w ++ (a ∷ []))
      × (a.username ≡ req.username)
      × (a.topic ≡ req.topic)
      × (a.permission ≡ req.permission)
      × (l ≡ entries w ++ (a ∷ []))
  AddedOut req (err _, w') = entries w' ≡ entries w
  AddedOut req (panic, w') = entries w' ≡ entries w

  abbrev pub DeletedOut : String → Result (List AclOut) × W → Type 0
  DeletedOut id (ok _, w') = entries w' ≡ select (λ a. not (value_or_empty a.id == id)) (entries w)
  DeletedOut id (err _, w') = entries w' ≡ entries w
  DeletedOut id (panic, w') = entries w' ≡ entries w

pub record IsGeneratedStore {W : Type 0} (c : GeneratedClient W) (project service : String)
    (entries : W → List AclOut) : Type 0 where
  pub list_law : (w : W) → ListedOut entries w (c.native_acl_list project service w)
  pub add_law : (w : W) (req : AclAddIn) → AddedOut entries w req (c.acl_add project service req w)
  pub delete_law :
      (w : W) (id : String) → DeletedOut entries w id (c.acl_delete project service id w)
  pub distinct : (w : W) → NodupIds (map make_acl (entries w))

map-select :
    (id : String) (l : List AclOut)
    → map make_acl (select (λ a. not (value_or_empty a.id == id)) l)
      ≡ select (λ a. not (a.id == id)) (map make_acl l)
unfolding make_acl
map-select id [] = refl
map-select id (a ∷ l) = ground (arith, map-select id l)

module _ {W : Type 0} (c : GeneratedClient W) (project service : String) (entries : W → List AclOut)
    (G : IsGeneratedStore c project service entries) where
  abbrev view : W → List Acl
  view w = map make_acl (entries w)

  listed : (w : W) → Listed view w (list c project service w)
  unfolding list
  listed w = go (c.native_acl_list project service w) (G.list_law w)
    where
      go :
          (x : Result (List AclOut) × W)
          → ListedOut entries w x
          → Listed view w (map_result (map make_acl) x)
      go (ok l, w') h = (ap (map make_acl) h.0, ap (map make_acl) h.1)
      go (err _, w') h = ap (map make_acl) h
      go (panic, w') h = ap (map make_acl) h

  deleted : (w : W) (id : String) → Deleted view w id (delete c project service id w)
  unfolding delete
  deleted w id = go (c.acl_delete project service id w) (G.delete_law w id)
    where
      go :
          (x : Result (List AclOut) × W)
          → DeletedOut entries w id x
          → Deleted view w id (map_result (λ _. tt) x)
      go (ok l, w') h = ap (map make_acl) h ∙ map-select id (entries w)
      go (err _, w') h = ap (map make_acl) h
      go (panic, w') h = ap (map make_acl) h

  abbrev add_in : CreateKafkaAclRequest → AclAddIn
  add_in req = record { permission = req.permission; topic = req.topic; username = req.username }

  -- What `Create` makes of the client's answer.
  abbrev answer : AclAddIn → Result (List AclOut) × W → Result Acl × W
  answer req (r, w') = elim r [
    | ok out ↦ (created_acl req out, w')
    | err e ↦ (err e, w')
    | panic ↦ (panic, w')
  ]

  answered :
      (w : W) (req : CreateKafkaAclRequest) (x : Result (List AclOut) × W)
      → AddedOut entries w (add_in req) x
      → Created view w req (answer (add_in req) x)
  unfolding make_acl matches
  answered w req (ok l, w') (a, grown, user, topic, permission, l_all) =
      let found : created_acl (add_in req) l ≡ ok (make_acl a) =
        ap (created_acl (add_in req)) l_all
        ∙ created_acl-last (add_in req) (entries w) [] a (ground arith) tt in
      rw found (
        ap (map make_acl) grown ∙ map-append make_acl (entries w) (a ∷ []),
        user,
        topic,
        permission,
      )
  answered w req (err _, w') h = ap (map make_acl) h
  answered w req (panic, w') h = ap (map make_acl) h

  -- If the generated client lists the entries of the service, appends exactly the requested entry on an
  -- addition and answers with all entries, and deletes by ID, then the adapter over it is a lawful ACL
  -- store: in particular `Create` answers with the entry that was just added.
  pub acl_client-IsAclStore : IsAclStore (acl_client c) project service view
  unfolding acl_client create
  acl_client-IsAclStore = record {
    list-view = listed;
    create-view = λ w req. answered w req _ (G.add_law w (add_in req));
    delete-view = deleted;
    distinct = G.distinct;
  }
