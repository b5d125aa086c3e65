-- ===== src/Adapter/Tests.antt =====
-- A generated client over the entries of a list, and the adapter on it.
use kafkarator.Base.{
  ◌≡◌, refl, ap, Bool, true, false, not, String, List, [], ◌∷◌, ◌++◌, map, select, some, ◌==◌,
  string_eq, arith,
}
use mathlib.Core.List.{map-append}
use kafkarator.Go.{Result, ok, err, text}
use kafkarator.Acl.Model.{Acl}
use kafkarator.Acl.Ids.{NodupIds, has_id}
use kafkarator.Acl.Store.{IsAclStore}
use kafkarator.Acl.Example.{Entries, requested, NodupIds-snoc, NodupIds-select}
use kafkarator.Adapter.GoClientCodegen.{
  AclOut, AclAddIn, GeneratedClient, value_or_empty, make_acl, matches, created_acl, acl_client,
}
use kafkarator.Adapter.FoundAcl.{created_acl-last, created_acl-missing}
use kafkarator.Adapter.StoreLaws.{IsGeneratedStore, AddedOut, acl_client-IsAclStore}

abbrev request : AclAddIn
request = record { permission = "read"; topic = "team.events"; username = "team_app_*" }

abbrev old : AclOut
old = record { id = some "1"; permission = "read"; topic = "team.events"; username = "team_app_*" }

abbrev fresh : AclOut
fresh = record old { id = some "2" }

abbrev other : AclOut
other = record old { id = some "3"; permission = "write" }

created_acl-last_example : created_acl request (old ∷ fresh ∷ other ∷ []) ≡ ok (make_acl fresh)
unfolding matches string_eq
created_acl-last_example = created_acl-last request (old ∷ []) (other ∷ []) fresh refl (refl, tt)

created_acl-missing_example :
    created_acl request (other ∷ []) ≡ err (text "created ACL not found from response ACL list")
unfolding matches string_eq
created_acl-missing_example = created_acl-missing request (other ∷ []) (refl, tt)

abbrev pub out : Acl → AclOut
out a = record { id = some a.id; permission = a.permission; topic = a.topic; username = a.username }

abbrev pub to_add : AclAddIn → Acl
to_add req =
    requested (record { permission = req.permission; topic = req.topic; username = req.username })

abbrev pub all_out : Entries → List AclOut
all_out w = map out w.0

abbrev pub added :
    (a : Acl) (w : Entries) (b : Bool) → has_id w.0 a.id ≡ b → Result (List AclOut) × Entries
added a w true h = (err (text "ACL exists"), w)
added a w false h = (ok (all_out w ++ (out a ∷ [])), (w.0 ++ (a ∷ []), NodupIds-snoc w.0 a h w.1))

abbrev pub client : GeneratedClient Entries
client = record {
  native_acl_list = λ project service w. (ok (all_out w), w);
  acl_add = λ project service req w. added (to_add req) w (has_id w.0 (to_add req).id) refl;
  acl_delete = λ project service id w.
      (ok [], (select (λ a. not (a.id == id)) w.0, NodupIds-select _ w.0 w.1));
}

pub map-out : (l : List Acl) → map make_acl (map out l) ≡ l
unfolding make_acl value_or_empty
map-out [] = refl
map-out (a ∷ l) = ap (λ m. a ∷ m) (map-out l)

pub added-AddedOut :
    (req : AclAddIn) (w : Entries) (b : Bool) (h : has_id w.0 (to_add req).id ≡ b)
    → AddedOut all_out w req (added (to_add req) w b h)
added-AddedOut req w true h = refl
added-AddedOut req w false h =
    (out (to_add req), map-append out w.0 (to_add req ∷ []), refl, refl, refl, refl)

pub select-out :
    (id : String) (l : List Acl)
    → map out (select (λ a. not (a.id == id)) l)
      ≡ select (λ a. not (value_or_empty a.id == id)) (map out l)
unfolding value_or_empty
select-out id [] = refl
select-out id (a ∷ l) = ground (arith, select-out id l)

pub distinct_out : (w : Entries) → NodupIds (map make_acl (all_out w))
distinct_out w = rw map-out w.1

pub client-IsGeneratedStore : (service : String) → IsGeneratedStore client "nav-dev" service all_out
client-IsGeneratedStore service = record {
  list_law = λ w. (refl, refl);
  add_law = λ w req. added-AddedOut req w _ refl;
  delete_law = λ w id. select-out id w.0;
  distinct = distinct_out;
}

acl_client-IsAclStore_example :
    IsAclStore (acl_client client) "nav-dev" "kafka" (λ w. map make_acl (all_out w))
acl_client-IsAclStore_example =
    acl_client-IsAclStore client "nav-dev" "kafka" all_out (client-IsGeneratedStore "kafka")
