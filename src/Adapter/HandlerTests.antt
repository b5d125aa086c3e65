-- ===== src/Adapter/HandlerTests.antt =====
-- A handler of aiven-go-client over the entries of a list, and the adapter on it.
use kafkarator.Base.{
  ◌≡◌, refl, ap, Bool, true, false, not, String, List, [], ◌∷◌, ◌++◌, map, select, ◌==◌, string_eq,
  arith,
}
use mathlib.Core.List.{map-append}
use kafkarator.Go.{Result, ok, err, text}
use kafkarator.External.{KafkaAcl}
use kafkarator.Acl.Model.{Acl, from_kafka_acl}
use kafkarator.Acl.Ids.{NodupIds, has_id}
use kafkarator.Acl.Store.{IsAclStore}
use kafkarator.Acl.Example.{Entries, requested, NodupIds-snoc, NodupIds-select}
use kafkarator.Adapter.AivenGoClient.{KafkaAclRequest, KafkaAclHandler, acl_client}
use kafkarator.Adapter.HandlerLaws.{IsHandlerStore, CreatedAcl, handler-IsAclStore}

abbrev pub out : Acl → KafkaAcl
out a = record { id = a.id; permission = a.permission; topic = a.topic; username = a.username }

abbrev pub to_add : KafkaAclRequest → Acl
to_add req =
    requested (record { permission = req.permission; topic = req.topic; username = req.username })

abbrev pub all_out : Entries → List KafkaAcl
all_out w = map out w.0

abbrev pub added :
    (a : Acl) (w : Entries) (b : Bool) → has_id w.0 a.id ≡ b → Result KafkaAcl × Entries
added a w true h = (err (text "ACL exists"), w)
added a w false h = (ok (out a), (w.0 ++ (a ∷ []), NodupIds-snoc w.0 a h w.1))

abbrev pub handler : KafkaAclHandler Entries
handler = record {
  list = λ project service w. (ok (all_out w), w);
  create = λ project service req w. added (to_add req) w (has_id w.0 (to_add req).id) refl;
  delete = λ project service id w.
      (ok tt, (select (λ a. not (a.id == id)) w.0, NodupIds-select _ w.0 w.1));
}

pub map-out : (l : List Acl) → map from_kafka_acl (map out l) ≡ l
unfolding from_kafka_acl
map-out [] = refl
map-out (a ∷ l) = ap (λ m. a ∷ m) (map-out l)

pub added-CreatedAcl :
    (req : KafkaAclRequest) (w : Entries) (b : Bool) (h : has_id w.0 (to_add req).id ≡ b)
    → CreatedAcl all_out w req (added (to_add req) w b h)
added-CreatedAcl req w true h = refl
added-CreatedAcl req w false h = (map-append out w.0 (to_add req ∷ []), refl, refl, refl)

pub select-out :
    (id : String) (l : List Acl)
    → map out (select (λ a. not (a.id == id)) l) ≡ select (λ a. not (a.id == id)) (map out l)
select-out id [] = refl
select-out id (a ∷ l) = ground (arith, select-out id l)

pub distinct_out : (w : Entries) → NodupIds (map from_kafka_acl (all_out w))
distinct_out w = rw map-out w.1

pub handler-IsHandlerStore : (service : String) → IsHandlerStore handler "nav-dev" service all_out
handler-IsHandlerStore service = record {
  list_law = λ w. (refl, refl);
  create_law = λ w req. added-CreatedAcl req w _ refl;
  delete_law = λ w id. select-out id w.0;
  distinct = distinct_out;
}

handler-IsAclStore_example :
    IsAclStore (acl_client handler) "nav-dev" "kafka" (λ w. map from_kafka_acl (all_out w))
handler-IsAclStore_example =
    handler-IsAclStore handler "nav-dev" "kafka" all_out (handler-IsHandlerStore "kafka")
