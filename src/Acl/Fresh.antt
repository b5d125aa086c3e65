-- ===== src/Acl/Fresh.antt =====
-- A concrete ACL store whose calls all succeed: a new entry gets an ID that is longer than all others.
use Prim.Native.String.{count}
use text.Mathlib.TextLemmas.{length-append}
use kafkarator.Base.{
  ℕ, ◌<◌, ◌+◌, ◌≡◌, refl, false, not, String, ◌<>◌, List, [], ◌∷◌, ◌++◌, arith, select, ◌==◌,
  string_eq,
}
use kafkarator.Go.{ok}
use kafkarator.Acl.Model.{Acl, CreateKafkaAclRequest}
use kafkarator.Acl.Manager.{AclApi}
use kafkarator.Acl.Ids.{has_id}
use kafkarator.Acl.Store.{IsAclStore}
use kafkarator.Acl.Success.{IsResponsive}
use kafkarator.Acl.Example.{Entries, NodupIds-snoc, NodupIds-select}

abbrev total : List Acl → ℕ
total [] = 0
total (a ∷ l) = count a.id + total l

abbrev pub fresh : List Acl → String
fresh [] = "x"
fresh (a ∷ l) = a.id <> fresh l

count-fresh : (l : List Acl) → count (fresh l) ≡ total l + 1
count-fresh [] = refl
count-fresh (a ∷ l) = omega (arith, count-fresh l, length-append a.id (fresh l))

longer-has_id : (l : List Acl) (i : String) → total l < count i → has_id l i ≡ false
longer-has_id [] i h = refl
longer-has_id (a ∷ l) i h = ground (arith, longer-has_id l i (omega arith))

abbrev pub entry : List Acl → CreateKafkaAclRequest → Acl
entry l req = record {
  id = fresh l;
  permission = req.permission;
  topic = req.topic;
  username = req.username;
}

pub fresh-has_id : (l : List Acl) → has_id l (fresh l) ≡ false
fresh-has_id l = longer-has_id l (fresh l) (omega (arith, count-fresh l))

abbrev pub fresh_api : AclApi Entries
fresh_api = record {
  list = λ project service w. (ok w.0, w);
  create = λ project service req w. (
    ok (entry w.0 req),
    (w.0 ++ (entry w.0 req ∷ []), NodupIds-snoc w.0 (entry w.0 req) (fresh-has_id w.0) w.1),
  );
  delete = λ project service id w.
      (ok tt, (select (λ a. not (a.id == id)) w.0, NodupIds-select _ w.0 w.1));
}

pub fresh_api-IsAclStore :
    (project service : String) → IsAclStore fresh_api project service (λ w. w.0)
fresh_api-IsAclStore project service = record {
  list-view = λ w. (refl, refl);
  create-view = λ w req. (refl, refl, refl, refl);
  delete-view = λ w id. refl;
  distinct = λ w. w.1;
}

pub fresh_api-IsResponsive : (project service : String) → IsResponsive fresh_api project service
fresh_api-IsResponsive project service = record {
  lists = λ w. (w.0, refl);
  creates = λ w req. (entry w.0 req, refl);
  deletes = λ w id. refl;
}
