-- ===== src/Acl/Example.antt =====
-- A concrete ACL store: a list of entries with distinct IDs. An entry that exists is refused.
use kafkarator.Base.{
  ◌≡◌, refl, Bool, true, false, not, ◌||◌, String, ◌<>◌, List, [], ◌∷◌, ◌++◌, arith, select, ◌==◌,
  string_eq, Bool-cases, inl, inr,
}
use kafkarator.Go.{Result, ok, err, text}
use kafkarator.Acl.Model.{Acl, CreateKafkaAclRequest}
use kafkarator.Acl.Manager.{AclApi}
use kafkarator.Acl.Ids.{NodupIds, has_id, has_id-select}
use kafkarator.Acl.Store.{IsAclStore, Created}

abbrev pub Entries : Type 0
Entries = (l : List Acl) × NodupIds l

has_id-snoc :
    (l : List Acl) (a : Acl) (i : String) → has_id (l ++ (a ∷ [])) i ≡ (has_id l i || a.id == i)
has_id-snoc [] a i = ground arith
has_id-snoc (x ∷ l) a i = ground (arith, has_id-snoc l a i)

pub NodupIds-snoc :
    (l : List Acl) (a : Acl) → has_id l a.id ≡ false → NodupIds l → NodupIds (l ++ (a ∷ []))
NodupIds-snoc [] a h k = (refl, tt)
NodupIds-snoc (x ∷ l) a h k =
    (ground (arith, has_id-snoc l a x.id), NodupIds-snoc l a (ground arith) k.1)

pub NodupIds-select : (q : Acl → Bool) (l : List Acl) → NodupIds l → NodupIds (select q l)
NodupIds-select q [] h = tt
NodupIds-select q (x ∷ l) h =
    let rest = NodupIds-select q l h.1 in
    elim (Bool-cases (q x)) [
      | inl chosen ↦ rw chosen (has_id-select q l x.id h.0, rest)
      | inr passed ↦ rw passed rest
    ]

abbrev pub requested : CreateKafkaAclRequest → Acl
requested req = record {
  id = req.username <> "/" <> req.topic <> "/" <> req.permission;
  permission = req.permission;
  topic = req.topic;
  username = req.username;
}

-- An addition, on whether the ID is taken.
abbrev pub create_entry :
    (a : Acl) (w : Entries) (b : Bool) → has_id w.0 a.id ≡ b → Result Acl × Entries
create_entry a w true h = (err (text "ACL exists"), w)
create_entry a w false h = (ok a, (w.0 ++ (a ∷ []), NodupIds-snoc w.0 a h w.1))

abbrev pub entries_api : AclApi Entries
entries_api = record {
  list = λ project service w. (ok w.0, w);
  create =
      λ project service req w. create_entry (requested req) w (has_id w.0 (requested req).id) refl;
  delete = λ project service id w.
      (ok tt, (select (λ a. not (a.id == id)) w.0, NodupIds-select _ w.0 w.1));
}

created :
    (req : CreateKafkaAclRequest) (w : Entries) (b : Bool) (h : has_id w.0 (requested req).id ≡ b)
    → Created (λ (v : Entries). v.0) w req (create_entry (requested req) w b h)
created req w true h = refl
created req w false h = (refl, refl, refl, refl)

pub entries_api-IsAclStore :
    (project service : String) → IsAclStore entries_api project service (λ w. w.0)
entries_api-IsAclStore project service = record {
  list-view = λ w. (refl, refl);
  create-view = λ w req. created req w _ refl;
  delete-view = λ w id. refl;
  distinct = λ w. w.1;
}
