-- ===== src/Acl/Converge.antt =====
-- `Manager.Synchronize` against the entries of a lawful store: what holds afterwards.
use kafkarator.Base.{Bool}
use kafkarator.Base.{
  ◌≡◌, refl, sym, ap, ◌∙◌, true, false, not, String, List, [], ◌∷◌, ◌++◌, arith, All, ◌==◌,
  string_eq, if◌then◌else◌, select,
}
use mathlib.Core.List.{append-nil}
use kafkarator.Go.{Result, ok, err, panic, ◌>>?◌, Sys}
use kafkarator.External.{TopicAcl}
use kafkarator.Acl.Model.{Acl, contains_acl, new_acls, delete_acls, topic_acls, from_topic_acl}
use kafkarator.Acl.Manager.{AclManager, get_wanted_acls, synchronize}
use kafkarator.Acl.Sets.{
  contains_acl-new_acls, contains_acl-topic_acls, contains_acl-append, contains_acl-select,
  delete_acls-topic_acls, is_obsolete, is_obsolete_congr, contains_acl_congr, same_entry-topic,
}
use kafkarator.Acl.Ids.{NodupIds, without_ids, without_ids-select, select-append, select-eq-nil}
use kafkarator.Acl.Store.{IsAclStore}
use kafkarator.Acl.Outcome.{synchronize-Synced}

abbrev AllFor : String → Result (List Acl) → Type 0
AllFor topic (ok l) = All (λ a. a.topic ≡ topic) l
AllFor topic (err _) = Unit
AllFor topic panic = Unit

AllFor-cons :
    (topic : String) (a : Acl) (r : Result (List Acl))
    → a.topic ≡ topic
    → AllFor topic r
    → AllFor topic (r >>? λ l. ok (a ∷ l))
AllFor-cons topic a (ok l) h k = (h, k)
AllFor-cons topic a (err _) h k = tt
AllFor-cons topic a panic h k = tt

named-AllFor :
    (topic : String) (spec : TopicAcl) (name : Result String) (rest : Result (List Acl))
    → AllFor topic rest
    → AllFor topic (from_topic_acl topic spec (λ _. name) >>? λ a. rest >>? λ l. ok (a ∷ l))
unfolding from_topic_acl
named-AllFor topic spec (ok name) rest h = AllFor-cons topic _ rest refl h
named-AllFor topic spec (err _) rest h = tt
named-AllFor topic spec panic rest h = tt

get_wanted_acls-AllFor :
    (user_name : TopicAcl → String → Result String) (topic : String) (specs : List TopicAcl)
    → AllFor topic (get_wanted_acls user_name topic specs)
unfolding get_wanted_acls from_topic_acl
get_wanted_acls-AllFor user_name topic [] = tt
get_wanted_acls-AllFor user_name topic (x ∷ specs) =
    named-AllFor topic x (user_name x "*") _ (get_wanted_acls-AllFor user_name topic specs)

topic-of-member :
    (topic : String) (l : List Acl) (e : Acl)
    → All (λ a. a.topic ≡ topic) l
    → contains_acl l e ≡ true
    → e.topic ≡ topic
unfolding contains_acl
topic-of-member topic [] e h c = cc
topic-of-member topic (a ∷ l) e h c =
    ground (arith, same_entry-topic a e, topic-of-member topic l e h.1)

-- Every wanted entry is for the topic.
pub wanted-topic :
    (user_name : TopicAcl → String → Result String) (topic : String) (specs : List TopicAcl)
    (wanted : List Acl)
    → get_wanted_acls user_name topic specs ≡ ok wanted
    → (e : Acl) → contains_acl wanted e ≡ true
    → e.topic ≡ topic
wanted-topic user_name topic specs wanted h e c =
    topic-of-member topic wanted e (rw h at (get_wanted_acls-AllFor user_name topic specs)) c

chosen-not-obsolete :
    (t : String) (wanted c : List Acl)
    → All (λ b. contains_acl wanted b ≡ true) c
    → All (λ b. is_obsolete t wanted b ≡ false) c
unfolding is_obsolete
chosen-not-obsolete t wanted [] h = tt
chosen-not-obsolete t wanted (b ∷ c) h = (ground arith, chosen-not-obsolete t wanted c h.1)

-- The obsolete entries are those to delete, also after wanted ones were created.
pub select-obsolete :
    (t : String) (wanted v c : List Acl)
    → All (λ b. contains_acl wanted b ≡ true) c
    → select (is_obsolete t wanted) (v ++ c) ≡ delete_acls (topic_acls v t) wanted
select-obsolete t wanted v c chosen =
    let q = is_obsolete t wanted in
    let none_new : select q c ≡ [] = select-eq-nil q c (chosen-not-obsolete t wanted c chosen) in
    rw (select-append, none_new, append-nil, delete_acls-topic_acls) refl

-- All obsolete entries of a list with distinct IDs are deleted by ID, and no other.
obsolete-gone :
    (t : String) (wanted v c : List Acl)
    → NodupIds (v ++ c)
    → All (λ b. contains_acl wanted b ≡ true) c
    → without_ids (delete_acls (topic_acls v t) wanted) (v ++ c)
      ≡ select (λ a. not (is_obsolete t wanted a)) (v ++ c)
obsolete-gone t wanted v c distinct chosen =
    rw (select-obsolete t wanted v c chosen) at
      (without_ids-select (is_obsolete t wanted) (v ++ c) distinct)

pub contains_acl-chosen :
    (wanted c : List Acl) (e : Acl)
    → All (λ b. contains_acl wanted b ≡ true) c
    → contains_acl c e ≡ true
    → contains_acl wanted e ≡ true
unfolding contains_acl
contains_acl-chosen wanted [] e h k = cc
contains_acl-chosen wanted (b ∷ c) e h k =
    ground (arith, contains_acl_congr wanted b e, contains_acl-chosen wanted c e h.1)

-- The entries after a run that did everything, by membership.
contains_acl-result :
    (t : String) (wanted v c : List Acl) (e : Acl)
    → NodupIds (v ++ c)
    → All (λ b. contains_acl wanted b ≡ true) c
    → contains_acl c e ≡ contains_acl (new_acls (topic_acls v t) wanted) e
    → (contains_acl wanted e ≡ true → e.topic ≡ t)
    → contains_acl (without_ids (delete_acls (topic_acls v t) wanted) (v ++ c)) e
      ≡ (if e.topic == t then contains_acl wanted e else contains_acl v e)
unfolding is_obsolete
contains_acl-result t wanted v c e distinct chosen all_created on_topic =
    rw
      (
        obsolete-gone t wanted v c distinct chosen,
        contains_acl-select (λ a. not (is_obsolete t wanted a))
            (λ a b h. ap not (is_obsolete_congr t wanted a b h)) (v ++ c) e,
        contains_acl-append,
        all_created,
        contains_acl-new_acls,
        contains_acl-topic_acls,
      )
      (ground arith)

module _ {W : Type 0} (user_name : TopicAcl → String → Result String) (r : AclManager W)
    (view : W → List Acl) (L : IsAclStore r.aiven_acls r.project r.service view)
    (live : r.dry_run ≡ false) where
  -- After a run of `Synchronize` that succeeds, outside dry-run mode, on a lawful ACL store: an
  -- entry for the manager's topic exists in Aiven exactly if it is wanted, and an entry for any other
  -- topic exists exactly if it did before.
  pub synchronize-converges :
      (wanted : List Acl) (s : Sys W)
      → get_wanted_acls user_name r.source.topic_name r.source.acls ≡ ok wanted
      → (synchronize user_name r s).0 ≡ ok tt
      → (e : Acl)
      → contains_acl (view (synchronize user_name r s).1.world) e ≡ (
          if e.topic == r.source.topic_name
          then contains_acl wanted e
          else contains_acl (view s.world) e)
  synchronize-converges wanted s w success e =
      let y = synchronize-Synced user_name r view L live wanted s w in
      let all : y.removed ≡ delete_acls (topic_acls (view s.world) r.source.topic_name) wanted =
        sym (y.split ∙ rw (y.removed_all success, append-nil) refl) in
      ap (λ l. contains_acl l e)
        (y.result ∙ ap (λ d. without_ids d (view s.world ++ y.created)) all)
      ∙ contains_acl-result r.source.topic_name wanted (view s.world) y.created e y.distinct
          y.chosen (y.created_all success e)
          (wanted-topic user_name r.source.topic_name r.source.acls wanted w e)

-- Where nothing is wanted, no entry for the topic exists afterwards.
pub none_wanted :
    (name : String) (e : Acl) (before : Bool)
    → e.topic ≡ name
    → (if e.topic == name then contains_acl [] e else before) ≡ false
unfolding contains_acl
none_wanted name e before h = ground arith
