-- ===== src/Acl/Success.antt =====
-- `Manager.Synchronize` against an ACL API whose calls succeed: it succeeds, and the entries are right.
use kafkarator.Base.{
  ◌≡◌, refl, ap, ◌∙◌, Bool, false, String, List, [], ◌∷◌, All, ◌==◌, string_eq, if◌then◌else◌,
  Bool-cases, inl, inr, select,
}
use kafkarator.Go.{Result, ok, err, panic, Sys, Action, pure, call, lift, ◌>>=◌, ◌>>◌}
use kafkarator.Go.Success.{value_of, bind-ok}
use kafkarator.External.{TopicAcl}
use kafkarator.Metrics.{observe_aiven_latency}
use kafkarator.Metrics.Laws.{observe-outcome}
use kafkarator.Acl.Model.{
  Acl, CreateKafkaAclRequest, contains_acl, new_acls, delete_acls, topic_acls,
}
use kafkarator.Acl.Manager.{
  AclApi, AclManager, request_for, add_one, add, delete_one, delete, get_existing_acls,
  get_wanted_acls, synchronize,
}
use kafkarator.Acl.Store.{IsAclStore, Listed}
use kafkarator.Acl.Converge.{synchronize-converges}

-- Every call of the API succeeds.
pub record IsResponsive {W : Type 0} (api : AclApi W) (project service : String) : Type 0 where
  pub lists : (w : W) → (l : List Acl) × ((api.list project service w).0 ≡ ok l)
  pub creates :
      (w : W) (req : CreateKafkaAclRequest)
      → (a : Acl) × ((api.create project service req w).0 ≡ ok a)
  pub deletes : (w : W) (id : String) → (api.delete project service id w).0 ≡ ok tt

-- The entry has an ID.
abbrev pub HasId : Acl → Type 0
HasId a = (a.id == "") ≡ false

select-HasId : (q : Acl → Bool) (l : List Acl) → All HasId l → All HasId (select q l)
select-HasId q [] h = tt
select-HasId q (a ∷ l) h =
    let rest = select-HasId q l h.1 in
    elim (Bool-cases (q a)) [ inl chosen ↦ rw chosen (h.0, rest) | inr passed ↦ rw passed rest ]

module _ {W : Type 0} (r : AclManager W)
    (responsive : IsResponsive r.aiven_acls r.project r.service) where
  add_one-ok : (a : Acl) (s : Sys W) → (add_one r a s).0 ≡ ok tt
  unfolding add_one
  add_one-ok a s = observe-outcome "ACL_Create" r.project _ s ∙ elim (Bool-cases r.dry_run) [
    | inl dry ↦ rw dry refl
    | inr live ↦
        let (b, e) = responsive.creates s.world (request_for a) in
        rw live (
          ap (λ x. x.0)
            (bind-ok (call (r.aiven_acls.create r.project r.service (request_for a))) (λ _. pure tt)
              s b e))
  ]

  add-ok : (l : List Acl) (s : Sys W) → (add r l s).0 ≡ ok tt
  unfolding add
  add-ok [] s = refl
  add-ok (a ∷ l) s =
      ap (λ x. x.0) (bind-ok (add_one r a) (λ _. add r l) s tt (add_one-ok a s))
      ∙ add-ok l (add_one r a s).1

  delete_one-ok : (a : Acl) (s : Sys W) → HasId a → (delete_one r a s).0 ≡ ok tt
  unfolding delete_one
  delete_one-ok a s h = rw h (
      observe-outcome "ACL_Delete" r.project _ s ∙ elim (Bool-cases r.dry_run) [
        | inl dry ↦ rw dry refl
        | inr live ↦ rw live (responsive.deletes s.world a.id)
      ])

  delete-ok : (l : List Acl) (s : Sys W) → All HasId l → (delete r l s).0 ≡ ok tt
  unfolding delete
  delete-ok [] s h = refl
  delete-ok (a ∷ l) s h =
      ap (λ x. x.0) (bind-ok (delete_one r a) (λ _. delete r l) s tt (delete_one-ok a s h.0))
      ∙ delete-ok l (delete_one r a s).1 h.1

  module _ (view : W → List Acl) (L : IsAclStore r.aiven_acls r.project r.service view) where
    ids_of_Listed :
        (s : Sys W) (x : Result (List Acl) × W) (l : List Acl)
        → Listed view s.world x
        → x.0 ≡ ok l
        → All HasId (view s.world)
        → All HasId l
    ids_of_Listed s (ok m, w) l c e h = rw (← (ap (value_of l) e), c.0) h
    ids_of_Listed s (err _, w) l c e h = cc
    ids_of_Listed s (panic, w) l c e h = cc

    existing-ok :
        (s : Sys W)
        → All HasId (view s.world)
        → (l : List Acl) × ((get_existing_acls r s).0 ≡ ok l) × All HasId l
    unfolding get_existing_acls topic_acls
    existing-ok s h =
        let (l, e) = responsive.lists s.world in
        let listed : Action W (List Acl) =
          observe_aiven_latency "ACL_List" r.project
            (call (r.aiven_acls.list r.project r.service)) in
        (
          topic_acls l r.source.topic_name,
          ap (λ x. x.0)
              (bind-ok listed (λ m. pure (topic_acls m r.source.topic_name)) s l
                (observe-outcome "ACL_List" r.project _ s ∙ e)),
          select-HasId _ l (ids_of_Listed s _ l (L.list-view s.world) e h),
        )

    module _ (user_name : TopicAcl → String → Result String) (s : Sys W) (wanted : List Acl)
        (w : get_wanted_acls user_name r.source.topic_name r.source.acls ≡ ok wanted)
        (ids : All HasId (view s.world)) where
      synchronize-ok : (synchronize user_name r s).0 ≡ ok tt
      unfolding synchronize delete_acls
      synchronize-ok =
          let finish = λ (existing : List Acl) (m : List Acl).
            add r (new_acls existing m) >> delete r (delete_acls existing m) in
          let ask_wanted =
            lift {W = W} (get_wanted_acls user_name r.source.topic_name r.source.acls) in
          let (l, e, h) = existing-ok s ids in
          let t = (get_existing_acls r s).1 in
          ap (λ x. x.0)
            (bind-ok (get_existing_acls r) (λ existing. ask_wanted >>= finish existing) s l e)
          ∙ ap (λ x. x.0) (bind-ok ask_wanted (finish l) t wanted w)
          ∙ ap (λ x. x.0)
              (bind-ok (add r (new_acls l wanted)) (λ _. delete r (delete_acls l wanted)) t tt
                (add-ok (new_acls l wanted) t))
          ∙ delete-ok (delete_acls l wanted) (add r (new_acls l wanted) t).1 (select-HasId _ l h)

      -- Outside dry-run mode, on a lawful ACL store whose calls succeed and whose entries have IDs, and
      -- if every wanted entry gets a user name: `Synchronize` succeeds, and afterwards an entry for the
      -- manager's topic exists exactly if it is wanted, and one for another topic exactly if it did
      -- before.
      pub synchronize-establishes :
          r.dry_run ≡ false
          → (e : Acl)
          → ((synchronize user_name r s).0 ≡ ok tt)
            × (contains_acl (view (synchronize user_name r s).1.world) e ≡ (
                if e.topic == r.source.topic_name
                then contains_acl wanted e
                else contains_acl (view s.world) e))
      synchronize-establishes live e = (
        synchronize-ok,
        synchronize-converges user_name r view L live wanted s w synchronize-ok e,
      )
