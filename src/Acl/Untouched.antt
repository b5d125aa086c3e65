-- ===== src/Acl/Untouched.antt =====
-- What the calls of the ACL API leave alone, `Manager.Synchronize` leaves alone.
use kafkarator.Base.{◌≡◌, ap, ◌∙◌, String, List, [], ◌∷◌, Bool-cases, inl, inr, ◌==◌, string_eq}
use kafkarator.Go.{Result, Sys, Action, pure, call, lift, ◌>>=◌, ◌>>◌}
use kafkarator.Go.Worlds.{Keeps, Keeps-bind}
use kafkarator.External.{TopicAcl}
use kafkarator.Metrics.{observe_aiven_latency}
use kafkarator.Metrics.Laws.{observe-world}
use kafkarator.Acl.Model.{Acl, CreateKafkaAclRequest, new_acls, delete_acls, topic_acls}
use kafkarator.Acl.Manager.{
  AclApi, AclManager, request_for, add_one, add, delete_one, delete, get_existing_acls,
  get_wanted_acls, synchronize,
}

pub record IsAclOnly {W O : Type 0} (api : AclApi W) (project service : String) (obs : W → O)
    : Type 0 where
  pub listing : (w : W) → obs (api.list project service w).1 ≡ obs w
  pub creating :
      (w : W) (req : CreateKafkaAclRequest) → obs (api.create project service req w).1 ≡ obs w
  pub deleting : (w : W) (id : String) → obs (api.delete project service id w).1 ≡ obs w

module _ {W O : Type 0} (r : AclManager W) (obs : W → O)
    (only : IsAclOnly r.aiven_acls r.project r.service obs) (o : O) where
  observed-Keeps :
      {A : Type 0} (operation : String) (m : Action W A) (s : Sys W)
      → Keeps obs o (m s)
      → Keeps obs o (observe_aiven_latency operation r.project m s)
  observed-Keeps operation m s h = ap obs (observe-world operation r.project m s) ∙ h

  add_one-Keeps : (a : Acl) (s : Sys W) → obs s.world ≡ o → Keeps obs o (add_one r a s)
  unfolding add_one
  add_one-Keeps a s h = observed-Keeps "ACL_Create" _ s (elim (Bool-cases r.dry_run) [
    | inl dry ↦ rw dry h
    | inr live ↦ rw live (
        Keeps-bind obs o (call (r.aiven_acls.create r.project r.service (request_for a)))
          (λ _. pure tt) s (only.creating s.world (request_for a) ∙ h) (λ _ t k. k))
  ])

  delete_one-Keeps : (a : Acl) (s : Sys W) → obs s.world ≡ o → Keeps obs o (delete_one r a s)
  unfolding delete_one
  delete_one-Keeps a s h = elim (Bool-cases (a.id == "")) [
    | inl empty ↦ rw empty h
    | inr named ↦ rw named (
        observed-Keeps "ACL_Delete" _ s (elim (Bool-cases r.dry_run) [
          | inl dry ↦ rw dry h
          | inr live ↦ rw live (only.deleting s.world a.id ∙ h)
        ]))
  ]

  add-Keeps : (l : List Acl) (s : Sys W) → obs s.world ≡ o → Keeps obs o (add r l s)
  unfolding add
  add-Keeps [] s h = h
  add-Keeps (a ∷ l) s h =
      Keeps-bind obs o (add_one r a) (λ _. add r l) s (add_one-Keeps a s h)
        (λ _ t k. add-Keeps l t k)

  delete-Keeps : (l : List Acl) (s : Sys W) → obs s.world ≡ o → Keeps obs o (delete r l s)
  unfolding delete
  delete-Keeps [] s h = h
  delete-Keeps (a ∷ l) s h =
      Keeps-bind obs o (delete_one r a) (λ _. delete r l) s (delete_one-Keeps a s h)
        (λ _ t k. delete-Keeps l t k)

  existing-Keeps : (s : Sys W) → obs s.world ≡ o → Keeps obs o (get_existing_acls r s)
  unfolding get_existing_acls
  existing-Keeps s h =
      let listed : Action W (List Acl) =
        observe_aiven_latency "ACL_List" r.project (call (r.aiven_acls.list r.project r.service)) in
      Keeps-bind obs o listed (λ l. pure (topic_acls l r.source.topic_name)) s
        (observed-Keeps "ACL_List" _ s (only.listing s.world ∙ h)) (λ l t k. k)

  pub synchronize-Keeps :
      (user_name : TopicAcl → String → Result String) (s : Sys W)
      → obs s.world ≡ o
      → Keeps obs o (synchronize user_name r s)
  unfolding synchronize
  synchronize-Keeps user_name s h =
      let finish = λ (existing wanted : List Acl).
        add r (new_acls existing wanted) >> delete r (delete_acls existing wanted) in
      let ask_wanted = lift {W = W} (get_wanted_acls user_name r.source.topic_name r.source.acls) in
      Keeps-bind obs o (get_existing_acls r) (λ existing. ask_wanted >>= finish existing) s
        (existing-Keeps s h)
        λ existing t k. Keeps-bind obs o ask_wanted (finish existing) t k λ wanted u l.
          Keeps-bind obs o (add r (new_acls existing wanted))
            (λ _. delete r (delete_acls existing wanted)) u (add-Keeps _ u l)
            λ _ v m. delete-Keeps _ v m
