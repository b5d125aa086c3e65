-- ===== src/Acl/DryRun.antt =====
-- `Manager.Synchronize` in dry-run mode, over any ACL API.
use kafkarator.Base.{◌≡◌, refl, ◌∙◌, true, String, List, [], ◌∷◌, arith}
use kafkarator.Go.{Result, Sys, Action, pure, call, lift, ◌>>=◌, ◌>>◌}
use kafkarator.Go.Worlds.{EndsIn, EndsIn-bind}
use kafkarator.External.{TopicAcl}
use kafkarator.Metrics.{observe_aiven_latency}
use kafkarator.Metrics.Laws.{observe-world}
use kafkarator.Acl.Model.{Acl, new_acls, delete_acls, topic_acls}
use kafkarator.Acl.Manager.{
  AclManager, add_one, add, delete_one, delete, get_existing_acls, get_wanted_acls, synchronize,
}

module _ {W : Type 0} (r : AclManager W) (dry : r.dry_run ≡ true) where
  abbrev SameWorld : {A : Type 0} → Sys W → Result A × Sys W → Type 0
  SameWorld s x = x.1.world ≡ s.world

  add_one-SameWorld : (a : Acl) (s : Sys W) → SameWorld s (add_one r a s)
  unfolding add_one observe_aiven_latency
  add_one-SameWorld a s = rw dry refl

  delete_one-SameWorld : (a : Acl) (s : Sys W) → SameWorld s (delete_one r a s)
  unfolding delete_one observe_aiven_latency
  delete_one-SameWorld a s = rw dry (ground arith)

  add-SameWorld : (l : List Acl) (s : Sys W) → SameWorld s (add r l s)
  unfolding add
  add-SameWorld [] s = refl
  add-SameWorld (a ∷ l) s = ground (arith, add_one-SameWorld a s, add-SameWorld l (add_one r a s).1)

  delete-SameWorld : (l : List Acl) (s : Sys W) → SameWorld s (delete r l s)
  unfolding delete
  delete-SameWorld [] s = refl
  delete-SameWorld (a ∷ l) s =
      ground (arith, delete_one-SameWorld a s, delete-SameWorld l (delete_one r a s).1)

  get_existing_acls-world :
      (s : Sys W) → EndsIn (r.aiven_acls.list r.project r.service s.world).1 (get_existing_acls r s)
  unfolding get_existing_acls
  get_existing_acls-world s =
      let listed : Action W (List Acl) =
        observe_aiven_latency "ACL_List" r.project (call (r.aiven_acls.list r.project r.service)) in
      EndsIn-bind _ listed (λ l. pure (topic_acls l r.source.topic_name)) s
        (observe-world "ACL_List" r.project _ s) (λ l t h. h)

  -- In dry-run mode `Synchronize` does nothing to the world but to list the entries once, over any
  -- ACL API and however it ends.
  pub synchronize_dry :
      (user_name : TopicAcl → String → Result String) (s : Sys W)
      → EndsIn (r.aiven_acls.list r.project r.service s.world).1 (synchronize user_name r s)
  unfolding synchronize
  synchronize_dry user_name s =
      let finish = λ (existing wanted : List Acl).
        add r (new_acls existing wanted) >> delete r (delete_acls existing wanted) in
      let w = (r.aiven_acls.list r.project r.service s.world).1 in
      let ask_wanted = lift {W = W} (get_wanted_acls user_name r.source.topic_name r.source.acls) in
      EndsIn-bind w (get_existing_acls r) (λ existing. ask_wanted >>= finish existing) s
        (get_existing_acls-world s)
        λ existing t h. EndsIn-bind w ask_wanted (finish existing) t h λ wanted u k.
          EndsIn-bind w (add r (new_acls existing wanted))
            (λ _. delete r (delete_acls existing wanted)) u (add-SameWorld _ u ∙ k)
            λ _ v l. delete-SameWorld _ v ∙ l
