-- ===== src/Acl/Outcome.antt =====
-- What one run of `Manager.Synchronize` has done when it ends, however it ends.
use kafkarator.Base.{
  ◌≡◌, refl, sym, ap, ◌∙◌, ◌≢◌, true, false, String, List, [], ◌∷◌, ◌++◌, arith, All,
}
use mathlib.Core.List.{append-nil}
use kafkarator.Go.{Result, ok, err, panic, Sys, call, pure, lift, ◌>>=◌, ◌>>◌}
use kafkarator.External.{TopicAcl}
use kafkarator.Metrics.{observe_aiven_latency}
use kafkarator.Acl.Model.{Acl, contains_acl, new_acls, delete_acls, topic_acls}
use kafkarator.Acl.Manager.{
  AclManager, add, delete, get_existing_acls, get_wanted_acls, synchronize,
}
use kafkarator.Acl.Sets.{contains_acl-new_acls}
use kafkarator.Acl.Ids.{NodupIds, without_ids, select-all}
use kafkarator.Acl.Store.{IsAclStore, Listed}
use kafkarator.Acl.Phases.{Added, add-Added, delete-Removed}

chosen-new_acls :
    (existing wanted c : List Acl)
    → All (λ b. contains_acl (new_acls existing wanted) b ≡ true) c
    → All (λ b. contains_acl wanted b ≡ true) c
chosen-new_acls existing wanted [] h = tt
chosen-new_acls existing wanted (b ∷ c) h =
    (ground (arith, contains_acl-new_acls existing wanted b), chosen-new_acls existing wanted c h.1)

module _ {W : Type 0} (user_name : TopicAcl → String → Result String) (r : AclManager W)
    (view : W → List Acl) (L : IsAclStore r.aiven_acls r.project r.service view)
    (live : r.dry_run ≡ false) where
  abbrev existing_in : Sys W → List Acl
  existing_in s = topic_acls (view s.world) r.source.topic_name

  abbrev Existing : Sys W → Result (List Acl) × Sys W → Type 0
  Existing s (ok l, t) = (l ≡ existing_in s) × (view t.world ≡ view s.world)
  Existing s (err _, t) = view t.world ≡ view s.world
  Existing s (panic, t) = view t.world ≡ view s.world

  observed_list :
      (s : Sys W) (x : Result (List Acl) × W)
      → Listed view s.world x
      → Existing s (
          (observe_aiven_latency "ACL_List" r.project (call (λ _. x)) >>= λ l.
          pure (topic_acls l r.source.topic_name))
            s)
  unfolding observe_aiven_latency
  observed_list s (ok l, w) c = (ap (λ l. topic_acls l r.source.topic_name) c.0, c.1)
  observed_list s (err e, w) c = c
  observed_list s (panic, w) c = c

  get_existing_acls-Existing : (s : Sys W) → Existing s (get_existing_acls r s)
  unfolding get_existing_acls observe_aiven_latency
  get_existing_acls-Existing s = observed_list s _ (L.list-view s.world)

  -- Entries were created, each one wanted; then obsolete ones were removed, in order. A run that
  -- succeeds did both in full.
  pub record Synced (wanted : List Acl) (s : Sys W) (x : Result (Unit {0}) × Sys W) : Type 0 where
    pub created : List Acl
    pub removed : List Acl
    pub rest : List Acl
    pub chosen : All (λ b. contains_acl wanted b ≡ true) created
    pub split : delete_acls (existing_in s) wanted ≡ removed ++ rest
    pub result : view x.1.world ≡ without_ids removed (view s.world ++ created)
    pub distinct : NodupIds (view s.world ++ created)
    pub created_all :
        x.0 ≡ ok tt
        → (e : Acl) → contains_acl created e ≡ contains_acl (new_acls (existing_in s) wanted) e
    pub removed_all : x.0 ≡ ok tt → rest ≡ []

  grown-distinct : {l : List Acl} (w : W) → view w ≡ l → NodupIds l
  grown-distinct w e = rw e at (L.distinct w)

  nothing_done :
      (wanted : List Acl) (s t : Sys W) (f : Result (Unit {0}))
      → view t.world ≡ view s.world
      → f ≢ ok tt
      → Synced wanted s (f, t)
  nothing_done wanted s t f same failed = record {
    created = [];
    removed = [];
    rest = delete_acls (existing_in s) wanted;
    chosen = tt;
    split = refl;
    result = rw (append-nil, select-all) same;
    distinct = rw append-nil (L.distinct s.world);
    created_all = λ h. absurd (failed h);
    removed_all = λ h. absurd (failed h);
  }

  after_add :
      (wanted l : List Acl) (s t : Sys W) (y : Result (Unit {0}) × Sys W)
      → l ≡ existing_in s
      → view t.world ≡ view s.world
      → Added r view L live (new_acls l wanted) t y
      → Synced wanted s (((λ _. y) >>= λ _. delete r (delete_acls l wanted)) t)
  after_add wanted l s t (ok _, u) e same a =
      let d = delete-Removed r view L live (delete_acls l wanted) u in
      record {
        created = a.created;
        removed = d.removed;
        rest = d.rest;
        chosen = chosen-new_acls l wanted a.created a.chosen;
        split = ap (λ m. delete_acls m wanted) (sym e) ∙ d.split;
        result = rw (d.shrunk, a.grown, same) refl;
        distinct = grown-distinct u.world (a.grown ∙ ap (λ l. l ++ a.created) same);
        created_all = λ h b. a.complete refl b ∙ ap (λ m. contains_acl (new_acls m wanted) b) e;
        removed_all = d.complete;
      }
  after_add wanted l s t (err _, u) e same a = record {
    created = a.created;
    removed = [];
    rest = delete_acls (existing_in s) wanted;
    chosen = chosen-new_acls l wanted a.created a.chosen;
    split = refl;
    result = rw (select-all, ← same) a.grown;
    distinct = grown-distinct u.world (a.grown ∙ ap (λ l. l ++ a.created) same);
    created_all = λ h. cc;
    removed_all = λ h. cc;
  }
  after_add wanted l s t (panic, u) e same a = record {
    created = a.created;
    removed = [];
    rest = delete_acls (existing_in s) wanted;
    chosen = chosen-new_acls l wanted a.created a.chosen;
    split = refl;
    result = rw (select-all, ← same) a.grown;
    distinct = grown-distinct u.world (a.grown ∙ ap (λ l. l ++ a.created) same);
    created_all = λ h. cc;
    removed_all = λ h. cc;
  }

  after_list :
      (wanted : List Acl) (s : Sys W) (x : Result (List Acl) × Sys W)
      → Existing s x
      → Synced wanted s
          (((λ _. x) >>= λ l. add r (new_acls l wanted) >> delete r (delete_acls l wanted)) s)
  after_list wanted s (ok l, t) c =
      after_add wanted l s t _ c.0 c.1 (add-Added r view L live (new_acls l wanted) t)
  after_list wanted s (err e, t) c = nothing_done wanted s t (err e) c (λ h. cc)
  after_list wanted s (panic, t) c = nothing_done wanted s t panic c (λ h. cc)

  pub synchronize-Synced :
      (wanted : List Acl) (s : Sys W)
      → get_wanted_acls user_name r.source.topic_name r.source.acls ≡ ok wanted
      → Synced wanted s (synchronize user_name r s)
  unfolding synchronize
  synchronize-Synced wanted s h =
      rw h (after_list wanted s (get_existing_acls r s) (get_existing_acls-Existing s))

  stopped :
      (g : Result (List Acl)) (s : Sys W) (x : Result (List Acl) × Sys W)
      → ((wanted : List Acl) → g ≢ ok wanted)
      → Existing s x
      → view
          (((λ _. x) >>= λ l.
              lift g >>= λ wanted. add r (new_acls l wanted) >> delete r (delete_acls l wanted))
            s).1.world
        ≡ view s.world
  stopped (ok wanted) s x never c = absurd (never wanted refl)
  stopped (err _) s (ok _, t) never c = c.1
  stopped (err _) s (err _, t) never c = c
  stopped (err _) s (panic, t) never c = c
  stopped panic s (ok _, t) never c = c.1
  stopped panic s (err _, t) never c = c
  stopped panic s (panic, t) never c = c

  -- A run in which the wanted entries cannot be determined leaves all entries alone.
  pub synchronize-stopped :
      (s : Sys W)
      → ((wanted : List Acl)
          → get_wanted_acls user_name r.source.topic_name r.source.acls ≢ ok wanted)
      → view (synchronize user_name r s).1.world ≡ view s.world
  unfolding synchronize
  synchronize-stopped s never =
      stopped (get_wanted_acls user_name r.source.topic_name r.source.acls) s
        (get_existing_acls r s) never (get_existing_acls-Existing s)
