-- ===== src/Acl/Phases.antt =====
-- What the loops of `add` and `delete` do to the entries of a lawful store.
use kafkarator.Base.{sym, Bool-cases, inl, inr}
use kafkarator.Base.{◌≡◌, refl, ◌∙◌, true, false, List, [], ◌∷◌, ◌++◌, arith, All, ◌==◌, string_eq}
use mathlib.Core.List.{append-nil, append_assoc}
use kafkarator.Go.{Result, ok, err, panic, Sys, call, pure, ◌>>=◌}
use kafkarator.Metrics.{observe_aiven_latency}
use kafkarator.Acl.Model.{Acl, same_entry, contains_acl}
use kafkarator.Acl.Manager.{AclManager, request_for, add_one, add, delete_one, delete}
use kafkarator.Acl.Sets.{same_entry_congr, same_entry_symm}
use kafkarator.Acl.Ids.{without_ids, select-select, select_congr_all, select-all}
use kafkarator.Acl.Store.{IsAclStore, Created, Deleted}

chosen-cons :
    (a : Acl) (l c : List Acl)
    → All (λ b. contains_acl l b ≡ true) c
    → All (λ b. contains_acl (a ∷ l) b ≡ true) c
unfolding contains_acl
chosen-cons a l [] h = tt
chosen-cons a l (b ∷ c) h = (ground arith, chosen-cons a l c h.1)

module _ {W : Type 0} (r : AclManager W) (view : W → List Acl)
    (L : IsAclStore r.aiven_acls r.project r.service view) (live : r.dry_run ≡ false) where
  abbrev AddedOne : Acl → Sys W → Result (Unit {0}) × Sys W → Type 0
  AddedOne a s (ok _, t) =
      (b : Acl) × (view t.world ≡ view s.world ++ (b ∷ [])) × (same_entry b a ≡ true)
  AddedOne a s (err _, t) = view t.world ≡ view s.world
  AddedOne a s (panic, t) = view t.world ≡ view s.world

  -- The call with its latency sample, whatever the API answers.
  observed_create :
      (a : Acl) (s : Sys W) (x : Result Acl × W)
      → Created view s.world (request_for a) x
      → AddedOne a s
          (observe_aiven_latency "ACL_Create" r.project (call (λ _. x) >>= λ _. pure tt) s)
  unfolding observe_aiven_latency same_entry
  observed_create a s (ok b, w) c = (b, c.0, ground arith)
  observed_create a s (err e, w) c = c
  observed_create a s (panic, w) c = c

  add_one-AddedOne : (a : Acl) (s : Sys W) → AddedOne a s (add_one r a s)
  unfolding add_one observe_aiven_latency
  add_one-AddedOne a s = rw live (observed_create a s _ (L.create-view s.world (request_for a)))

  -- The entries that `add` has created when it ends, and that all are there if it succeeds.
  pub record Added (to_add : List Acl) (s : Sys W) (x : Result (Unit {0}) × Sys W) : Type 0 where
    pub created : List Acl
    pub grown : view x.1.world ≡ view s.world ++ created
    pub chosen : All (λ a. contains_acl to_add a ≡ true) created
    pub complete : x.0 ≡ ok tt → (e : Acl) → contains_acl created e ≡ contains_acl to_add e

  add-step :
      (a : Acl) (l : List Acl) (s : Sys W) (x : Result (Unit {0}) × Sys W)
      → AddedOne a s x
      → ((t : Sys W) → Added l t (add r l t))
      → Added (a ∷ l) s (((λ _. x) >>= λ _. add r l) s)
  unfolding contains_acl
  add-step a l s (ok _, t) (b, grown, same) ih =
      let rest = ih t in
      record {
        created = b ∷ rest.created;
        grown = rw (rest.grown, grown, append_assoc) refl;
        chosen = (ground (arith, same_entry_symm a b), chosen-cons a l rest.created rest.chosen);
        complete = λ h e. ground (arith, rest.complete h e, same_entry_congr b a e same);
      }
  add-step a l s (err _, t) c ih = record {
    created = [];
    grown = rw (c, append-nil);
    chosen = tt;
    complete = λ h. cc;
  }
  add-step a l s (panic, t) c ih = record {
    created = [];
    grown = rw (c, append-nil);
    chosen = tt;
    complete = λ h. cc;
  }

  pub add-Added : (l : List Acl) (s : Sys W) → Added l s (add r l s)
  unfolding add
  add-Added [] s = record {
    created = [];
    grown = rw append-nil;
    chosen = tt;
    complete = λ h e. refl;
  }
  add-Added (a ∷ l) s = add-step a l s (add_one r a s) (add_one-AddedOne a s) (add-Added l)

  abbrev DeletedOne : Acl → Sys W → Result (Unit {0}) × Sys W → Type 0
  DeletedOne a s (ok _, t) = view t.world ≡ without_ids (a ∷ []) (view s.world)
  DeletedOne a s (err _, t) = view t.world ≡ view s.world
  DeletedOne a s (panic, t) = view t.world ≡ view s.world

  observed_delete :
      (a : Acl) (s : Sys W) (x : Result (Unit {0}) × W)
      → Deleted view s.world a.id x
      → DeletedOne a s (observe_aiven_latency "ACL_Delete" r.project (call (λ _. x)) s)
  unfolding observe_aiven_latency
  observed_delete a s (ok b, w) c = c ∙ select_congr_all _ _ (view s.world) (λ b. ground arith)
  observed_delete a s (err e, w) c = c
  observed_delete a s (panic, w) c = c

  delete_one-DeletedOne : (a : Acl) (s : Sys W) → DeletedOne a s (delete_one r a s)
  unfolding delete_one observe_aiven_latency
  delete_one-DeletedOne a s = elim (Bool-cases (a.id == "")) [
    | inl none_given ↦ rw none_given refl
    | inr given ↦ rw (given, live) (observed_delete a s _ (L.delete-view s.world a.id))
  ]

  -- The entries that `delete` has removed by their IDs when it ends: all if it succeeds.
  pub record Removed (to_delete : List Acl) (s : Sys W) (x : Result (Unit {0}) × Sys W)
      : Type 0 where
    pub removed : List Acl
    pub rest : List Acl
    pub split : to_delete ≡ removed ++ rest
    pub shrunk : view x.1.world ≡ without_ids removed (view s.world)
    pub complete : x.0 ≡ ok tt → rest ≡ []

  delete-step :
      (a : Acl) (l : List Acl) (s : Sys W) (x : Result (Unit {0}) × Sys W)
      → DeletedOne a s x
      → ((t : Sys W) → Removed l t (delete r l t))
      → Removed (a ∷ l) s (((λ _. x) >>= λ _. delete r l) s)
  delete-step a l s (ok _, t) c ih =
      let later = ih t in
      record {
        removed = a ∷ later.removed;
        rest = later.rest;
        split = rw later.split refl;
        shrunk =
            later.shrunk
            ∙ rw (c, select-select) (select_congr_all _ _ (view s.world) (λ b. ground arith));
        complete = later.complete;
      }
  delete-step a l s (err _, t) c ih = record {
    removed = [];
    rest = a ∷ l;
    split = refl;
    shrunk = c ∙ sym (select-all (view s.world));
    complete = λ h. cc;
  }
  delete-step a l s (panic, t) c ih = record {
    removed = [];
    rest = a ∷ l;
    split = refl;
    shrunk = c ∙ sym (select-all (view s.world));
    complete = λ h. cc;
  }

  pub delete-Removed : (l : List Acl) (s : Sys W) → Removed l s (delete r l s)
  unfolding delete
  delete-Removed [] s = record {
    removed = [];
    rest = [];
    split = refl;
    shrunk = sym (select-all (view s.world));
    complete = λ h. refl;
  }
  delete-Removed (a ∷ l) s =
      delete-step a l s (delete_one r a s) (delete_one-DeletedOne a s) (delete-Removed l)
