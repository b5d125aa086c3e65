-- ===== src/Acl/Safety.antt =====
-- What a run of `Manager.Synchronize` never does, also when it fails half-way.
use kafkarator.Base.{
  ◌≡◌, refl, ap, ◌∙◌, ◌≢◌, Bool, true, false, ◌||◌, String, List, [], ◌∷◌, ◌++◌, arith, All,
  string_eq,
}
use kafkarator.Go.{Result, ok, err, panic, Sys}
use kafkarator.External.{TopicAcl}
use kafkarator.Acl.Model.{Acl, same_entry, contains_acl}
use kafkarator.Acl.Manager.{AclManager, get_wanted_acls, synchronize}
use kafkarator.Acl.Sets.{contains_acl-append, is_obsolete, is_obsolete_congr}
use kafkarator.Acl.Ids.{has_id, without_ids, has_id-select_iff}
use kafkarator.Acl.Store.{IsAclStore}
use kafkarator.Acl.Outcome.{synchronize-Synced, synchronize-stopped, Synced}
use kafkarator.Acl.Converge.{wanted-topic, select-obsolete, contains_acl-chosen}

has_id-append_left : (l m : List Acl) (i : String) → has_id (l ++ m) i ≡ false → has_id l i ≡ false
has_id-append_left [] m i h = refl
has_id-append_left (a ∷ l) m i h = ground (arith, has_id-append_left l m i)

-- Entries that are not obsolete are out of reach of the IDs of obsolete ones.
spared :
    (q : Acl → Bool) (removed rest l : List Acl)
    → All (λ a. has_id (removed ++ rest) a.id ≡ q a) l
    → All (λ a. q a ≡ false → has_id removed a.id ≡ false) l
spared q removed rest [] h = tt
spared q removed rest (a ∷ l) h =
    (λ e. has_id-append_left removed rest a.id (h.0 ∙ e), spared q removed rest l h.1)

contains_acl-spared :
    (q : Acl → Bool)
    → ((a b : Acl) → same_entry a b ≡ true → q a ≡ q b)
    → (removed l : List Acl) (e : Acl) → q e ≡ false
    → All (λ a. q a ≡ false → has_id removed a.id ≡ false) l
    → contains_acl (without_ids removed l) e ≡ contains_acl l e
unfolding contains_acl
contains_acl-spared q congr removed [] e keep h = refl
contains_acl-spared q congr removed (a ∷ l) e keep h =
    ground (arith, congr a e, h.0, contains_acl-spared q congr removed l e keep h.1)

module _ {W : Type 0} (user_name : TopicAcl → String → Result String) (r : AclManager W)
    (view : W → List Acl) (L : IsAclStore r.aiven_acls r.project r.service view)
    (live : r.dry_run ≡ false) (wanted : List Acl) (s : Sys W)
    (w : get_wanted_acls user_name r.source.topic_name r.source.acls ≡ ok wanted) where
  abbrev after : List Acl
  after = view (synchronize user_name r s).1.world

  run : Synced user_name r view L live wanted s (synchronize user_name r s)
  run = synchronize-Synced user_name r view L live wanted s w

  kept :
      (e : Acl)
      → is_obsolete r.source.topic_name wanted e ≡ false
      → contains_acl after e ≡ (contains_acl (view s.world) e || contains_acl run.created e)
  kept e keep =
      let q = is_obsolete r.source.topic_name wanted in
      let v = view s.world in
      let same = select-obsolete r.source.topic_name wanted v run.created run.chosen ∙ run.split in
      let exact : All (λ a. has_id (run.removed ++ run.rest) a.id ≡ q a) (v ++ run.created) =
        rw same at (has_id-select_iff q (v ++ run.created) run.distinct) in
      ap (λ l. contains_acl l e) run.result
      ∙ contains_acl-spared q (is_obsolete_congr r.source.topic_name wanted) run.removed
          (v ++ run.created) e keep (spared q run.removed run.rest _ exact)
      ∙ contains_acl-append v run.created e

  kept_wanted :
      (e : Acl)
      → contains_acl wanted e ≡ true
      → contains_acl (view s.world) e ≡ true
      → contains_acl after e ≡ true
  unfolding is_obsolete
  kept_wanted e wants there = kept e (ground arith) ∙ ground arith

  kept_other :
      (e : Acl)
      → e.topic ≢ r.source.topic_name
      → contains_acl after e ≡ contains_acl (view s.world) e
  unfolding is_obsolete
  kept_other e other =
      kept e (ground arith)
      ∙ ground (
        arith,
        contains_acl-chosen wanted run.created e run.chosen,
        wanted-topic user_name r.source.topic_name r.source.acls wanted w e,
      )

-- The entry is wanted, or the wanted entries cannot be determined.
abbrev pub MayBeWanted : Result (List Acl) → Acl → Type 0
MayBeWanted (ok wanted) e = contains_acl wanted e ≡ true
MayBeWanted (err _) e = Unit
MayBeWanted panic e = Unit

module _ {W : Type 0} (user_name : TopicAcl → String → Result String) (r : AclManager W)
    (view : W → List Acl) (L : IsAclStore r.aiven_acls r.project r.service view)
    (live : r.dry_run ≡ false) (s : Sys W) where
  abbrev demanded : Result (List Acl)
  demanded = get_wanted_acls user_name r.source.topic_name r.source.acls

  -- However a run of `Synchronize` ends, outside dry-run mode and on a lawful ACL store: an entry that
  -- exists before, and that is wanted, is still there afterwards. If the wanted entries cannot be
  -- determined, for an error of a user name, every entry that exists before is still there.
  pub synchronize-keeps_wanted :
      (e : Acl)
      → MayBeWanted (get_wanted_acls user_name r.source.topic_name r.source.acls) e
      → contains_acl (view s.world) e ≡ true
      → contains_acl (view (synchronize user_name r s).1.world) e ≡ true
  synchronize-keeps_wanted e = go demanded refl
    where
      idle :
          ((wanted : List Acl) → demanded ≢ ok wanted)
          → contains_acl (view s.world) e ≡ true
          → contains_acl (view (synchronize user_name r s).1.world) e ≡ true
      idle never there =
          ap (λ l. contains_acl l e) (synchronize-stopped user_name r view L live s never) ∙ there

      go :
          (g : Result (List Acl))
          → demanded ≡ g
          → MayBeWanted g e
          → contains_acl (view s.world) e ≡ true
          → contains_acl (view (synchronize user_name r s).1.world) e ≡ true
      go (ok wanted) w wants there = kept_wanted user_name r view L live wanted s w e wants there
      go (err f) w wants there = idle (λ wanted h. cc) there
      go panic w wants there = idle (λ wanted h. cc) there

  -- However a run of `Synchronize` ends, outside dry-run mode and on a lawful ACL store: an entry of
  -- another topic exists afterwards exactly if it did before.
  pub synchronize-keeps_others :
      (e : Acl)
      → e.topic ≢ r.source.topic_name
      → contains_acl (view (synchronize user_name r s).1.world) e ≡ contains_acl (view s.world) e
  synchronize-keeps_others e other = go demanded refl
    where
      go :
          (g : Result (List Acl))
          → demanded ≡ g
          → contains_acl (view (synchronize user_name r s).1.world) e
            ≡ contains_acl (view s.world) e
      go (ok wanted) w = kept_other user_name r view L live wanted s w e other
      go (err f) w =
          ap (λ l. contains_acl l e)
            (synchronize-stopped user_name r view L live s (λ wanted h. cc))
      go panic w =
          ap (λ l. contains_acl l e)
            (synchronize-stopped user_name r view L live s (λ wanted h. cc))
