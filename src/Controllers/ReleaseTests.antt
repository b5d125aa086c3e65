-- ===== src/Controllers/ReleaseTests.antt =====
-- A deleted topic that `Reconcile` reads, processes and writes back without the finalizer.
use kafkarator.Base.{
  ◌≡◌, refl, true, false, String, List, ◌∷◌, ◌⊎◌, contains, string_eq, ==_refl, arith,
}
use kafkarator.Go.{ok, Sys}
use kafkarator.Go.Worlds.{EndsIn}
use kafkarator.External.{Topic}
use kafkarator.Metrics.{observe_aiven_latency}
use kafkarator.Acl
use kafkarator.Acl.{
  topic_acls, topic_adapter, new_acls, delete_acls, contains_acl, same_entry, from_topic_acl,
  add_one, add, delete_one, delete, get_existing_acls, get_wanted_acls,
}
use kafkarator.Acl.Example.{Entries, entries_api-IsAclStore}
use kafkarator.Topic.Example.{numbers, liberator}
use kafkarator.Controllers.Common.{Reconciler, finalizer}
use kafkarator.Controllers.TopicProcess.{
  process, process_deletion, delete_data, deleted, initial_status,
}
use kafkarator.Controllers.TopicReconcile.{with_finalizer, reconcile}
use kafkarator.Controllers.TopicRelease.{IsHeld, IsGone, reconcile-releases}
use kafkarator.Controllers.Tests.{reconciler, events, start, result}

abbrev r : Reconciler numbers Entries
r =
    let s = reconciler false in
    record s { client = record s.client { get_topic = λ namespace name w. (ok events, w) } }

abbrev reached : Sys Entries
reached = (process liberator r (with_finalizer liberator r events) start).1

ran :
    process liberator r (with_finalizer liberator r events) start
    ≡ (ok (result, with_finalizer liberator r events), reached)
unfolding with_finalizer process process_deletion deleted delete_data initial_status Acl.synchronize
    topic_adapter get_existing_acls get_wanted_acls from_topic_acl topic_acls new_acls delete_acls
    contains_acl same_entry add add_one delete delete_one observe_aiven_latency string_eq
ran = refl

adding : (l : List String) → contains (finalizer ∷ l) finalizer ≡ true
adding l = ground (arith, ==_refl finalizer)

reconcile-releases_example :
    (written : Topic numbers) × EndsIn
      (r.client.update_topic written reached.world).1
      (reconcile liberator r "team" "events" start)
    × (IsHeld liberator r events
          (λ service w. w.0)
          (λ service. entries_api-IsAclStore "nav-dev" service)
          (λ service w. refl)
          refl
          adding
          written
        ⊎ IsGone liberator r events
            (λ service w. w.0)
            (λ service. entries_api-IsAclStore "nav-dev" service)
            (λ service w. refl)
            refl
            adding
            start.world
            reached.world)
reconcile-releases_example =
    reconcile-releases liberator r events (λ service w. w.0)
      (λ service. entries_api-IsAclStore "nav-dev" service) (λ service w. refl) refl adding "team"
      "events" start reached start.world result (with_finalizer liberator r events) refl ran refl
