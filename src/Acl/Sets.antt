-- ===== src/Acl/Sets.antt =====
-- The lists of entries to add and to delete, read as sets of entries.
use kafkarator.Base.{
  ◌≡◌, refl, Bool, true, false, not, ◌&&◌, ◌||◌, String, List, [], ◌∷◌, ◌++◌, arith, select, ◌==◌,
  string_eq, any-append,
}
use kafkarator.Acl.Model.{Acl, same_entry, contains_acl, new_acls, delete_acls, topic_acls}

pub same_entry_refl : (a : Acl) → same_entry a a ≡ true
unfolding same_entry
same_entry_refl a = ground arith

pub same_entry-topic : (a b : Acl) → same_entry a b ≡ true → a.topic ≡ b.topic
unfolding same_entry
same_entry-topic a b h = ground arith

pub same_entry_symm : (a b : Acl) → same_entry a b ≡ same_entry b a
unfolding same_entry
same_entry_symm a b = ground arith

pub same_entry_congr : (a b e : Acl) → same_entry a b ≡ true → same_entry a e ≡ same_entry b e
unfolding same_entry
same_entry_congr a b e h = ground arith

-- Entries that are the same are the same to any list.
pub contains_acl_congr :
    (l : List Acl) (a b : Acl) → same_entry a b ≡ true → contains_acl l a ≡ contains_acl l b
unfolding contains_acl same_entry
contains_acl_congr [] a b h = refl
contains_acl_congr (x ∷ l) a b h = ground (arith, contains_acl_congr l a b h)

-- A selection by a test that does not tell same entries apart.
pub contains_acl-select :
    (q : Acl → Bool)
    → ((a b : Acl) → same_entry a b ≡ true → q a ≡ q b)
    → (l : List Acl) (e : Acl) → contains_acl (select q l) e ≡ (contains_acl l e && q e)
unfolding contains_acl
contains_acl-select q h [] e = refl
contains_acl-select q h (x ∷ l) e = ground (arith, h x e, contains_acl-select q h l e)

pub contains_acl-append :
    (l m : List Acl) (e : Acl) → contains_acl (l ++ m) e ≡ (contains_acl l e || contains_acl m e)
unfolding contains_acl
contains_acl-append l m e = any-append _ l m

not_contains_congr :
    (l : List Acl) (a b : Acl)
    → same_entry a b ≡ true
    → not (contains_acl l a) ≡ not (contains_acl l b)
not_contains_congr l a b h = ground (arith, contains_acl_congr l a b h)

topic_congr : (t : String) (a b : Acl) → same_entry a b ≡ true → (a.topic == t) ≡ (b.topic == t)
topic_congr t a b h = ground (arith, same_entry-topic a b h)

-- What is to be added are the wanted entries that do not exist.
pub contains_acl-new_acls :
    (existing wanted : List Acl) (e : Acl)
    → contains_acl (new_acls existing wanted) e
      ≡ (contains_acl wanted e && not (contains_acl existing e))
unfolding new_acls
contains_acl-new_acls existing wanted e =
    contains_acl-select _ (not_contains_congr existing) wanted e

-- What is to be deleted are the existing entries that are not wanted.
pub contains_acl-delete_acls :
    (existing wanted : List Acl) (e : Acl)
    → contains_acl (delete_acls existing wanted) e
      ≡ (contains_acl existing e && not (contains_acl wanted e))
unfolding delete_acls
contains_acl-delete_acls existing wanted e =
    contains_acl-select _ (not_contains_congr wanted) existing e

pub contains_acl-topic_acls :
    (l : List Acl) (t : String) (e : Acl)
    → contains_acl (topic_acls l t) e ≡ (contains_acl l e && e.topic == t)
unfolding topic_acls
contains_acl-topic_acls l t e = contains_acl-select _ (topic_congr t) l e

-- The entries of the topic that are not wanted, as a test.
unfoldable pub is_obsolete : String → List Acl → Acl → Bool
is_obsolete t wanted a = a.topic == t && not (contains_acl wanted a)

pub is_obsolete_congr :
    (t : String) (wanted : List Acl) (a b : Acl)
    → same_entry a b ≡ true
    → is_obsolete t wanted a ≡ is_obsolete t wanted b
unfolding is_obsolete
is_obsolete_congr t wanted a b h =
    ground (arith, topic_congr t a b h, contains_acl_congr wanted a b h)

pub delete_acls-topic_acls :
    (l wanted : List Acl) (t : String)
    → delete_acls (topic_acls l t) wanted ≡ select (is_obsolete t wanted) l
unfolding delete_acls topic_acls is_obsolete
delete_acls-topic_acls [] wanted t = refl
delete_acls-topic_acls (a ∷ l) wanted t = ground (arith, delete_acls-topic_acls l wanted t)

-- A list without an entry for the topic.
pub topic_acls-eq-nil :
    (l : List Acl) (topic : String)
    → ((e : Acl) → e.topic ≡ topic → contains_acl l e ≡ false)
    → topic_acls l topic ≡ []
unfolding topic_acls contains_acl
topic_acls-eq-nil [] topic h = refl
topic_acls-eq-nil (a ∷ l) topic h = ground (
  arith,
  h a,
  same_entry_refl a,
  topic_acls-eq-nil l topic (λ e on_topic. ground (arith, h e on_topic)),
)
