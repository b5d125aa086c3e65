-- ===== src/Acl/Ids.antt =====
-- Entries with distinct IDs: a deletion by ID removes exactly the entries that were chosen.
use kafkarator.Base.{
  ◌≡◌, refl, Bool, true, false, not, ◌&&◌, ◌||◌, String, List, [], ◌∷◌, ◌++◌, arith, select, All,
  ◌==◌, string_eq,
}
use kafkarator.Acl.Model.{Acl}

abbrev pub has_id : List Acl → String → Bool
has_id [] i = false
has_id (a ∷ l) i = a.id == i || has_id l i

abbrev pub NodupIds : List Acl → Type 0
NodupIds [] = Unit
NodupIds (a ∷ l) = (has_id l a.id ≡ false) × NodupIds l

-- The list without the entries that have one of the IDs of `d`.
abbrev pub without_ids : List Acl → List Acl → List Acl
without_ids d l = select (λ a. not (has_id d a.id)) l

pub select-select :
    (p q : Acl → Bool) (l : List Acl) → select p (select q l) ≡ select (λ a. q a && p a) l
select-select p q [] = refl
select-select p q (a ∷ l) = ground (arith, select-select p q l)

pub select-append : (p : Acl → Bool) (l m : List Acl) → select p (l ++ m) ≡ select p l ++ select p m
select-append p [] m = refl
select-append p (a ∷ l) m = ground (arith, select-append p l m)

pub select-eq-nil : (p : Acl → Bool) (l : List Acl) → All (λ a. p a ≡ false) l → select p l ≡ []
select-eq-nil p [] h = refl
select-eq-nil p (a ∷ l) h = ground (arith, select-eq-nil p l h.1)

pub select_congr :
    (p q : Acl → Bool) (l : List Acl) → All (λ a. p a ≡ q a) l → select p l ≡ select q l
select_congr p q [] h = refl
select_congr p q (a ∷ l) h = ground (arith, select_congr p q l h.1)

pub select_congr_all :
    (p q : Acl → Bool) (l : List Acl) → ((a : Acl) → p a ≡ q a) → select p l ≡ select q l
select_congr_all p q [] h = refl
select_congr_all p q (a ∷ l) h = ground (arith, h a, select_congr_all p q l h)

pub select-all : (l : List Acl) → select (λ _. true) l ≡ l
select-all [] = refl
select-all (a ∷ l) = rw (select-all l)

pub has_id-select :
    (q : Acl → Bool) (l : List Acl) (i : String)
    → has_id l i ≡ false
    → has_id (select q l) i ≡ false
has_id-select q [] i h = refl
has_id-select q (a ∷ l) i h = ground (arith, has_id-select q l i)

-- One more chosen entry in front changes nothing for entries with other IDs.
has_id-cons :
    (q : Acl → Bool) (x : Acl) (m l : List Acl)
    → has_id l x.id ≡ false
    → All (λ a. has_id (select q m) a.id ≡ q a) l
    → All (λ a. has_id (select q (x ∷ m)) a.id ≡ q a) l
has_id-cons q x m [] h k = tt
has_id-cons q x m (a ∷ l) h k = (ground (arith, k.0), has_id-cons q x m l (ground arith) k.1)

pub has_id-select_iff :
    (q : Acl → Bool) (l : List Acl) → NodupIds l → All (λ a. has_id (select q l) a.id ≡ q a) l
has_id-select_iff q [] h = tt
has_id-select_iff q (x ∷ l) h =
    (ground (arith, has_id-select q l x.id), has_id-cons q x l l h.0 (has_id-select_iff q l h.1))

All-not :
    (p q : Acl → Bool) (l : List Acl) → All (λ a. p a ≡ q a) l → All (λ a. not (p a) ≡ not (q a)) l
All-not p q [] h = tt
All-not p q (a ∷ l) h = (ground arith, All-not p q l h.1)

-- Deleting the chosen entries by their IDs leaves exactly the others.
pub without_ids-select :
    (q : Acl → Bool) (l : List Acl)
    → NodupIds l
    → without_ids (select q l) l ≡ select (λ a. not (q a)) l
without_ids-select q l h =
    select_congr _ _ l (All-not (λ a. has_id (select q l) a.id) q l (has_id-select_iff q l h))
