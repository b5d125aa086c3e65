-- ===== src/Utils/Redaction.antt =====
-- `CheckForPossibleCredentials` against a description of where a word occurs.
use kafkarator.Base.{
  ℕ, ◌≡◌, refl, ap, true, false, String, List, [], ◌∷◌, ◌++◌, map, any, All, arith, nat_eq,
  Bool-cases, inl, inr,
}
use kafkarator.Go.{Error, error_text}
use kafkarator.Utils.CredStrip.{
  codes, lower, is_prefix, contains_text, has_trigger, trigger_words, removed_message,
  check_for_possible_credentials,
}

is_prefix-append : (t s : List ℕ) → is_prefix t (t ++ s) ≡ true
unfolding is_prefix
is_prefix-append [] s = refl
is_prefix-append (c ∷ t) s = ground (arith, is_prefix-append t s)

-- A text that occurs is found.
contains_text_complete : (before t after : List ℕ) → contains_text (before ++ (t ++ after)) t ≡ true
unfolding contains_text
contains_text_complete [] [] [] = refl
contains_text_complete [] [] (c ∷ after) = refl
contains_text_complete [] (c ∷ t) after = ground (arith, is_prefix-append t after)
contains_text_complete (c ∷ before) t after = ground (arith, contains_text_complete before t after)

is_prefix_sound : (t s : List ℕ) → is_prefix t s ≡ true → (after : List ℕ) × (s ≡ t ++ after)
unfolding is_prefix
is_prefix_sound [] s h = (s, refl)
is_prefix_sound (c ∷ t) [] h = cc
is_prefix_sound (c ∷ t) (d ∷ s) h =
    let (after, e) = is_prefix_sound t s (ground arith) in (after, ground arith)

-- A text that is found occurs.
contains_text_sound :
    (s t : List ℕ)
    → contains_text s t ≡ true
    → (before after : List ℕ) × (s ≡ before ++ (t ++ after))
unfolding contains_text
contains_text_sound [] t h = let (after, e) = is_prefix_sound t [] h in ([], after, e)
contains_text_sound (c ∷ s) t h = elim (Bool-cases (is_prefix t (c ∷ s))) [
  | inl here ↦ let (after, e) = is_prefix_sound t (c ∷ s) here in ([], after, e)
  | inr further ↦
      let (before, after, e) = contains_text_sound s t (ground arith) in
      (c ∷ before, after, ap (λ l. c ∷ l) e)
]

-- The word occurs in the text, capitals or not.
abbrev pub Occurs : String → String → Type 0
Occurs word s = (before after : List ℕ) × (map lower (codes s) ≡ before ++ (codes word ++ after))

no_trigger :
    (s : String) (words : List String)
    → any (λ word. contains_text (map lower (codes s)) (codes word)) words ≡ false
    → All (λ word. ¬ (Occurs word s)) words
no_trigger s [] h = tt
no_trigger s (w ∷ words) h = (
  λ (before, after, e).
      cc (
        contains_text_complete before (codes w) after,
        ap (λ l. contains_text l (codes w)) e,
        found,
      ),
  no_trigger s words (ground arith),
)
  where
    found : contains_text (map lower (codes s)) (codes w) ≡ false
    found = ground arith

removed_message-clean : has_trigger removed_message ≡ false
unfolding has_trigger nat_eq
removed_message-clean = refl

check-clean : (e : Error) → has_trigger (error_text (check_for_possible_credentials e)) ≡ false
unfolding check_for_possible_credentials
check-clean e = elim (Bool-cases (has_trigger (error_text e))) [
  | inl found ↦ rw found removed_message-clean
  | inr clean ↦ rw clean clean
]

no_word :
    (s : String) (words : List String)
    → All (λ word. ¬ (Occurs word s)) words
    → any (λ word. contains_text (map lower (codes s)) (codes word)) words ≡ false
no_word s [] h = refl
no_word s (w ∷ words) h = elim (Bool-cases (contains_text (map lower (codes s)) (codes w))) [
  | inl found ↦ absurd (h.0 (contains_text_sound _ _ found))
  | inr absent ↦ rw absent (no_word s words h.1)
]

no_word-clean : (s : String) → All (λ word. ¬ (Occurs word s)) trigger_words → has_trigger s ≡ false
unfolding has_trigger
no_word-clean s h = no_word s trigger_words h

pub clean-no_word :
    (s : String) → has_trigger s ≡ false → All (λ word. ¬ (Occurs word s)) trigger_words
unfolding has_trigger
clean-no_word s h = no_trigger s trigger_words h

-- The text of what `CheckForPossibleCredentials` returns has none of the trigger words in it, in capitals
-- or not.
pub check-redacts :
    (e : Error)
    → All (λ word. ¬ (Occurs word (error_text (check_for_possible_credentials e)))) trigger_words
unfolding check_for_possible_credentials
check-redacts e = clean-no_word (error_text (check_for_possible_credentials e)) (check-clean e)

-- An error whose text has none of the trigger words in it, in capitals or not, comes back as it is.
pub check-unchanged :
    (e : Error)
    → All (λ word. ¬ (Occurs word (error_text e))) trigger_words
    → check_for_possible_credentials e ≡ e
unfolding check_for_possible_credentials
check-unchanged e h = rw (no_word-clean (error_text e) h) refl
