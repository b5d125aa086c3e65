-- ===== src/Utils/CredStrip.antt =====
-- pkg/utils/cred_strip.go
use Prim.Native.Char.{code}
use kafkarator.Base.{
  ℕ, ◌+◌, Bool, true, false, ◌&&◌, ◌||◌, String, List, [], ◌∷◌, map, any, ◌==◌, nat_eq, leb,
  if◌then◌else◌,
}
use kafkarator.Go.{Error, text, error_text}

-- The code points of a text.
unfoldable pub codes : String → List ℕ
codes String.[] = []
codes (String.◌∷◌ c s) = code c ∷ codes s

-- `strings.ToLower`, as far as a search for ASCII texts sees it: besides A to Z only the capital I with
-- a dot (U+0130) and the Kelvin sign (U+212A) have an ASCII letter as their lower case.
unfoldable pub lower : ℕ → ℕ
lower c =
    if leb b'A' c && leb c b'Z'
    then c + 32
    else (if c == 0x130 then b'i' else (if c == 0x212a then b'k' else c))

unfoldable pub is_prefix : List ℕ → List ℕ → Bool
is_prefix [] s = true
is_prefix (c ∷ t) [] = false
is_prefix (c ∷ t) (d ∷ s) = c == d && is_prefix t s

-- `strings.Contains(s, t)`
unfoldable pub contains_text : List ℕ → List ℕ → Bool
unfolding is_prefix
contains_text [] t = is_prefix t []
contains_text (c ∷ s) t = is_prefix t (c ∷ s) || contains_text s t

-- `triggerWords`
abbrev pub trigger_words : List String
trigger_words = "password" ∷ "token" ∷ "secret" ∷ "private key" ∷ "certificate" ∷ "avns_" ∷ []

-- The test in the loop of `CheckForPossibleCredentials`, for all words.
unfoldable pub has_trigger : String → Bool
unfolding contains_text lower codes
has_trigger s = any (λ word. contains_text (map lower (codes s)) (codes word)) trigger_words

abbrev pub removed_message : String
removed_message = "error message has been removed because it contains possible credentials"

-- `CheckForPossibleCredentials`
unfoldable pub check_for_possible_credentials : Error → Error
unfolding has_trigger error_text
check_for_possible_credentials e = if has_trigger (error_text e) then text removed_message else e
