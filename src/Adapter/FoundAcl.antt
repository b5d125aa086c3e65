-- ===== src/Adapter/FoundAcl.antt =====
-- Which entry `Create` of the generated client's adapter takes for the one that it created.
use kafkarator.Base.{
  ◌≡◌, refl, true, false, List, [], ◌∷◌, ◌++◌, Option, none, some, arith, All, if◌then◌else◌,
}
use kafkarator.Go.{ok, err, text}
use kafkarator.Adapter.GoClientCodegen.{AclOut, AclAddIn, make_acl, matches, find_acl, created_acl}

find_acl-no_match :
    (req : AclAddIn) (found : Option AclOut) (out : List AclOut)
    → All (λ a. matches req a ≡ false) out
    → find_acl req found out ≡ found
unfolding find_acl
find_acl-no_match req found [] h = refl
find_acl-no_match req found (a ∷ out) h = rw h.0 (find_acl-no_match req found out h.1)

pub find_acl-last :
    (req : AclAddIn) (found : Option AclOut) (before after : List AclOut) (a : AclOut)
    → matches req a ≡ true
    → All (λ b. matches req b ≡ false) after
    → find_acl req found (before ++ (a ∷ after)) ≡ some a
unfolding find_acl
find_acl-last req found [] after a h none_after =
    ground (arith, find_acl-no_match req (some a) after none_after)
find_acl-last req found (b ∷ before) after a h none_after =
    find_acl-last req (if matches req b then some b else found) before after a h none_after

-- `Create` answers with the last entry of the server's answer that has the permission, the topic
-- and the user name of the request.
pub created_acl-last :
    (req : AclAddIn) (before after : List AclOut) (a : AclOut)
    → matches req a ≡ true
    → All (λ b. matches req b ≡ false) after
    → created_acl req (before ++ (a ∷ after)) ≡ ok (make_acl a)
unfolding created_acl
created_acl-last req before after a h none_after =
    ground (arith, find_acl-last req none before after a h none_after)

-- `Create` fails if no entry of the server's answer has the permission, the topic and the user name of
-- the request.
pub created_acl-missing :
    (req : AclAddIn) (out : List AclOut)
    → All (λ b. matches req b ≡ false) out
    → created_acl req out ≡ err (text "created ACL not found from response ACL list")
unfolding created_acl
created_acl-missing req out h = ground (arith, find_acl-no_match req none out h)
