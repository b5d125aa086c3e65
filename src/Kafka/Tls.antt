-- ===== src/Kafka/Tls.antt =====
-- pkg/kafka/kafka.go: `TLSConfig`. The decoders of the crypto libraries are a parameter.
use kafkarator.Base.{ℕ, Bool, false, String, ◌<>◌, List, [], ◌∷◌, Option, none, some}
use kafkarator.Go.{Result, ok, err, panic, text, error_text, ◌>>?◌}

-- crypto/x509, encoding/pem and k8s.io/client-go/util/keyutil. `K` is the type of private keys, `C` that
-- of parsed certificates.
pub record Crypto (K C : Type 0) : Type 0 where
  -- `pem.Decode`: the bytes of the first block
  pub decode : List ℕ → Option (List ℕ)
  pub parse_private_key_pem : List ℕ → Result K
  pub parse_certificate : List ℕ → Result C

-- `tls.Config`, as far as it is set.
pub record TlsConfig (K C : Type 0) : Type 0 where
  pub certificates : List (List (List ℕ) × K)
  pub root_cas : List C
  pub insecure_skip_verify : Bool

-- A block that has to be there.
unfoldable pub required : String → Option (List ℕ) → Result (List ℕ)
required message none = err (text message)
required message (some bytes) = ok bytes

-- An error that is put into a new one by its text.
unfoldable pub explained {ℓ} : {A : Type ℓ} → String → Result A → Result A
explained message (ok a) = ok a
explained message (err e) = err (text (message <> error_text e))
explained message panic = panic

module _ {K C : Type 0} (crypto : Crypto K C) where
  -- `TLSConfig`
  unfoldable pub tls_config : List ℕ → List ℕ → List ℕ → Result (TlsConfig K C)
  unfolding required explained
  tls_config certificate key ca =
      required "unable to parse certificate: no PEM data found" (crypto.decode certificate)
      >>? λ cert.
          explained "unable to parse private key: " (crypto.parse_private_key_pem key) >>? λ k.
          required "unable to parse CA certificate: no PEM data found" (crypto.decode ca)
          >>? λ cablock.
              explained "unable to parse CA certificate: " (crypto.parse_certificate cablock)
              >>? λ cacert. ok (record {
                certificates = (cert ∷ [], k) ∷ [];
                root_cas = cacert ∷ [];
                insecure_skip_verify = false;
              })
