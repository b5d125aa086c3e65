-- ===== src/Canary/Certificates.antt =====
-- pkg/canary/certificates/certificates.go
use kafkarator.Base.{ℕ, String, List, if◌then◌else◌, ◌==◌, nat_eq, list_eq}
use kafkarator.Go.{Result, ok, err, panic, ◌>>?◌}
use kafkarator.Utils.Tls.{Files, tls_from_files}

pub record Certificates : Type 0 where
  pub cert_path : String
  pub key_path : String
  pub ca_path : String
  pub cert : List ℕ
  pub key : List ℕ
  pub ca : List ℕ

module _ {W : Type 0} (files : Files W) where
  abbrev pub bundle : String → String → String → List ℕ × List ℕ × List ℕ → Certificates
  bundle cert_path key_path ca_path (cert, key, ca) = record {
    cert_path = cert_path;
    key_path = key_path;
    ca_path = ca_path;
    cert = cert;
    key = key;
    ca = ca;
  }

  -- `New`
  unfoldable pub new : W → String → String → String → Result Certificates
  new w cert_path key_path ca_path = tls_from_files files w cert_path key_path ca_path >>? λ read.
      ok (bundle cert_path key_path ca_path read)

  -- What `DiffAndUpdate` does with the files that it has read. A panic does not occur.
  unfoldable pub update_with : Certificates → Result (List ℕ × List ℕ × List ℕ) → Certificates
  update_with c (ok (cert, _, _)) = if c.cert == cert then c else record c { cert = cert }
  update_with c (err _) = c
  update_with c panic = c

  -- `DiffAndUpdate`
  unfoldable pub diff_and_update : W → Certificates → Certificates
  unfolding update_with
  diff_and_update w c = update_with c (tls_from_files files w c.cert_path c.key_path c.ca_path)
