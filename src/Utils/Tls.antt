-- ===== src/Utils/Tls.antt =====
-- pkg/utils/tls.go: `TlsFromFiles`. The file system is a parameter.
use kafkarator.Base.{ℕ, String, ◌<>◌, List}
use kafkarator.Go.{Result, ok, err, panic, wrap, error_text, ◌>>?◌}

-- `os.ReadFile`, on the files as they are in the world `W`.
pub record Files (W : Type 0) : Type 0 where
  pub read_file : W → String → Result (List ℕ)

-- What is done about the error of one of the three reads.
unfoldable pub describe : String → String → Result (List ℕ) → Result (List ℕ)
describe kind path (ok bytes) = ok bytes
describe kind path (err e) =
    err (wrap ("unable to read " <> kind <> " file " <> path <> ": " <> error_text e) e)
describe kind path panic = panic

module _ {W : Type 0} (files : Files W) (w : W) where
  -- `TlsFromFiles`: the certificate, the key and the CA certificate.
  unfoldable pub tls_from_files : String → String → String → Result (List ℕ × List ℕ × List ℕ)
  unfolding describe
  tls_from_files cert_path key_path ca_path =
      describe "certificate" cert_path (files.read_file w cert_path) >>? λ cert.
      describe "key" key_path (files.read_file w key_path) >>? λ key.
      describe "CA certificate" ca_path (files.read_file w ca_path) >>? λ ca. ok (cert, key, ca)
