-- ===== src/Canary/Renewal.antt =====
-- What `DiffAndUpdate` keeps of the certificates that `New` has read.
use kafkarator.Base.{
  ℕ, ◌≡◌, refl, sym, String, List, ◌==◌, nat_eq, list_eq, ==_iff, Bool-cases, inl, inr,
}
use kafkarator.Go.{Result, ok, err, panic, ◌>>?◌}
use kafkarator.Utils.Tls.{Files}
use kafkarator.Canary.Certificates.{Certificates, bundle, new, update_with, diff_and_update}

module _ {W : Type 0} (files : Files W) (cert_path key_path ca_path : String) where
  abbrev Read : Type 0
  Read = List ℕ × List ℕ × List ℕ

  read-new :
      (x : Result Read) (b : Certificates)
      → (x >>? λ r. ok (bundle files cert_path key_path ca_path r)) ≡ ok b
      → (r : Read) × (x ≡ ok r) × (b ≡ bundle files cert_path key_path ca_path r)
  read-new (ok r) b h = (r, refl, cc)
  read-new (err _) b h = cc
  read-new panic b h = cc

  updated :
      (r s : Read)
      → update_with files (bundle files cert_path key_path ca_path r) (ok s)
        ≡ record (bundle files cert_path key_path ca_path r) { cert = s.0 }
  unfolding update_with
  updated r s = elim (Bool-cases (r.0 == s.0)) [
    | inl same ↦ rw (same, sym ((==_iff r.0 s.0).0 same)) refl
    | inr differ ↦ rw differ refl
  ]

  -- If `New` reads the files in one world, and would read them in a later one, `DiffAndUpdate` in the
  -- later world takes over the certificate that is there now; the key, the CA certificate and the
  -- paths stay those that `New` has read.
  pub diff_and_update-new :
      (w v : W) (b later : Certificates)
      → new files w cert_path key_path ca_path ≡ ok b
      → new files v cert_path key_path ca_path ≡ ok later
      → diff_and_update files v b ≡ record b { cert = later.cert }
  unfolding new diff_and_update
  diff_and_update-new w v b later h k =
      let (r, read, made) = read-new _ b h in
      let (s, again, next) = read-new _ later k in rw (made, next, again) (updated r s)
