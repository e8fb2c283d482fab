-- ===== src/Adapters/Storage/Encryption.antt =====
-- The encryption of uploads and copies.
use fsamp_processor.Prelude.{
  ℕ, String, ◌≡◌, refl, inl, inr, true, Option, none, some, List, Dict, Result, ok, raised, Exec,
  ◌>>=◌, pure, raise, except, continue, truthy, strip_char, Bool-cases,
}
use fsamp_processor.Domain.Errors.{Exn}
use fsamp_processor.Adapters.Retry.{aws_retry-keeps}
use fsamp_processor.Adapters.Storage.{S3, Put, Copy, storage_failure, with_key, upload, copy}

-- Encrypted under the key, which is not empty.
abbrev pub IsKms : String → String → Type 0
IsKms encryption kms_key = (encryption ≡ "aws:kms") × (truthy kms_key ≡ true)

module _ {World : Type 0} (S : S3 World) (P : World → Type 0) where
  -- What the writes of objects encrypted under KMS keep.
  pub record KeptByKms : Type 0 where
    pub put : (r : Put) (w : World) → IsKms r.encryption r.kms_key → P w → P (S.put_object r w).1
    pub copied :
        (r : Copy) (w : World) → IsKms r.encryption r.kms_key → P w → P (S.copy_object r w).1

  except-keeps {ℓ} :
      {A : Type ℓ} (out : Result Exn A × World) (f : Exn → Exn)
      → P out.1
      → P (except out (λ x. raise (f x))).1
  except-keeps (ok a, w) f p = p
  except-keeps (raised x, w) f p = p

  continue-keeps {ℓ κ} :
      {A : Type ℓ} {B : Type κ} (out : Result Exn A × World) (f : A → B)
      → P out.1
      → P (continue out (λ a. pure (f a))).1
  continue-keeps (ok a, w) f p = p
  continue-keeps (raised x, w) f p = p

  with_key-keeps :
      (kms_key : Option String) (message : String) (call : String → Exec Exn World String)
      (w : World)
      → ((k : String) → truthy k ≡ true → P (call k w).1)
      → P w
      → P (with_key S kms_key message call w).1
  unfolding with_key
  with_key-keeps none message call w h p = p
  with_key-keeps (some k) message call w h p = elim (Bool-cases (truthy k)) [
    | inl q ↦ rw (q, with_key) (h k q)
    | inr q ↦ rw (q, with_key) p
  ]

  -- Whatever the writes of objects encrypted under a KMS key keep, upload and copy keep, retries
  -- and failures included: they write in no other way.
  pub writes-IsKms :
      KeptByKms
      → (kms_key : Option String) (w : World) → P w
      → ((bucket key : String) (body : List ℕ) (content_type : Option String)
            (metadata : Dict String)
          → P (upload S kms_key bucket key body content_type metadata w).1)
        × ((source_bucket source_key bucket key : String)
            → P (copy S kms_key source_bucket source_key bucket key w).1)
  unfolding upload copy ◌>>=◌
  writes-IsKms h kms_key w p = (
    (λ bucket key body content_type metadata.
        aws_retry-keeps P 3 _ w
          (λ v q. except-keeps _ (storage_failure "Failed to upload file: ") (
            with_key-keeps kms_key _ _ v
              (λ k t. continue-keeps _ (strip_char "\"") (h.put _ v (refl, t) q)) q))
          p),
    (λ source_bucket source_key bucket key.
        aws_retry-keeps P 3 _ w
          (λ v q. except-keeps _ (storage_failure "Failed to copy file: ") (
            with_key-keeps kms_key _ _ v
              (λ k t. continue-keeps _ (strip_char "\"") (h.copied _ v (refl, t) q)) q))
          p),
  )
