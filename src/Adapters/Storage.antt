-- ===== src/Adapters/Storage.antt =====
-- src/processor/adapters/outbound/s3_storage.py.
pub mod Stream
pub mod Download
pub mod Encryption
use fsamp_processor.Prelude.{
  ℕ, zero, suc, String, ◌<>◌, ◌==◌, Bool, true, false, Option, none, some, List, [], ◌∷◌, ◌++◌,
  Dict, Result, ok, raised, Exec, ◌>>=◌, ◌>>◌, pure, raise, try_except, if◌then◌else◌, ltb, nat_eq,
  size, truthy, or_present, strip_char,
}
use mathlib.Core.Option as Option
use fsamp_processor.Prelude.Decimal.{str_nat}
use fsamp_processor.Domain.Errors.{
  Exn, client, ClientError, storage, domain, make_error, storage_error, non_retryable_error,
}
use fsamp_processor.Domain.Models.{FileContent}
use fsamp_processor.Adapters.Retry.{aws_retry}

-- What `get_object` answers beside the body; a missing length is 0 and a missing ETag empty.
pub record Response : Type 0 where
  pub declared_length : ℕ
  pub content_type : Option String
  pub etag : String
  pub encryption : Option String
  pub kms_key : Option String

-- Where an object is written: its target, the headers that were given, and the encryption.
pub record Put : Type 0 where
  pub bucket : String
  pub key : String
  pub body : List ℕ
  pub content_type : Option String
  pub metadata : Dict String
  pub encryption : String
  pub kms_key : String

pub record Copy : Type 0 where
  pub bucket : String
  pub key : String
  pub source_bucket : String
  pub source_key : String
  pub encryption : String
  pub kms_key : String

-- The S3 client; `Body`  stands for an open response stream.
pub record S3 (World : Type 0) : Type 1 where
  pub Body : Type 0
  pub get_object : String → String → Exec Exn World (Response × Body)
  pub read : Body → ℕ → Exec Exn World (List ℕ)
  pub close : Body → Exec Exn World (Unit {0})
  -- these two answer the ETag
  pub put_object : Put → Exec Exn World String
  pub copy_object : Copy → Exec Exn World String
  pub head_object : String → String → Exec Exn World (Unit {0})
  pub delete_object : String → String → Exec Exn World (Unit {0})

abbrev pub uri : String → String → String
uri bucket key = "s3://" <> bucket <> "/" <> key

-- `"aws:kms"`
abbrev pub kms_encryption : String
kms_encryption = "aws:kms"

abbrev or_length : ℕ → ℕ → ℕ
or_length zero n = n
or_length (suc m) n = suc m

unfoldable pub content_of : Response → List ℕ → FileContent
unfolding strip_char
content_of r bytes = record {
  bytes = bytes;
  content_type = r.content_type;
  content_length = or_length r.declared_length (size bytes);
  etag = some (strip_char "\"" r.etag);
  encryption_algorithm = r.encryption;
  kms_key_id = r.kms_key;
}

-- `max_bytes is not None and n > max_bytes`
abbrev pub exceeds : Option ℕ → ℕ → Bool
exceeds none n = false
exceeds (some m) n = ltb m n

unfoldable pub download_failure : String → String → Exn → Exn
download_failure bucket key (client e) =
    if e.code == "NoSuchKey"
    then storage_error ("File not found: " <> uri bucket key) (client e)
    else if e.code == "AccessDenied"
    then storage_error ("Access denied: " <> uri bucket key) (client e)
    else storage_error ("Failed to download file: " <> e.text) (client e)
download_failure bucket key x = x

abbrev max_text : Option ℕ → String
max_text none = "None"
max_text (some n) = str_nat n

-- A ClientError raised as a StorageError.
unfoldable pub storage_failure : String → Exn → Exn
storage_failure prefix (client e) = storage_error (prefix <> e.text) (client e)
storage_failure prefix x = x

-- `try: m finally: c()`
abbrev pub after_close {ℓ} :
    {W : Type 0} {A : Type ℓ} → Result Exn A → Result Exn (Unit {0}) × W → Result Exn A × W
after_close r (ok u, w) = (r, w)
after_close r (raised x, w) = (raised x, w)

abbrev pub try_finally {ℓ} :
    {W : Type 0} {A : Type ℓ} → Exec Exn W A → Exec Exn W (Unit {0}) → Exec Exn W A
try_finally m c w = after_close (m w).0 (c (m w).1)

-- What the loop does with a chunk: it ends on an empty one, and goes on by `rest` otherwise.
abbrev pub after_chunk {ℓ} :
    {W : Type 0} {A : Type ℓ}
    → Option ℕ
    → List ℕ
    → List ℕ
    → (List ℕ → A)
    → (List ℕ → Exec Exn W A)
    → Exec Exn W A
after_chunk max_bytes chunks [] end rest = pure (end chunks)
after_chunk max_bytes chunks (b ∷ chunk) end rest =
    if exceeds max_bytes (size (chunks ++ b ∷ chunk))
    then raise (
        non_retryable_error "S3 response exceeded the configured maximum while streaming"
          "ACTUAL_FILE_TOO_LARGE")
    else rest (chunks ++ b ∷ chunk)

module _ {World : Type 0} (S : S3 World) where
  -- One pass of the loop for each chunk; without fuel the answer is `none`.
  unfoldable pub read_chunks : ℕ → S.Body → Option ℕ → List ℕ → Exec Exn World (Option (List ℕ))
  read_chunks zero body max_bytes chunks = pure none
  read_chunks (suc fuel) body max_bytes chunks = do
    chunk ← S.read body 1048576
    after_chunk max_bytes chunks chunk some (λ all. read_chunks fuel body max_bytes all)

  -- The body of the inner `try`.
  unfoldable pub read_body : ℕ → Option ℕ → Response → S.Body → Exec Exn World (Option (List ℕ))
  unfolding read_chunks
  read_body fuel max_bytes r body =
      if exceeds max_bytes r.declared_length
      then raise (
          non_retryable_error
            ("S3 object is "
              <> str_nat r.declared_length
              <> " bytes, exceeding the configured maximum of "
              <> max_text max_bytes
              <> " bytes")
            "ACTUAL_FILE_TOO_LARGE")
      else read_chunks fuel body max_bytes []

  unfoldable pub fetch : ℕ → Option ℕ → Response × S.Body → Exec Exn World (Option FileContent)
  unfolding read_body content_of
  fetch fuel max_bytes answer = do
    bytes ← try_finally (read_body fuel max_bytes answer.0 answer.1) (S.close answer.1)
    pure (Option.map (content_of answer.0) bytes)

  unfoldable pub download_once :
      ℕ → String → String → Option ℕ → Exec Exn World (Option FileContent)
  unfolding fetch download_failure
  download_once fuel bucket key max_bytes =
      try_except (do answer ← S.get_object bucket key; fetch fuel max_bytes answer)
        (λ x. raise (download_failure bucket key x))

  unfoldable pub download : ℕ → String → String → Option ℕ → Exec Exn World (Option FileContent)
  unfolding download_once
  download fuel bucket key max_bytes = aws_retry 3 (download_once fuel bucket key max_bytes)

  -- The KMS key of the adapter, which must not be empty.
  unfoldable pub with_key :
      Option String → String → (String → Exec Exn World String) → Exec Exn World String
  with_key none message call = raise (domain (make_error storage message none false))
  with_key (some key) message call =
      if truthy key then call key else raise (domain (make_error storage message none false))

  unfoldable pub upload :
      Option String → String → String → List ℕ → Option String → Dict String → Exec Exn World String
  unfolding with_key storage_failure strip_char
  upload kms_key bucket key body content_type metadata = aws_retry 3 (
      try_except
        (with_key kms_key
          "KMS key is required for S3 uploads (FedRAMP SC-13). Set KMS_KEY_ID environment variable."
          (λ k. do
            etag ← S.put_object (record {
              bucket = bucket;
              key = key;
              body = body;
              content_type = or_present content_type none;
              metadata = metadata;
              encryption = kms_encryption;
              kms_key = k;
            })
            pure (strip_char "\"" etag)))
        (λ x. raise (storage_failure "Failed to upload file: " x)))

  -- Only the code "404" says that there is no such object.
  unfoldable pub not_found : Exn → Exec Exn World Bool
  unfolding storage_failure
  not_found (client e) =
      if e.code == "404"
      then pure false
      else raise (storage_failure "Failed to check file existence: " (client e))
  not_found x = raise x

  unfoldable pub exists : String → String → Exec Exn World Bool
  unfolding not_found
  exists bucket key = try_except (do _ ← S.head_object bucket key; pure true) not_found

  unfoldable pub delete : String → String → Exec Exn World (Unit {0})
  unfolding storage_failure
  delete bucket key = aws_retry 3 (
      try_except (S.delete_object bucket key)
        (λ x. raise (storage_failure "Failed to delete file: " x)))

  unfoldable pub copy : Option String → String → String → String → String → Exec Exn World String
  unfolding with_key storage_failure strip_char
  copy kms_key source_bucket source_key bucket key = aws_retry 3 (
      try_except
        (with_key kms_key "KMS key is required for encrypted S3 copies" (λ k. do
          etag ← S.copy_object (record {
            bucket = bucket;
            key = key;
            source_bucket = source_bucket;
            source_key = source_key;
            encryption = kms_encryption;
            kms_key = k;
          })
          pure (strip_char "\"" etag)))
        (λ x. raise (storage_failure "Failed to copy file: " x)))
