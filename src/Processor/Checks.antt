-- ===== src/Processor/Checks.antt =====
-- The checks of an upload, the header policy and the quarantine of `FileProcessorService`.
use fsamp_processor.Prelude.{
  ℕ, suc, String, ◌<>◌, ◌==◌, Bool, true, false, not, ◌&&◌, Option, none, some, List, [], ◌∷◌,
  Result, ok, raised, Exec, ◌>>=◌, pure, if◌then◌else◌, present, nat_eq, ltb,
}
use fsamp_processor.Prelude.Decimal.{str_nat}
use fsamp_processor.Domain.Errors.{Exn, non_retryable_error}
use fsamp_processor.Domain.Events.{Instant, Runtime, FileEvent, StorageLocation}
use fsamp_processor.Domain.Validation.{make_location}
use fsamp_processor.Domain.Models.{MetadataRecord, FileContent, AnalysisResult, ProcessingStatus}
use fsamp_processor.Processor.Ports.{Ports, Config}

abbrev pub same_text? : Option String → Option String → Bool
same_text? none none = true
same_text? (some a) (some b) = a == b
same_text? _ _ = false

-- `len(data)`
unfoldable pub byte_count : List ℕ → ℕ
byte_count [] = 0
byte_count (b ∷ l) = suc (byte_count l)

-- `data.startswith(prefix)`
unfoldable pub starts_with_bytes : List ℕ → List ℕ → Bool
starts_with_bytes l [] = true
starts_with_bytes [] (p ∷ ps) = false
starts_with_bytes (b ∷ l) (p ∷ ps) = nat_eq b p && starts_with_bytes l ps

abbrev pub check : Bool → String → String → Result Exn (Unit {0}) → Result Exn (Unit {0})
check fails message code rest = if fails then raised (non_retryable_error message code) else rest

unfoldable pub validate_event_location : Config → FileEvent → Result Exn (Unit {0})
validate_event_location S e =
    check
      (present S.allowed_bucket
        && not (same_text? (some e.storage_location.bucket_name) S.allowed_bucket))
      "Event references a bucket outside the configured trust boundary" "UNTRUSTED_BUCKET"
      (check
        (present S.allowed_region && not (same_text? e.storage_location.region S.allowed_region))
        "Event storage region does not match the processor region" "UNTRUSTED_REGION" (ok tt))

unfoldable pub validate_declared_size : Config → FileEvent → Result Exn (Unit {0})
validate_declared_size S e =
    check (ltb S.max_file_size e.file_metadata.file_size_bytes)
      ("Declared file size "
        <> str_nat e.file_metadata.file_size_bytes
        <> " exceeds the configured maximum "
        <> str_nat S.max_file_size)
      "DECLARED_FILE_TOO_LARGE" (ok tt)

unfoldable pub validate_actual_object : FileEvent → FileContent → Result Exn (Unit {0})
validate_actual_object e content =
    check (not (nat_eq content.content_length (byte_count content.bytes)))
      "S3 ContentLength does not match the streamed byte count" "S3_LENGTH_MISMATCH"
      (check (not (nat_eq (byte_count content.bytes) e.file_metadata.file_size_bytes))
        "Actual S3 object size does not match the canonical event" "FILE_SIZE_MISMATCH"
        (check (not (same_text? content.encryption_algorithm (some "aws:kms")))
          "S3 object is not encrypted with SSE-KMS" "INVALID_S3_ENCRYPTION"
          (check (not (same_text? content.kms_key_id (some e.security_context.kms_key_id)))
            "Actual S3 KMS key ARN does not match the canonical event" "KMS_KEY_MISMATCH" (ok tt))))

unfoldable pub validate_checksum : FileEvent → String → Result Exn (Unit {0})
validate_checksum e file_hash =
    check (not (file_hash == e.file_metadata.checksum_sha256))
      "Downloaded object SHA-256 does not match the canonical event checksum" "CHECKSUM_MISMATCH"
      (ok tt)

-- The findings of the header policy on the object's bytes.
unfoldable pub header_findings : List ℕ → List String
unfolding starts_with_bytes
header_findings [] = "Empty content is not accepted" ∷ []
header_findings (b ∷ l) =
    if starts_with_bytes (b ∷ l) (77 ∷ 90 ∷ [])
    then "Executable PE header is denied by policy" ∷ []
    else if starts_with_bytes (b ∷ l) (127 ∷ 69 ∷ 76 ∷ 70 ∷ [])
    then "Executable ELF header is denied by policy" ∷ []
    else []

abbrev no_findings : List String → Bool
no_findings [] = true
no_findings (x ∷ l) = false

-- `_analyze_file`; its result reads the clock when it is built.
unfoldable pub analyze_file : FileContent → String → Instant → AnalysisResult
unfolding header_findings
analyze_file content file_hash analyzed_at = record {
  file_hash_sha256 = file_hash;
  is_safe = no_findings (header_findings content.bytes);
  scan_engine = "fsamp-header-policy/1";
  findings = header_findings content.bytes;
  analyzed_at = analyzed_at;
  metadata = [];
}

-- `_create_metadata_record`
unfoldable pub create_metadata_record : FileEvent → String → MetadataRecord
create_metadata_record e timestamp = record {
  file_id = e.file_id.text;
  timestamp = timestamp;
  correlation_id = e.correlation_id.text;
  original_filename = e.file_metadata.original_filename;
  file_size_bytes = e.file_metadata.file_size_bytes;
  mime_type = e.file_metadata.mime_type;
  bucket_name = e.storage_location.bucket_name;
  object_key = e.storage_location.object_key;
  status = ProcessingStatus.pending;
  checksum_sha256 = some e.file_metadata.checksum_sha256;
  file_hash = none;
  is_encrypted = e.security_context.is_encrypted;
  encryption_algorithm = e.security_context.encryption_algorithm;
  kms_key_id = some e.security_context.kms_key_id;
  is_safe = none;
  scan_findings = [];
  created_at = some timestamp;
  created_by = none;
  updated_at = none;
  processed_at = none;
  error_message = none;
  error_code = none;
  retry_count = 0;
  last_processed_event_id = none;
  ttl = none;
}

abbrev pub lift {ℓ} : {W : Type 0} {A : Type ℓ} → Result Exn A → Exec Exn W A
lift r w = (r, w)

-- Where a denied file goes: the same bucket and region, under the prefix, file and hash.
unfoldable pub quarantine_location : Config → FileEvent → String → StorageLocation
quarantine_location S e file_hash = record {
  bucket_name = e.storage_location.bucket_name;
  object_key = S.quarantine_prefix <> "/" <> e.file_id.text <> "/" <> file_hash;
  region = e.storage_location.region;
}

module _ (R : Runtime) (P : Ports) (S : Config) where
  -- `_quarantine_file`: the object is copied, and the location of the copy returned.
  unfoldable pub quarantine_file : FileEvent → String → Exec Exn P.World StorageLocation
  unfolding quarantine_location
  quarantine_file e file_hash = do
    let location = quarantine_location S e file_hash
    _ ←
        P.copy e.storage_location.bucket_name e.storage_location.object_key
          e.storage_location.bucket_name location.object_key
    lift (make_location R location)

  -- Only an upload that is not safe moves.
  unfoldable pub output_location :
      FileEvent → String → AnalysisResult → Exec Exn P.World StorageLocation
  output_location e file_hash a =
      if a.is_safe then pure e.storage_location else quarantine_file e file_hash
