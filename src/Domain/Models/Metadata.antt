-- ===== src/Domain/Models/Metadata.antt =====
-- `MetadataRecord.to_dynamodb_item` and `from_dynamodb_item` of src/processor/domain/models.py.
pub mod RoundTrip
use fsamp_processor.Prelude.{
  ℕ, zero, suc, String, ◌<>◌, ◌==◌, Bool, true, false, Option, none, some, List, [], ◌∷◌, ◌++◌,
  lookup, Result, ok, raised, if◌then◌else◌, truthy, or_present, starts_with, text_length,
  text_drop,
}
use fsamp_processor.Prelude.Fallible.{◌>>=◌}
use fsamp_processor.Domain.Errors.{Exn, value_error}
use fsamp_processor.Domain.Events.{Instant}
use fsamp_processor.Domain.Attributes.{
  Attr, text, number, flag, texts, Item, text_of, number_of, flag_of, texts_of, text_at, demand,
  optional_text,
}
use fsamp_processor.Domain.Models.{MetadataRecord, ProcessingStatus, status_value}

-- `ProcessingStatus(value)`
unfoldable pub parse_status : String → Result Exn ProcessingStatus
parse_status v =
    if v == "PENDING"
    then ok ProcessingStatus.pending
    else if v == "UPLOADED"
    then ok ProcessingStatus.uploaded
    else if v == "SCANNING"
    then ok ProcessingStatus.scanning
    else if v == "PROCESSING"
    then ok ProcessingStatus.processing
    else if v == "COMPLETED"
    then ok ProcessingStatus.completed
    else if v == "FAILED"
    then ok ProcessingStatus.failed
    else raised (value_error "ProcessingStatus")

unfoldable pub optional_flag : String → Option Bool → Item
optional_flag name none = []
optional_flag name (some b) = (name, flag b) ∷ []

unfoldable pub optional_texts : String → List String → Item
optional_texts name [] = []
optional_texts name (x ∷ l) = (name, texts (x ∷ l)) ∷ []

-- `if self.ttl:`
unfoldable pub optional_number : String → Option ℕ → Item
optional_number name none = []
optional_number name (some zero) = []
optional_number name (some (suc n)) = (name, number (suc n)) ∷ []

-- The checksum is stored with the name of its algorithm.
unfoldable pub checksum_item : Option String → Item
checksum_item none = []
checksum_item (some t) =
    if truthy t then ("checksumSHA256", text t) ∷ ("checksumAlgorithm", text "SHA256") ∷ [] else []

unfoldable pub required_fields : MetadataRecord → Item
required_fields r =
    ("PK", text ("FILE#" <> r.file_id))
    ∷ ("SK", text "METADATA")
    ∷ ("entityType", text "FILE_METADATA")
    ∷ ("fileId", text r.file_id)
    ∷ ("correlationId", text r.correlation_id)
    ∷ ("originalFilename", text r.original_filename)
    ∷ ("fileSizeBytes", number r.file_size_bytes)
    ∷ ("bucketName", text r.bucket_name)
    ∷ ("objectKey", text r.object_key)
    ∷ ("status", text (status_value r.status))
    ∷ ("isEncrypted", flag r.is_encrypted)
    ∷ ("encryptionAlgorithm", text r.encryption_algorithm)
    ∷ ("retryCount", number r.retry_count)
    ∷ []

unfoldable pub to_dynamodb_item : MetadataRecord → Item
to_dynamodb_item r =
    required_fields r
    ++ (optional_text "mimeType" r.mime_type
        ++ (checksum_item r.checksum_sha256
            ++ (optional_text "fileHash" r.file_hash
                ++ (optional_text "kmsKeyId" r.kms_key_id
                    ++ (optional_flag "isSafe" r.is_safe
                        ++ (optional_texts "scanFindings" r.scan_findings
                            ++ (optional_text "createdAt" r.created_at
                                ++ (optional_text "createdBy" r.created_by
                                    ++ (optional_text "updatedAt" r.updated_at
                                        ++ (optional_text "processedAt" r.processed_at
                                            ++ (optional_text "errorMessage" r.error_message
                                                ++ (optional_text "errorCode" r.error_code
                                                    ++ (optional_number "ttl" r.ttl
                                                        ++ optional_text "lastProcessedEventId"
                                                            r.last_processed_event_id)))))))))))))

-- `text.removeprefix(prefix)`
unfoldable pub remove_prefix : String → String → String
remove_prefix t prefix = if starts_with t prefix then text_drop (text_length prefix) t else t

abbrev pub text_or : Option String → String → String
text_or a d = elim (or_present a (some d)) [ none ↦ d | some t ↦ t ]

abbrev pub default_to {ℓ} : {A : Type ℓ} → Option A → A → A
default_to none d = d
default_to (some a) d = a

-- `int(item["ttl"]["N"]) if "ttl" in item else None`
abbrev pub read_ttl : Option Attr → Result Exn (Option ℕ)
read_ttl none = ok none
read_ttl (some a) = do n ← demand "N" (number_of (some a)); ok (some n)

-- `if not original_filename: raise ValueError`
abbrev pub filename_required : Option String → Result Exn String
filename_required none = raised (value_error "DynamoDB metadata record is missing originalFilename")
filename_required (some t) =
    if truthy t
    then ok t
    else raised (value_error "DynamoDB metadata record is missing originalFilename")

unfoldable pub from_dynamodb_item : Instant → Item → Result Exn MetadataRecord
unfolding parse_status
from_dynamodb_item now item = do
  pk ← demand "PK" (text_at "PK" item)
  filename ←
      filename_required (or_present (text_at "originalFilename" item) (text_at "fileName" item))
  correlation_id ← demand "correlationId" (text_at "correlationId" item)
  size ← demand "fileSizeBytes" (number_of (lookup "fileSizeBytes" item))
  bucket_name ← demand "bucketName" (text_at "bucketName" item)
  object_key ← demand "objectKey" (text_at "objectKey" item)
  status_text ← demand "status" (text_at "status" item)
  status ← parse_status status_text
  ttl ← read_ttl (lookup "ttl" item)
  ok (record {
    file_id = text_or (text_at "fileId" item) (remove_prefix pk "FILE#");
    timestamp = text_or (or_present (text_at "updatedAt" item) (text_at "createdAt" item)) now.iso;
    correlation_id = correlation_id;
    original_filename = filename;
    file_size_bytes = size;
    mime_type = text_at "mimeType" item;
    bucket_name = bucket_name;
    object_key = object_key;
    status = status;
    checksum_sha256 = or_present (text_at "checksumSHA256" item) (text_at "checksum" item);
    file_hash = text_at "fileHash" item;
    is_encrypted = default_to (flag_of (lookup "isEncrypted" item)) true;
    encryption_algorithm = default_to (text_at "encryptionAlgorithm" item) "AES/GCM/NoPadding";
    kms_key_id = text_at "kmsKeyId" item;
    is_safe = flag_of (lookup "isSafe" item);
    scan_findings = texts_of (lookup "scanFindings" item);
    created_at = text_at "createdAt" item;
    created_by = text_at "createdBy" item;
    updated_at = text_at "updatedAt" item;
    processed_at = text_at "processedAt" item;
    error_message = text_at "errorMessage" item;
    error_code = text_at "errorCode" item;
    retry_count = default_to (number_of (lookup "retryCount" item)) 0;
    last_processed_event_id = text_at "lastProcessedEventId" item;
    ttl = ttl;
  })
