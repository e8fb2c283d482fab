-- ===== src/Domain/Events.antt =====
-- src/processor/domain/events.py: the event schema. The checks of its fields are in `Validation`.
-- What pydantic and `uuid` do is the parameter `Runtime`: the match of a `pattern=` and the UUID v5
-- of a name.
use fsamp_processor.Prelude.{ℕ, String, Bool, true, false, Option, List}

pub data EventType : Type 0 where
  file_uploaded file_scanned analysis_completed processing_failed : EventType

pub data EventSource : Type 0 where
  gateway processor : EventSource

-- `.value` of an event type
unfoldable pub type_value : EventType → String
type_value file_uploaded = "FILE_UPLOADED"
type_value file_scanned = "FILE_SCANNED"
type_value analysis_completed = "ANALYSIS_COMPLETED"
type_value processing_failed = "PROCESSING_FAILED"

abbrev pub is_type : EventType → EventType → Bool
is_type file_uploaded file_uploaded = true
is_type file_scanned file_scanned = true
is_type analysis_completed analysis_completed = true
is_type processing_failed processing_failed = true
is_type _ _ = false

abbrev pub is_source : EventSource → EventSource → Bool
is_source gateway gateway = true
is_source processor processor = true
is_source _ _ = false

-- A reading of the UTC clock, with its `isoformat()`.
pub record Instant : Type 0 where
  pub micros : ℕ
  pub iso : String

pub record Uuid : Type 0 where
  pub text : String
  pub version : ℕ

-- The `pattern=` constraints of the schema.
pub data Pattern : Type 0 where
  filename mime checksum bucket region_name kms_arn : Pattern

pub record Runtime : Type 0 where
  pub matches : Pattern → String → Bool
  -- `str(uuid5(NAMESPACE_URL, name))`
  pub uuid5 : String → String
  -- `hashlib.sha256(text).digest()[0]`
  pub digest_head : String → ℕ

pub record FileMetadata : Type 0 where
  pub original_filename : String
  pub file_size_bytes : ℕ
  pub mime_type : Option String
  pub checksum_sha256 : String

pub record StorageLocation : Type 0 where
  pub bucket_name : String
  pub object_key : String
  pub region : Option String

pub record SecurityContext : Type 0 where
  pub is_encrypted : Bool
  pub encryption_algorithm : String
  pub kms_key_id : String

pub record ProcessingResultDetails : Type 0 where
  pub is_safe : Bool
  pub findings : List String
  pub processed_at : Instant
  pub file_hash_sha256 : Option String
  pub scan_engine : Option String

pub record FailureDetails : Type 0 where
  pub code : String
  pub message : String
  pub failed_at : Instant
  pub retryable : Bool

pub record FileEvent : Type 0 where
  pub schema_version : String
  pub file_id : Uuid
  pub event_id : Uuid
  pub correlation_id : Uuid
  pub timestamp : Instant
  pub source : EventSource
  pub event_type : EventType
  pub file_metadata : FileMetadata
  pub storage_location : StorageLocation
  pub security_context : SecurityContext
  pub processing_result : Option ProcessingResultDetails
  pub failure : Option FailureDetails
