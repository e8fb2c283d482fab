-- ===== src/Domain/Models.antt =====
-- src/processor/domain/models.py: the state records. The children hold their item formats.
pub mod Metadata
pub mod Outbox
use fsamp_processor.Prelude.{
  ℕ, ◌+◌, ◌-◌, ◌/◌, ◌%◌, String, ◌<>◌, ◌≡◌, Bool, true, false, Option, none, some, List, [], ◌++◌,
  Dict,
}
use fsamp_processor.Prelude.Decimal.{hex_byte}
use fsamp_processor.Domain.Events.{Instant, Runtime}
use fsamp_processor.Domain.Attributes.{Value, Json}

abbrev pub outbox_shard_count : ℕ
outbox_shard_count = 16

abbrev pub default_retention_seconds : ℕ
default_retention_seconds = 2592000

-- `outbox_shard`; the digest byte comes from `hashlib`.
unfoldable pub outbox_shard : Runtime → String → String
outbox_shard R aggregate_id = hex_byte (R.digest_head aggregate_id % 256 % outbox_shard_count)

-- `IN_PROGRESS` and `RETRYING` are aliases of `processing`.
pub data ProcessingStatus : Type 0 where
  pending uploaded scanning processing completed failed : ProcessingStatus

unfoldable pub status_value : ProcessingStatus → String
status_value pending = "PENDING"
status_value uploaded = "UPLOADED"
status_value scanning = "SCANNING"
status_value processing = "PROCESSING"
status_value completed = "COMPLETED"
status_value failed = "FAILED"

pub record ProcessingClaim : Type 0 where
  pub event_id : String
  pub token : String
  pub version : ℕ
  pub expires_at_epoch : ℕ

pub record ProcessingResult : Type 0 where
  pub event_id : String
  pub correlation_id : String
  pub status : ProcessingStatus
  pub started_at : Instant
  pub completed_at : Option Instant
  pub error_message : Option String
  pub error_code : Option String
  pub retry_count : ℕ
  pub metadata : Dict Value

-- `duration_ms`, from a clock that does not run backwards
unfoldable pub duration_ms : ProcessingResult → Option ℕ
duration_ms r = elim r.completed_at [
  | none ↦ none
  | some t ↦ some ((t.micros - r.started_at.micros) / 1000)
]

-- `with_completion`. Later entries of a dict display win, and the code never repeats a key.
unfoldable pub with_completion :
    Instant
    → ProcessingResult
    → ProcessingStatus
    → Option String
    → Option String
    → Dict Value
    → ProcessingResult
with_completion now r status message code metadata = record r {
  status = status;
  completed_at = some now;
  error_message = message;
  error_code = code;
  metadata = metadata ++ r.metadata;
}

pub record FileContent : Type 0 where
  pub bytes : List ℕ
  pub content_type : Option String
  pub content_length : ℕ
  pub etag : Option String
  pub encryption_algorithm : Option String
  pub kms_key_id : Option String

pub record AnalysisResult : Type 0 where
  pub file_hash_sha256 : String
  pub is_safe : Bool
  pub scan_engine : String
  pub findings : List String
  pub analyzed_at : Instant
  pub metadata : Dict Value

pub record MetadataRecord : Type 0 where
  pub file_id : String
  pub timestamp : String
  pub correlation_id : String
  pub original_filename : String
  pub file_size_bytes : ℕ
  pub mime_type : Option String
  pub bucket_name : String
  pub object_key : String
  pub status : ProcessingStatus
  pub checksum_sha256 : Option String
  pub file_hash : Option String
  pub is_encrypted : Bool
  pub encryption_algorithm : String
  pub kms_key_id : Option String
  pub is_safe : Option Bool
  pub scan_findings : List String
  pub created_at : Option String
  pub created_by : Option String
  pub updated_at : Option String
  pub processed_at : Option String
  pub error_message : Option String
  pub error_code : Option String
  pub retry_count : ℕ
  pub last_processed_event_id : Option String
  pub ttl : Option ℕ

pub data OutboxStatus : Type 0 where
  pending publishing published failed : OutboxStatus

pub data OutboxEventType : Type 0 where
  file_uploaded file_scanned analysis_completed processing_failed : OutboxEventType

pub record OutboxEvent : Type 0 where
  pub event_id : String
  pub event_type : OutboxEventType
  pub aggregate_id : String
  pub aggregate_type : String
  pub payload : Json
  pub status : OutboxStatus
  pub created_at : String
  pub published_at : Option String
  pub retry_count : ℕ
  pub last_error : Option String
  pub message_group_id : Option String
  pub ttl : Option ℕ
  pub outbox_partition : String
  pub outbox_shard : String
