-- ===== src/Processor/Service.antt =====
-- `FileProcessorService.handle` of src/processor/application/file_processor.py and what it calls.
pub mod Verified
pub mod Commit
pub mod Outcome
pub mod Success
use fsamp_processor.Prelude.{
  ℕ, String, ◌<>◌, ◌==◌, Bool, true, false, not, ◌&&◌, ◌||◌, Option, none, some, List, [], ◌∷◌,
  Result, ok, raised, Exec, ◌>>=◌, ◌>>◌, pure, raise, except, try_except, if◌then◌else◌, present,
  or_present, Dict,
}
use fsamp_processor.Domain.Errors.{
  Exn, Kind, domain, caused, storage, claim_unavailable, make_error, non_retryable_error,
}
use fsamp_processor.Domain.Events.{
  Instant, Runtime, FileEvent, EventType, is_type, ProcessingResultDetails, StorageLocation,
}
use fsamp_processor.Domain.Validation.{make_result, with_new_event_type}
use fsamp_processor.Domain.Wire.{Wire}
use fsamp_processor.Domain.Attributes.{Value, text_value, number_value, bool_value, none_value}
use fsamp_processor.Domain.Models.{
  MetadataRecord, OutboxEvent, ProcessingStatus, ProcessingClaim, ProcessingResult, FileContent,
  AnalysisResult, with_completion,
}
use fsamp_processor.Domain.Models.Metadata.{text_or}
use fsamp_processor.Domain.Models.Outbox.{from_file_event}
use fsamp_processor.Processor.Ports.{Ports, Config}
use fsamp_processor.Processor.Checks.{
  same_text?, validate_event_location, validate_declared_size, validate_actual_object,
  validate_checksum, analyze_file, create_metadata_record, lift, output_location,
}
use fsamp_processor.Processor.Failure.{persist_and_publish, recover}

abbrev pub is_completed : ProcessingStatus → Bool
is_completed ProcessingStatus.completed = true
is_completed _ = false

abbrev optional_value : Option String → Value
optional_value none = none_value
optional_value (some t) = text_value t

abbrev optional_bool : Option Bool → Value
optional_bool none = none_value
optional_bool (some b) = bool_value b

unfoldable pub count_texts : List String → ℕ
count_texts [] = 0
count_texts (x ∷ l) = ℕ.suc (count_texts l)

-- The metadata of the result for an event that was completed before.
unfoldable pub duplicate_metadata : MetadataRecord → Dict Value
unfolding count_texts
duplicate_metadata r =
    ("duplicate", bool_value true)
    ∷ ("file_hash", optional_value r.file_hash)
    ∷ ("is_safe", optional_bool r.is_safe)
    ∷ ("findings_count", number_value (count_texts r.scan_findings))
    ∷ []

-- The record that an upload commits.
unfoldable pub completed_record :
    FileEvent → Instant → Instant → FileContent → AnalysisResult → StorageLocation → MetadataRecord
unfolding create_metadata_record
completed_record e started processed content a location =
    record (create_metadata_record e started.iso) {
      file_hash = some a.file_hash_sha256;
      is_safe = some a.is_safe;
      scan_findings = a.findings;
      status = ProcessingStatus.completed;
      processed_at = some processed.iso;
      updated_at = some processed.iso;
      last_processed_event_id = some e.event_id.text;
      file_size_bytes = content.content_length;
      mime_type = or_present content.content_type e.file_metadata.mime_type;
      is_encrypted = same_text? content.encryption_algorithm (some "aws:kms");
      encryption_algorithm = e.security_context.encryption_algorithm;
      kms_key_id = content.kms_key_id;
      bucket_name = location.bucket_name;
      object_key = location.object_key;
    }

-- The result details of the completion event.
unfoldable pub result_details : Instant → AnalysisResult → ProcessingResultDetails
result_details processed a = record {
  is_safe = a.is_safe;
  findings = a.findings;
  processed_at = processed;
  file_hash_sha256 = some a.file_hash_sha256;
  scan_engine = some a.scan_engine;
}

abbrev is_storage_error : Exn → Bool
is_storage_error (domain d) = elim d.kind [ storage ↦ true | _ ↦ false ]
is_storage_error (caused d c) = elim d.kind [ storage ↦ true | _ ↦ false ]
is_storage_error _ = false

module _ (R : Runtime) (W : Wire) (P : Ports) (S : Config) where
  abbrev pub clock : Exec Exn P.World Instant
  clock w = let (t, w1) = P.now w in (ok t, w1)

  abbrev pub finish_with : ProcessingResult → Dict Value → Exec Exn P.World ProcessingResult
  finish_with result metadata = do
    now ← clock
    pure (with_completion now result ProcessingStatus.completed none none metadata)

  -- `_idempotent_result`, once the record of the file has been read
  unfoldable pub duplicate_of :
      FileEvent
      → ProcessingResult
      → Option MetadataRecord
      → Exec Exn P.World (Option ProcessingResult)
  unfolding duplicate_metadata
  duplicate_of e result none = pure none
  duplicate_of e result (some r) =
      if not (same_text? r.last_processed_event_id (some e.event_id.text))
      then pure none
      else if is_completed r.status
      then (do done ← finish_with result (duplicate_metadata r); pure (some done))
      else raise (
          non_retryable_error (text_or r.error_message "Previously rejected input event")
            (text_or r.error_code "PREVIOUSLY_REJECTED"))

  unfoldable pub idempotent_result :
      FileEvent → ProcessingResult → Exec Exn P.World (Option ProcessingResult)
  unfolding duplicate_of
  idempotent_result e result = do
    existing ← P.get_by_id e.file_id.text
    duplicate_of e result existing

  -- The checks of an upload up to its analysis: the object's bytes and their hash.
  unfoldable pub fetch_verified : FileEvent → Exec Exn P.World (FileContent × String)
  fetch_verified e = do
    content ←
        P.download e.storage_location.bucket_name e.storage_location.object_key
          (some S.max_file_size)
    lift (validate_actual_object e content)
    file_hash ← P.compute_hash content.bytes "SHA-256"
    lift (validate_checksum e file_hash)
    pure (content, file_hash)

  -- The completion event and its outbox row.
  unfoldable pub completion_of :
      FileEvent
      → Instant
      → AnalysisResult
      → StorageLocation
      → Exec Exn P.World (FileEvent × OutboxEvent)
  unfolding result_details
  completion_of e processed a location = do
    details ← lift (make_result R (result_details processed a))
    now ← clock
    completion ← lift (
        with_new_event_type R now e EventType.analysis_completed (some details) none (some location)
          none)
    row ← lift (from_file_event R W completion "FileProcessing")
    pure (completion, row)

  -- The source of a quarantined file is deleted after the commit; a `StorageError` is only logged.
  unfoldable pub clean_up : FileEvent → AnalysisResult → Exec Exn P.World (Unit {0})
  clean_up e a =
      if a.is_safe
      then pure tt
      else try_except (P.delete e.storage_location.bucket_name e.storage_location.object_key)
          (λ error. if is_storage_error error then pure tt else raise error)

  unfoldable pub upload_metadata : AnalysisResult → OutboxEvent → Dict Value
  unfolding count_texts
  upload_metadata a row =
      ("file_hash", text_value a.file_hash_sha256)
      ∷ ("is_safe", bool_value a.is_safe)
      ∷ ("findings_count", number_value (count_texts a.findings))
      ∷ ("outbox_event_id", if S.use_outbox then text_value row.event_id else none_value)
      ∷ ("quarantined", bool_value (not a.is_safe))
      ∷ []

  unfoldable pub process_uploaded_file :
      FileEvent → ProcessingResult → ProcessingClaim → Exec Exn P.World ProcessingResult
  unfolding completed_record completion_of fetch_verified clean_up upload_metadata
  process_uploaded_file e result claim = do
    lift (validate_event_location S e)
    lift (validate_declared_size S e)
    started ← clock
    (content, file_hash) ← fetch_verified e
    analyzed ← clock
    let a = analyze_file content file_hash analyzed
    location ← output_location R P S e file_hash a
    processed ← clock
    (completion, row) ← completion_of e processed a location
    persist_and_publish R W P S (completed_record e started processed content a location) completion
        row claim
    clean_up e a
    finish_with result (upload_metadata a row)

  -- The record that a scan event commits.
  unfoldable pub scanned_record : FileEvent → Instant → MetadataRecord
  unfolding create_metadata_record
  scanned_record e now = record (create_metadata_record e now.iso) {
    status = ProcessingStatus.completed;
    processed_at = some now.iso;
    last_processed_event_id = some e.event_id.text;
  }

  unfoldable pub process_scanned_file :
      FileEvent → ProcessingResult → ProcessingClaim → Exec Exn P.World ProcessingResult
  unfolding scanned_record
  process_scanned_file e result claim = do
    now ← clock
    P.save (scanned_record e now) (some claim)
    finish_with result []

  unfoldable pub process_claimed :
      FileEvent → ProcessingResult → ProcessingClaim → Exec Exn P.World ProcessingResult
  unfolding process_uploaded_file process_scanned_file
  process_claimed e result claim =
      if is_type e.event_type EventType.file_uploaded
      then process_uploaded_file e result claim
      else process_scanned_file e result claim

  -- Without a lease the event may have been completed by its owner meanwhile.
  unfoldable pub or_unavailable : Option ProcessingResult → Exec Exn P.World ProcessingResult
  or_unavailable (some d) = pure d
  or_unavailable none = raise (
      domain
        (make_error claim_unavailable "Another worker owns the active processing lease" none true))

  unfoldable pub without_claim : FileEvent → ProcessingResult → Exec Exn P.World ProcessingResult
  unfolding idempotent_result or_unavailable
  without_claim e result = do duplicate ← idempotent_result e result; or_unavailable duplicate

  -- The rest of the `try` statement of `handle`: an exception is handled with the claim that is held.
  unfoldable pub with_claim :
      FileEvent → ProcessingResult → Option ProcessingClaim → Exec Exn P.World ProcessingResult
  unfolding process_claimed without_claim
  with_claim e result none = try_except (without_claim e result) (recover R W P S e none)
  with_claim e result (some c) =
      try_except (process_claimed e result c) (recover R W P S e (some c))

  unfoldable pub attempt :
      FileEvent → ProcessingResult → Instant → Exec Exn P.World ProcessingResult
  unfolding with_claim
  attempt e result started = do
    claim ←
        try_except
          (P.claim_processing (create_metadata_record e started.iso) e.event_id.text S.claim_ttl)
          (recover R W P S e none)
    with_claim e result claim

  -- Events that make the processor work.
  unfoldable pub is_actionable : EventType → Bool
  is_actionable t = is_type t EventType.file_uploaded || is_type t EventType.file_scanned

  abbrev pub initial_result : FileEvent → Instant → ProcessingResult
  initial_result e started = record {
    event_id = e.event_id.text;
    correlation_id = e.correlation_id.text;
    status = ProcessingStatus.processing;
    started_at = started;
    completed_at = none;
    error_message = none;
    error_code = none;
    retry_count = 0;
    metadata = [];
  }

  -- An event that was not processed before.
  unfoldable pub first_delivery :
      FileEvent
      → ProcessingResult
      → Instant
      → Option ProcessingResult
      → Exec Exn P.World ProcessingResult
  unfolding attempt is_actionable
  first_delivery e result started (some d) = pure d
  first_delivery e result started none =
      if is_actionable e.event_type then attempt e result started else finish_with result []

  unfoldable pub handle : FileEvent → Exec Exn P.World ProcessingResult
  unfolding first_delivery idempotent_result
  handle e = do
    started ← clock
    let result = initial_result e started
    duplicate ← idempotent_result e result
    first_delivery e result started duplicate
