-- ===== src/Tests/Service.antt =====
-- The service over the sample ports, and its theorems at them.
use fsamp_processor.Prelude.{
  ℕ, ◌≡◌, refl, true, false, none, some, [], ◌∷◌, ok, raised, ◌⊎◌, ◌>>=◌, text_take, text_length,
}
use fsamp_processor.Domain.Attributes.{text_value, bool_value, number_value}
use fsamp_processor.Domain.Errors.{Exn, storage_error, boto_core, non_retryable_error}
use fsamp_processor.Domain.Validation.{
  make_result, with_new_event_type, valid_event, valid_result, valid_metadata, valid_location,
  valid_security, valid_variant, valid_bucket_name, valid_ids,
}
use fsamp_processor.Domain.Models.{ProcessingResult, ProcessingStatus, with_completion}
use fsamp_processor.Domain.Models.Outbox.{from_file_event}
use fsamp_processor.Processor.Checks.{
  validate_event_location, validate_declared_size, validate_actual_object, validate_checksum,
  byte_count, analyze_file, output_location,
}
use fsamp_processor.Processor.Failure.{persist_and_publish, failure_record, handle_failure, recover}
use fsamp_processor.Processor.Failure.Report.{
  reported, recover-reported, handle_failure-empty_message,
}
use fsamp_processor.Processor.Service.Success.{IsReplay, IsFresh, handle-committed}
use fsamp_processor.Processor.Service.Outcome.{redelivery}
use fsamp_processor.Processor.Service.{handle, duplicate_of, completed_record, count_texts}
use fsamp_processor.Tests.Memory.{instant}
use fsamp_processor.Tests.Samples.{started, claim, content, runtime, wire, ports, config, upload}

abbrev done : ProcessingResult
done = with_completion (instant 5) started ProcessingStatus.completed none none (
    ("file_hash", text_value "abc")
    ∷ ("is_safe", bool_value true)
    ∷ ("findings_count", number_value 0)
    ∷ ("outbox_event_id", text_value "event-2")
    ∷ ("quarantined", bool_value false)
    ∷ [])

-- The upload is processed, with six readings of the clock.
upload_run : handle runtime wire ports config upload 0 ≡ (ok done, 6)
unfolding handle ◌>>=◌ validate_event_location validate_declared_size validate_actual_object
    validate_checksum byte_count analyze_file output_location make_result with_new_event_type
    from_file_event persist_and_publish with_completion valid_event valid_result valid_metadata
    valid_location valid_security valid_variant valid_bucket_name valid_ids text_length
upload_run = refl

handle-committed_example :
    IsReplay runtime wire ports config upload ⊎ IsFresh runtime wire ports config upload done
handle-committed_example =
    handle-committed runtime wire ports config upload 0 done 6 refl upload_run

abbrev failed_download : Exn
failed_download = storage_error "Failed to download" (boto_core "timeout")

recover-reported_example :
    (w : ℕ) × (recover runtime wire ports config {A = ProcessingResult} upload
        (some claim)
        failed_download
        0
      ≡ (raised (reported failed_download), w))
recover-reported_example =
    recover-reported runtime wire ports config {A = ProcessingResult} upload (some claim)
      failed_download 0

redelivery_example :
    (duplicate_of runtime wire ports config upload started
        (some (
          completed_record upload
            (instant 0)
            (instant 3)
            content
            (analyze_file content "abc" (instant 2))
            upload.storage_location))
        7
      ≡ (
        ok (
            some (
              with_completion (instant 7) started ProcessingStatus.completed none none (
                ("duplicate", bool_value true)
                ∷ ("file_hash", text_value "abc")
                ∷ ("is_safe", bool_value true)
                ∷ ("findings_count", number_value 0)
                ∷ []))),
        8,
      ))
    × (duplicate_of runtime wire ports config upload started
          (some (failure_record upload (instant 3) "bad checksum" "CHECKSUM_MISMATCH" false))
          7
        ≡ (raised (non_retryable_error "bad checksum" "CHECKSUM_MISMATCH"), 7))
    × (duplicate_of runtime wire ports config upload started
          (some (failure_record upload (instant 3) "bad checksum" "CHECKSUM_MISMATCH" true))
          7
        ≡ (ok none, 7))
unfolding analyze_file count_texts text_take
redelivery_example =
    redelivery runtime wire ports config upload started (instant 0) (instant 3) content
      (analyze_file content "abc" (instant 2)) upload.storage_location "bad checksum"
      "CHECKSUM_MISMATCH" 7 refl refl

handle_failure-empty_message_example :
    handle_failure runtime wire ports config upload "" "UNEXPECTED_ERROR" true (some claim) 3
    ≡ (ok tt, 4)
handle_failure-empty_message_example =
    handle_failure-empty_message runtime wire ports config upload "UNEXPECTED_ERROR" true claim 3
