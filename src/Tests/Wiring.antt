-- ===== src/Tests/Wiring.antt =====
-- The wired service over the memory: one upload, from an empty table to the outbox row.
use fsamp_processor.Prelude.{
  ◌≡◌, refl, true, false, none, [], ◌∷◌, Result, ok, ◌⊎◌, ◌>>=◌, text_length, lookup, insert, erase,
}
use fsamp_processor.Prelude.Decimal.{str_nat}
use fsamp_processor.Domain.Errors.{Exn}
use fsamp_processor.Domain.Attributes.{optional_text}
use fsamp_processor.Domain.Models.{
  ProcessingResult, ProcessingStatus, with_completion, status_value,
}
use fsamp_processor.Domain.Attributes.{text_value, bool_value, number_value}
use fsamp_processor.Domain.Validation.{
  make_result, with_new_event_type, valid_event, valid_result, valid_metadata, valid_location,
  valid_security, valid_variant, valid_bucket_name, valid_ids,
}
use fsamp_processor.Domain.Models.Metadata.{
  to_dynamodb_item, required_fields, checksum_item, optional_flag, optional_texts, optional_number,
}
use fsamp_processor.Domain.Models.Outbox as Outbox
use fsamp_processor.Domain.Models.Outbox.{from_file_event}
use fsamp_processor.Dynamo.Semantics.{holds, updated, apply_sets, apply_removes, eval}
use fsamp_processor.Adapters.Retry.{mem_text, aws_retry}
use fsamp_processor.Adapters.Metadata.{
  get_by_id, claim_processing, fence, assignments, build_metadata_update, created_by_set,
  fence_removes, save_removes, updated_item, claim_sets, claim_condition, read_claim,
}
use fsamp_processor.Adapters.Outbox.{
  metadata_update, transaction_condition, event_put, save_with_outbox,
}
use fsamp_processor.Processor.Ports.{make_config}
use fsamp_processor.Processor.Checks.{
  validate_event_location, validate_declared_size, validate_actual_object, validate_checksum,
  byte_count, analyze_file, output_location, create_metadata_record,
}
use fsamp_processor.Processor.Failure.{persist_and_publish}
use fsamp_processor.Processor.Service.{handle}
use fsamp_processor.Processor.Service.Success.{IsReplay}
use fsamp_processor.Processor.Wiring.{Services, Settings, wired, service_config}
use fsamp_processor.Processor.Wiring.Durable.{IsDurable, upload-IsDurable}
use fsamp_processor.Tests.Memory.{Disk, instant, memory, memory_laws}
use fsamp_processor.Tests.Samples.{runtime, wire, content, upload, started}

abbrev services : Services Disk
services = record {
  download = λ b k n w. (ok content, w);
  copy = λ b k c j w. (ok "etag", w);
  delete = λ b k w. (ok tt, w);
  compute_hash = λ b a w. (ok "abc", w);
  publish = λ e w. (ok "message-1", w);
}

abbrev pub settings : Settings
settings = record {
  dynamodb_table_name = "files";
  outbox_table_name = "outbox";
  max_file_size_bytes = 10;
  s3_bucket_name = "uploads";
  aws_region = "eu";
  quarantine_prefix = "quarantine/";
  processing_claim_ttl_seconds = 300;
}

abbrev pub empty : Disk
empty = ((λ t k. none), 0)

abbrev run : Result Exn ProcessingResult × Disk
run =
    handle runtime wire (wired runtime wire memory services settings) (service_config settings)
      upload empty

abbrev done : ProcessingResult
done = with_completion (instant 9) started ProcessingStatus.completed none none (
    ("file_hash", text_value "abc")
    ∷ ("is_safe", bool_value true)
    ∷ ("findings_count", number_value 0)
    ∷ ("outbox_event_id", text_value "event-2")
    ∷ ("quarantined", bool_value false)
    ∷ [])

upload_run : run ≡ (ok done, run.1)
unfolding handle ◌>>=◌ validate_event_location validate_declared_size validate_actual_object
    validate_checksum byte_count analyze_file output_location make_result with_new_event_type
    from_file_event persist_and_publish with_completion valid_event valid_result valid_metadata
    valid_location valid_security valid_variant valid_bucket_name valid_ids text_length get_by_id
    aws_retry claim_processing holds lookup updated apply_sets eval assignments to_dynamodb_item
    required_fields mem_text optional_text checksum_item optional_flag optional_texts
    optional_number str_nat insert erase apply_removes save_with_outbox metadata_update
    transaction_condition event_put fence fence_removes build_metadata_update
    Outbox.to_dynamodb_item make_config create_metadata_record status_value claim_sets
    claim_condition read_claim save_removes updated_item created_by_set
upload_run = refl

upload-IsDurable_example :
    IsReplay runtime wire
      (wired runtime wire memory services settings)
      (service_config settings)
      upload
    ⊎ IsDurable runtime wire memory memory_laws services settings upload done
upload-IsDurable_example =
    upload-IsDurable runtime wire memory memory_laws services settings upload empty done run.1 refl
      refl refl upload_run
