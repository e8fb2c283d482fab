-- ===== src/Tests/Domain.antt =====
-- The derivation of output events at concrete data.
use fsamp_processor.Prelude.{◌≡◌, refl, true, none, some, [], text_length}
use fsamp_processor.Domain.Events.{FileEvent, analysis_completed, Instant, ProcessingResultDetails}
use fsamp_processor.Domain.Validation.{
  derived, expected_source, with_new_event_type, valid_event, valid_ids, valid_metadata,
  valid_location, valid_security, valid_result, valid_variant, valid_bucket_name,
}
use fsamp_processor.Domain.Validation.Derived.{with_new_event_type-stable}
use fsamp_processor.Tests.Memory.{instant}
use fsamp_processor.Tests.Samples.{runtime, upload}

abbrev details : ProcessingResultDetails
details = record {
  is_safe = true;
  findings = [];
  processed_at = instant 6;
  file_hash_sha256 = some "abc";
  scan_engine = none;
}

abbrev output : Instant → FileEvent
output now = derived runtime now upload analysis_completed (some details) none none none

with_new_event_type-stable_example :
    ((output (instant 7)).event_id ≡ (output (instant 9)).event_id)
    × ((output (instant 7)).file_id ≡ (output (instant 9)).file_id)
    × ((output (instant 7)).correlation_id ≡ (output (instant 9)).correlation_id)
    × ((output (instant 7)).source ≡ expected_source analysis_completed)
    × (valid_event runtime (output (instant 7)) ≡ true)
unfolding with_new_event_type derived valid_event valid_ids valid_metadata valid_location
    valid_security valid_result valid_variant valid_bucket_name text_length
with_new_event_type-stable_example =
    with_new_event_type-stable runtime upload analysis_completed none (instant 7) (instant 9)
      (some details) (some details) none none none none (output (instant 7)) (output (instant 9))
      refl refl
