-- ===== src/Tests/Store.antt =====
-- The stores over the memory, and the theorems of the metadata row, the outbox row and the retries.
use fsamp_processor.Prelude.{
  ℕ, ◌≤◌, ◌==◌, ◌≡◌, refl, false, Option, none, some, Result, ok, raised, if◌then◌else◌, Exec,
  lookup, insert, erase, text_length, ltb, suc,
}
use fsamp_processor.Domain.Errors.{Exn, boto_core}
use fsamp_processor.Domain.Attributes.{Item, optional_text}
use fsamp_processor.Domain.Models.{ProcessingClaim, OutboxEvent, OutboxEventType}
use fsamp_processor.Domain.Events.{Instant, type_value}
use fsamp_processor.Domain.Validation.{
  valid_event, valid_ids, valid_metadata, valid_location, valid_security, valid_result,
  valid_variant, valid_bucket_name,
}
use fsamp_processor.Dynamo.{Key}
use fsamp_processor.Dynamo.Semantics.{holds, updated, item_of, apply_sets, apply_removes, eval}
use fsamp_processor.Dynamo.Lawful.{SameRows}
use fsamp_processor.Prelude.Decimal.{str_nat}
use fsamp_processor.Domain.Models.{status_value}
use fsamp_processor.Processor.Checks.{create_metadata_record}
use fsamp_processor.Domain.Models.Metadata.{
  to_dynamodb_item, from_dynamodb_item, required_fields, checksum_item, optional_flag,
  optional_texts, optional_number,
}
use fsamp_processor.Domain.Models.Metadata.RoundTrip.{restored, from_dynamodb_item-to_dynamodb_item}
use fsamp_processor.Domain.Models.Outbox as Outbox
use fsamp_processor.Domain.Models.Outbox.RoundTrip.{
  restored_row, from_dynamodb_item-outbox_item, relay, relay-eq,
}
use fsamp_processor.Domain.Wire.{IsFaithful}
use fsamp_processor.Adapters.Retry.{mem_text, aws_retry, Attempts, aws_retry-Attempts}
use fsamp_processor.Adapters.Metadata.{
  build_metadata_update, claim_sets, created_by_set, fence_removes, save_condition, save_removes,
  updated_item, assignments, save_once, claim_once, read_claim, metadata_key, fence,
  claim_condition, claim_request, save_request, save, claim_processing,
}
use fsamp_processor.Adapters.Metadata.Lease.{Released}
use fsamp_processor.Adapters.Metadata.Lease.Claim.{IsClaim, claim_processing-some}
use fsamp_processor.Adapters.Metadata.Lease.Fence.{save-ok, save-stale}
use fsamp_processor.Adapters.Metadata.Lease.Interleaving.{
  here, next, Step, commit_once, takeover_fences,
}
use fsamp_processor.Tests.Memory.{Disk, instant, memory, memory_laws}
use fsamp_processor.Tests.Samples.{runtime, wire, claim, leased, stored, announced}

abbrev key : Key
key = metadata_key "file-1"

-- One file, under the lease `claim`.
abbrev disk : Disk
disk = ((λ t k. if k.pk == "FILE#file-1" then some leased else none), 7)

abbrev empty : Disk
empty = ((λ t k. none), 0)

-- The row after the lease's commit, and after another worker's later claim.
abbrev committed : Item
committed = item_of (updated (save_request "files" (instant 9) stored (some claim)) (some leased))

abbrev late : ℕ
late = 900000000

abbrev taken_over : Option Item → Item
taken_over row =
    item_of (updated (claim_request "files" (instant late) "token-2" stored "event-2" 300) row)

commit_once_example : holds (fence claim) (taken_over (some committed)) ≡ false
unfolding save_request claim_request claim_condition updated holds fence lookup apply_sets
    assignments insert to_dynamodb_item required_fields mem_text eval optional_text
    create_metadata_record checksum_item optional_flag optional_texts str_nat optional_number
    apply_removes erase build_metadata_update claim_sets created_by_set fence_removes save_condition
    save_removes updated_item status_value
commit_once_example = commit_once (some leased) "files" (instant 9) stored claim refl refl (
    next here (
      Step.claim "files" (instant late) "token-2" stored "event-2" 300 (some committed) _ refl
        refl))

takeover_fences_example : holds (fence claim) (taken_over (some leased)) ≡ false
unfolding save_request claim_request claim_condition updated holds fence lookup apply_sets
    assignments insert to_dynamodb_item required_fields mem_text eval optional_text
    create_metadata_record checksum_item optional_flag optional_texts str_nat optional_number
    apply_removes erase build_metadata_update claim_sets created_by_set fence_removes save_condition
    save_removes updated_item status_value
takeover_fences_example =
    takeover_fences (some leased) claim "files" (instant late) "token-2" stored "event-2" 300 refl
      refl refl here

abbrev saved : Result Exn (Unit {0}) × Disk
saved = save memory "files" stored (some claim) disk

save-ok_example : (u : Disk) × Released claim stored (u.0 "files" key) (saved.1.0 "files" key)
unfolding save_request claim_request claim_condition updated holds fence lookup apply_sets
    assignments insert to_dynamodb_item required_fields mem_text eval optional_text
    create_metadata_record checksum_item optional_flag optional_texts str_nat optional_number
    apply_removes erase build_metadata_update claim_sets created_by_set fence_removes save_condition
    save_removes updated_item status_value save save_once aws_retry
save-ok_example = save-ok memory memory_laws "files" stored claim disk saved.1 refl

save-stale_example :
    ((e : Exn) × ((save memory "files" stored (some claim) empty).0 ≡ raised e))
    × SameRows empty.0 (save memory "files" stored (some claim) empty).1.0
unfolding save_request claim_request claim_condition updated holds fence lookup apply_sets
    assignments insert to_dynamodb_item required_fields mem_text eval optional_text
    create_metadata_record checksum_item optional_flag optional_texts str_nat optional_number
    apply_removes erase build_metadata_update claim_sets created_by_set fence_removes save_condition
    save_removes updated_item status_value
save-stale_example = save-stale memory memory_laws "files" stored claim empty refl

abbrev claimed : Result Exn (Option ProcessingClaim) × Disk
claimed = claim_processing memory "files" stored "event-1" 300 empty

abbrev granted : ProcessingClaim
granted = record { event_id = "event-1"; token = "token-1"; version = 1; expires_at_epoch = 300 }

claim_processing-some_example :
    (u : Disk) × IsClaim "event-1"
      (instant u.1)
      300
      granted
      (u.0 "files" key)
      (claimed.1.0 "files" key)
unfolding save_request claim_request claim_condition updated holds fence lookup apply_sets
    assignments insert to_dynamodb_item required_fields mem_text eval optional_text
    create_metadata_record checksum_item optional_flag optional_texts str_nat optional_number
    apply_removes erase build_metadata_update claim_sets created_by_set fence_removes save_condition
    save_removes updated_item status_value claim_processing claim_once read_claim aws_retry
claim_processing-some_example =
    claim_processing-some memory memory_laws "files" stored "event-1" 300 empty claimed.1 granted
      refl

abbrev dated : Instant
dated = instant 9

metadata_round_trip_example :
    from_dynamodb_item dated (to_dynamodb_item stored) ≡ ok (restored dated stored)
unfolding create_metadata_record
metadata_round_trip_example = from_dynamodb_item-to_dynamodb_item dated stored refl

abbrev row : OutboxEvent
row =
    Outbox.create runtime "event-2" (instant 7) OutboxEventType.analysis_completed "file-1"
      (wire.dump announced) "FileProcessing" none

outbox_round_trip_example :
    Outbox.from_dynamodb_item runtime wire (Outbox.to_dynamodb_item runtime wire row)
    ≡ ok (restored_row row)
unfolding Outbox.create type_value
outbox_round_trip_example = from_dynamodb_item-outbox_item runtime wire row refl refl refl

announced-IsFaithful : IsFaithful wire announced
unfolding type_value
announced-IsFaithful = record { parse-dump = refl; loads-dumps = refl }

relay-eq_example : relay runtime wire announced "FileProcessing" ≡ ok announced
unfolding valid_event valid_ids valid_metadata valid_location valid_security valid_result
    valid_variant valid_bucket_name text_length Outbox.is_output
relay-eq_example =
    relay-eq runtime wire announced "FileProcessing" announced-IsFaithful refl refl refl

-- A call that times out until the clock reaches 2.
abbrev flaky : Exec Exn ℕ ℕ
flaky w = if ltb w 2 then (raised (boto_core "timeout"), suc w) else (ok w, w)

aws_retry-Attempts_example : (k : ℕ) × (k ≤ 3) × Attempts flaky (aws_retry 3 flaky 0) 2 0 k
aws_retry-Attempts_example = aws_retry-Attempts 3 flaky 0
