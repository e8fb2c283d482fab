-- ===== src/Tests/Outbox.antt =====
-- The outbox repository over the memory, and its theorems at concrete data.
use fsamp_processor.Prelude.{◌==◌, refl, none, some, [], ◌∷◌, Result, if◌then◌else◌, lookup, insert}
use fsamp_processor.Prelude.Decimal.{str_nat}
use fsamp_processor.Domain.Errors.{Exn}
use fsamp_processor.Domain.Attributes.{text, optional_text}
use fsamp_processor.Domain.Models.{OutboxEvent, OutboxEventType}
use fsamp_processor.Domain.Models.Metadata.{
  to_dynamodb_item, required_fields, checksum_item, optional_flag, optional_texts, optional_number,
}
use fsamp_processor.Domain.Models.Outbox as Outbox
use fsamp_processor.Processor.Checks.{create_metadata_record}
use fsamp_processor.Dynamo.Semantics.{holds, updated, apply_sets, eval}
use fsamp_processor.Adapters.Retry.{mem_text, aws_retry}
use fsamp_processor.Adapters.Metadata.{fence, assignments, build_metadata_update}
use fsamp_processor.Adapters.Outbox.{
  metadata_update, transaction_condition, event_put, save_with_outbox,
}
use fsamp_processor.Adapters.Outbox.Commit.{IsSaved, save_with_outbox-ok}
use fsamp_processor.Adapters.Outbox.Stale.{save_with_outbox-stale}
use fsamp_processor.Dynamo.Lawful.{SameRows}
use fsamp_processor.Adapters.Outbox.Marks.{mark_failed, mark_failed-published}
use fsamp_processor.Tests.Memory.{Disk, instant, memory, memory_laws}
use fsamp_processor.Tests.Samples.{runtime, wire, claim, leased, stored, announced}

abbrev event : OutboxEvent
event =
    Outbox.create runtime "event-2" (instant 7) OutboxEventType.analysis_completed "file-1"
      (wire.dump announced) "FileProcessing" none

-- One file, under the lease `claim`, and no outbox row.
abbrev disk : Disk
disk = (
  (λ t k.
      if t == "files"
      then if k.pk == "FILE#file-1"
        then some (("PK", text "FILE#file-1") ∷ ("SK", text "METADATA") ∷ leased)
        else none
      else none),
  7,
)

abbrev saved : Result Exn (Unit {0}) × Disk
saved = save_with_outbox runtime wire memory "files" "outbox" stored event (some claim) disk

save_with_outbox-ok_example :
    IsSaved runtime wire memory memory_laws "files" "outbox" stored event claim disk saved.1
unfolding save_with_outbox aws_retry metadata_update transaction_condition event_put holds updated
    fence lookup create_metadata_record apply_sets build_metadata_update assignments insert
    to_dynamodb_item required_fields mem_text eval optional_text checksum_item optional_flag
    optional_texts str_nat optional_number Outbox.to_dynamodb_item
save_with_outbox-ok_example =
    save_with_outbox-ok runtime wire memory memory_laws "files" "outbox" stored event claim disk
      saved.1 refl refl

abbrev unclaimed : Disk
unclaimed = ((λ t k. none), 3)

save_with_outbox-stale_example :
    SameRows unclaimed.0
      (save_with_outbox runtime wire memory "files" "outbox" stored event
        (some claim)
        unclaimed).1.0
unfolding holds fence lookup
save_with_outbox-stale_example =
    save_with_outbox-stale runtime wire memory memory_laws "files" "outbox" stored event claim
      unclaimed refl

-- Every row of every table says PUBLISHED.
abbrev published : Disk
published = ((λ t k. some (("status", text "PUBLISHED") ∷ [])), 0)

mark_failed-published_example :
    SameRows published.0
      (mark_failed runtime memory "outbox" 2592000 "event-2" "timeout" "FileProcessing"
        (some "file-1")
        published).1.0
unfolding lookup
mark_failed-published_example =
    mark_failed-published runtime memory memory_laws "outbox" 2592000 "event-2" "timeout"
      "FileProcessing" (some "file-1") published refl
