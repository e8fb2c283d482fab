-- ===== src/Tests/Publisher.antt =====
-- The outbox publisher over the memory, and its theorems at concrete data.
use fsamp_processor.Prelude.{
  ℕ, List, String, ◌==◌, ◌<>◌, ◌≡◌, ◌≤◌, ◌+◌, refl, none, some, [], ◌∷◌, Result, ok, raised, Exec,
  ◌>>=◌, if◌then◌else◌, text_length, lookup, insert, erase, arith,
}
use fsamp_processor.Prelude.Decimal.{str_nat}
use fsamp_processor.Domain.Errors.{Exn, value_error}
use fsamp_processor.Domain.Attributes.{text, number, optional_text, dynamodb_value, int_value, Item}
use fsamp_processor.Domain.Models.{OutboxEvent, OutboxStatus, OutboxEventType}
use fsamp_processor.Domain.Models.Outbox as Outbox
use fsamp_processor.Domain.Models.Metadata.{optional_number}
use fsamp_processor.Domain.Validation.{
  validate, valid_event, valid_ids, valid_metadata, valid_location, valid_bucket_name,
  valid_security, valid_result, valid_variant,
}
use fsamp_processor.Dynamo.Semantics.{holds, updated, apply_sets, apply_removes, eval}
use fsamp_processor.Publisher.Settings.{
  Config, get_max_retry_count, get_claim_ttl_seconds, get_retention_seconds,
  get_topic_arn_for_event,
}
use fsamp_processor.Publisher.Rows.{
  claim_condition, claim_request, published_request, row_key, owned, claim_attributes,
}
use fsamp_processor.Publisher.Machine.{View, Move, IsSound}
use fsamp_processor.Publisher.Worker.{
  Message, StreamRecord, record_handler, handle_insert, handle_image, claim_event_for_publish,
  claim_at, publish_to_sns, mark_event_published, commit_at, refused, publish_event,
  publish_claimed, after_claim,
}
use fsamp_processor.Publisher.Refinement.{at, failures_at, IsView, Step}
use fsamp_processor.Publisher.Refinement.Moves.{
  Step-Move, Steps, Steps-failures_at, Steps-published,
}
use fsamp_processor.Publisher.Refinement.Progress.{IsClaimable, claimable-Steps}
use fsamp_processor.Publisher.Advance.Operations.{publish_event-Moves}
use fsamp_processor.Publisher.Delivery.Answers.{
  IsHandled, record_handler-IsHandled, after_claim-raised,
}
use fsamp_processor.Publisher.Recovery.{
  Attempt, succeeded, failed, occurrences, Tried, retry_each, retry_each-returns, AllRead,
}
use fsamp_processor.Tests.Memory.{Disk, instant, memory, memory_laws}
use fsamp_processor.Tests.Samples.{runtime, wire, announced}

abbrev config : Config
config = record {
  table = "outbox";
  sns_topic_arn = "arn:all";
  file_events_topic_arn = "";
  processing_events_topic_arn = "arn:processing";
  max_retry_count = 5;
  claim_ttl_seconds = 300;
  retention_seconds = 2592000;
}

abbrev event : OutboxEvent
event =
    Outbox.create runtime "event-2" (instant 7) OutboxEventType.analysis_completed "file-1"
      (wire.dump announced) "FileProcessing" none

-- The row as the repository inserts it.
abbrev image : Item
image = Outbox.to_dynamodb_item runtime wire event

abbrev disk : Disk
disk = ((λ t k. if t == "outbox" then some image else none), 0)

abbrev sns : Message → Exec Exn Disk String
sns m w = (ok "message-1", w)

abbrev inserted : StreamRecord
inserted = record { event_name = "INSERT"; new_image = some image }

-- A row whose event waits, and the view of it.
abbrev waiting_row : Item
waiting_row = ("status", text "PENDING") ∷ []

abbrev waiting_view : View
waiting_view = record { status = OutboxStatus.pending; failures = 0; owner = none }

IsView-waiting : IsView waiting_view (some waiting_row)
unfolding lookup Outbox.outbox_status_value
IsView-waiting = record { status_at = refl; counted = refl; owner_at = refl }

IsSound-waiting : IsSound 5 waiting_view
IsSound-waiting = record { bounded = omega arith; leased_below = λ h. absurd (ground arith) }

abbrev leased_row : Item
leased_row =
    ("status", text "PUBLISHING")
    ∷ ("publishingStartedAt", text "2026-01-01T00:00:00")
    ∷ ("publisherClaimExpiresAt", number 300)
    ∷ ("publisherClaimToken", text "token-1")
    ∷ ("GSI1PK", text ("STATUS#PUBLISHING#" <> event.outbox_shard))
    ∷ []

taken : Step "outbox" 5 event (some waiting_row) (some leased_row)
unfolding holds claim_condition lookup updated apply_sets apply_removes eval claim_request insert
taken = Step.claim (instant 0) "token-1" 300 (some waiting_row) leased_row refl refl

Step-Move_example : (u : View) × IsView u (some leased_row) × Move 5 waiting_view u
Step-Move_example =
    Step-Move "outbox" 5 event waiting_view (some waiting_row) (some leased_row) (omega arith)
      IsView-waiting taken

run : Steps "outbox" 5 event (some waiting_row) (some leased_row)
run = Steps.next _ _ _ taken (Steps.done _)

Steps-failures_at_example : (n : ℕ) × (failures_at (some leased_row) ≡ some (number n)) × (n ≤ 5)
Steps-failures_at_example =
    Steps-failures_at "outbox" 5 event waiting_view (some waiting_row) (some leased_row)
      (omega arith) IsView-waiting IsSound-waiting run

abbrev published_row : Item
published_row = ("status", text "PUBLISHED") ∷ []

abbrev published_view : View
published_view = record { status = OutboxStatus.published; failures = 0; owner = none }

IsView-published : IsView published_view (some published_row)
unfolding lookup Outbox.outbox_status_value
IsView-published = record { status_at = refl; counted = refl; owner_at = refl }

Steps-published_example : some published_row ≡ some published_row
Steps-published_example =
    Steps-published "outbox" 5 event published_view (some published_row) (some published_row)
      (omega arith) IsView-published refl (Steps.done _)

claimable-Steps_example :
    (i : Item) × Steps "outbox" 5 event (some waiting_row) (some i)
    × (at "status" (some i) ≡ some (text "PUBLISHED"))
unfolding lookup
claimable-Steps_example =
    claimable-Steps "outbox" 5 event (instant 0) (instant 1) "token-1" 300 86400 0
      (some waiting_row) (IsClaimable.waiting refl) refl (omega arith)

publish_event-Moves_example :
    Steps "outbox" 5 event
      (disk.0 "outbox" (row_key event))
      ((publish_event runtime wire memory sns config event disk).1.0 "outbox" (row_key event))
unfolding get_max_retry_count
publish_event-Moves_example =
    publish_event-Moves runtime wire memory memory_laws sns (λ m w t k. refl) config 5 event refl
      disk

-- An SNS that is down.
abbrev sns_down : Message → Exec Exn Disk String
sns_down m w = (raised (value_error "down"), w)

abbrev cut_off : Result Exn (Unit {0}) × Disk
cut_off = publish_claimed runtime wire memory sns_down config event "token-1" disk

after_claim-raised_example :
    (after_claim runtime wire memory sns_down config event (some "token-1") disk).0
    ≡ raised (value_error "down")
unfolding publish_event claim_event_for_publish claim_at after_claim publish_claimed publish_to_sns
    mark_event_published commit_at refused get_claim_ttl_seconds get_max_retry_count
    get_retention_seconds get_topic_arn_for_event claim_request published_request owned
    claim_attributes claim_condition holds updated apply_sets apply_removes eval lookup insert erase
    ◌>>=◌ Outbox.from_dynamodb_item Outbox.to_dynamodb_item Outbox.row_of Outbox.create
    Outbox.outbox_status_value Outbox.outbox_type_value Outbox.parse_outbox_status
    Outbox.parse_outbox_type Outbox.read_payload Outbox.read_ttl Outbox.read_shard
    Outbox.to_sns_message Outbox.to_sns_attributes Outbox.is_output dynamodb_value optional_text
    int_value str_nat validate valid_event valid_ids valid_metadata text_length valid_location
    valid_bucket_name valid_security valid_result valid_variant
after_claim-raised_example =
    after_claim-raised runtime wire memory memory_laws sns_down config event "token-1"
      (value_error "down") disk cut_off.1 refl

record_handler-IsHandled_example :
    IsHandled runtime wire memory memory_laws sns config inserted "event-2" disk
      (record_handler runtime wire memory sns config inserted disk).1
unfolding record_handler handle_insert handle_image publish_event claim_event_for_publish claim_at
    after_claim publish_claimed publish_to_sns mark_event_published commit_at refused
    get_claim_ttl_seconds get_max_retry_count get_retention_seconds get_topic_arn_for_event
    claim_request published_request owned claim_attributes claim_condition holds updated apply_sets
    apply_removes eval lookup insert erase ◌>>=◌ Outbox.from_dynamodb_item Outbox.to_dynamodb_item
    Outbox.row_of Outbox.create Outbox.outbox_status_value Outbox.outbox_type_value
    Outbox.parse_outbox_status Outbox.parse_outbox_type Outbox.read_payload Outbox.read_ttl
    Outbox.read_shard Outbox.to_sns_message Outbox.to_sns_attributes Outbox.is_output dynamodb_value
    optional_text int_value str_nat optional_number validate valid_event valid_ids valid_metadata
    text_length valid_location valid_bucket_name valid_security valid_result valid_variant
record_handler-IsHandled_example =
    record_handler-IsHandled runtime wire memory memory_laws sns config inserted "event-2"
      OutboxEventType.analysis_completed disk
      (record_handler runtime wire memory sns config inserted disk).1 refl

retry_each-returns_example :
    (l : List Attempt) × (v : Disk) × Tried runtime wire memory sns_down config v
      (image ∷ image ∷ [])
      disk
      l
    × (retry_each runtime wire memory sns_down config (image ∷ image ∷ []) (0, 0) disk
        ≡ (ok (0 + occurrences succeeded l, 0 + occurrences failed l), v))
unfolding lookup Outbox.from_dynamodb_item Outbox.to_dynamodb_item Outbox.row_of Outbox.create
    Outbox.outbox_status_value Outbox.outbox_type_value Outbox.parse_outbox_status
    Outbox.parse_outbox_type Outbox.read_payload Outbox.read_ttl Outbox.read_shard dynamodb_value
    optional_text optional_number int_value str_nat
retry_each-returns_example =
    retry_each-returns runtime wire memory sns_down config (image ∷ image ∷ []) (0, 0) disk
      (AllRead.reads image (image ∷ []) event refl
        (AllRead.reads image [] event refl AllRead.none_left))
