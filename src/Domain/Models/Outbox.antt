-- ===== src/Domain/Models/Outbox.antt =====
-- `OutboxEvent` of src/processor/domain/models.py: its construction, item format and SNS message.
pub mod RoundTrip
use fsamp_processor.Prelude.{
  ℕ, zero, suc, ◌+◌, ◌/◌, String, ◌<>◌, ◌==◌, Bool, true, false, not, ◌&&◌, ◌||◌, Option, none,
  some, List, [], ◌∷◌, ◌++◌, Dict, lookup, Result, ok, raised, if◌then◌else◌, truthy, or_text,
}
use fsamp_processor.Prelude.Fallible.{◌>>=◌}
use fsamp_processor.Domain.Errors.{Exn, value_error}
use fsamp_processor.Domain.Events.{EventType, type_value, is_type, Instant, Runtime, FileEvent}
use fsamp_processor.Domain.Wire.{Wire, model_validate}
use fsamp_processor.Domain.Attributes.{
  Json, Value, text_value, number_value, none_value, dict_value, Attr, text, number, plain, Item,
  optional_text, demand, dynamodb_value, str_value, text_or_none, value_or, int_value,
}
use fsamp_processor.Domain.Models.{
  OutboxEvent, OutboxStatus, OutboxEventType, outbox_shard, ProcessingStatus,
}
use fsamp_processor.Domain.Models.Metadata.{optional_number}

unfoldable pub outbox_status_value : OutboxStatus → String
outbox_status_value OutboxStatus.pending = "PENDING"
outbox_status_value OutboxStatus.publishing = "PUBLISHING"
outbox_status_value OutboxStatus.published = "PUBLISHED"
outbox_status_value OutboxStatus.failed = "FAILED"

-- `OutboxStatus(value)`
unfoldable pub parse_outbox_status : String → Result Exn OutboxStatus
parse_outbox_status v =
    if v == "PENDING"
    then ok OutboxStatus.pending
    else if v == "PUBLISHING"
    then ok OutboxStatus.publishing
    else if v == "PUBLISHED"
    then ok OutboxStatus.published
    else if v == "FAILED"
    then ok OutboxStatus.failed
    else raised (value_error "OutboxStatus")

unfoldable pub outbox_type_value : OutboxEventType → String
outbox_type_value OutboxEventType.file_uploaded = "FILE_UPLOADED"
outbox_type_value OutboxEventType.file_scanned = "FILE_SCANNED"
outbox_type_value OutboxEventType.analysis_completed = "ANALYSIS_COMPLETED"
outbox_type_value OutboxEventType.processing_failed = "PROCESSING_FAILED"

-- `OutboxEventType(value)`
unfoldable pub parse_outbox_type : String → Result Exn OutboxEventType
parse_outbox_type v =
    if v == "FILE_UPLOADED"
    then ok OutboxEventType.file_uploaded
    else if v == "FILE_SCANNED"
    then ok OutboxEventType.file_scanned
    else if v == "ANALYSIS_COMPLETED"
    then ok OutboxEventType.analysis_completed
    else if v == "PROCESSING_FAILED"
    then ok OutboxEventType.processing_failed
    else raised (value_error "OutboxEventType")

-- `OutboxEvent.__post_init__`, for the values that a caller leaves out
abbrev pub default_partition : String → String → String
default_partition aggregate_type aggregate_id = "OUTBOX#" <> aggregate_type <> "#" <> aggregate_id

-- `OutboxEvent.create`; `event_id` is a fresh UUID and `now` the creation time.
unfoldable pub create :
    Runtime
    → String
    → Instant
    → OutboxEventType
    → String
    → Json
    → String
    → Option String
    → OutboxEvent
create R event_id now event_type aggregate_id payload aggregate_type group = record {
  event_id = event_id;
  event_type = event_type;
  aggregate_id = aggregate_id;
  aggregate_type = aggregate_type;
  payload = payload;
  status = OutboxStatus.pending;
  created_at = now.iso;
  published_at = none;
  retry_count = 0;
  last_error = none;
  message_group_id = some (elim group [ none ↦ aggregate_id | some g ↦ or_text g aggregate_id ]);
  ttl = none;
  outbox_partition = default_partition aggregate_type aggregate_id;
  outbox_shard = outbox_shard R aggregate_id;
}

-- The event types that the processor may put out.
unfoldable pub is_output : EventType → Bool
is_output t =
    is_type t EventType.analysis_completed
    || is_type t EventType.processing_failed
    || is_type t EventType.file_scanned

module _ (R : Runtime) (W : Wire) where
  -- The row of a canonical event that has been read back from its payload.
  unfoldable pub row_of : FileEvent → Json → String → OutboxEventType → OutboxEvent
  row_of canonical payload aggregate_type event_type = record {
    event_id = canonical.event_id.text;
    event_type = event_type;
    aggregate_id = canonical.file_id.text;
    aggregate_type = aggregate_type;
    payload = payload;
    status = OutboxStatus.pending;
    created_at = canonical.timestamp.iso;
    published_at = none;
    retry_count = 0;
    last_error = none;
    message_group_id = some canonical.file_id.text;
    ttl = none;
    outbox_partition = default_partition aggregate_type canonical.file_id.text;
    outbox_shard = outbox_shard R canonical.file_id.text;
  }

  -- `OutboxEvent.from_file_event`
  unfoldable pub from_file_event : FileEvent → String → Result Exn OutboxEvent
  unfolding is_output model_validate parse_outbox_type type_value row_of
  from_file_event event aggregate_type =
      if not (is_output event.event_type)
      then raised (value_error "Unsupported processor output event")
      else do
        let payload = W.dump event
        canonical ← model_validate R W payload
        event_type ← parse_outbox_type (type_value canonical.event_type)
        ok (row_of canonical payload aggregate_type event_type)

  unfoldable pub to_dynamodb_item : OutboxEvent → Item
  unfolding outbox_type_value outbox_status_value
  to_dynamodb_item e =
      (("PK", text e.outbox_partition)
        ∷ ("SK", text ("EVENT#" <> e.event_id))
        ∷ ("eventId", text e.event_id)
        ∷ ("eventType", text (outbox_type_value e.event_type))
        ∷ ("aggregateId", text e.aggregate_id)
        ∷ ("aggregateType", text e.aggregate_type)
        ∷ ("payload", text (W.dumps e.payload))
        ∷ ("status", text (outbox_status_value e.status))
        ∷ ("createdAt", text e.created_at)
        ∷ ("retryCount", number e.retry_count)
        ∷ ("outboxPartition", text e.outbox_partition)
        ∷ ("outboxShard", text e.outbox_shard)
        ∷ ("GSI1PK", text ("STATUS#" <> outbox_status_value e.status <> "#" <> e.outbox_shard))
        ∷ ("GSI1SK", text e.created_at)
        ∷ [])
      ++ (optional_text "publishedAt" e.published_at
          ++ (optional_text "lastError" e.last_error
              ++ (optional_text "messageGroupId" e.message_group_id
                  ++ optional_number "ttl" e.ttl)))

  -- The payload is a dict already, or the text of one.
  unfoldable pub read_payload : Value → Result Exn Json
  read_payload (dict_value j) = ok j
  read_payload v = do t ← str_value v; W.loads t

  unfoldable pub read_ttl : Option Attr → Result Exn (Option ℕ)
  read_ttl none = ok none
  read_ttl (some a) = do n ← int_value (dynamodb_value (some a)); ok (some n)

  -- A shard that is missing or a plain `None` is computed from the aggregate by `__post_init__`.
  unfoldable pub read_shard : Option Attr → String → Result Exn String
  read_shard none aggregate_id = ok (outbox_shard R aggregate_id)
  read_shard (some (plain none_value)) aggregate_id = ok (outbox_shard R aggregate_id)
  read_shard (some a) aggregate_id = str_value (dynamodb_value (some a))

  unfoldable pub from_dynamodb_item : Item → Result Exn OutboxEvent
  from_dynamodb_item item = do
    payload_attr ← demand "payload" (lookup "payload" item)
    payload ← read_payload (dynamodb_value (some payload_attr))
    id_attr ← demand "eventId" (lookup "eventId" item)
    event_id ← str_value (dynamodb_value (some id_attr))
    type_attr ← demand "eventType" (lookup "eventType" item)
    type_text ← str_value (dynamodb_value (some type_attr))
    event_type ← parse_outbox_type type_text
    aggregate_attr ← demand "aggregateId" (lookup "aggregateId" item)
    aggregate_id ← str_value (dynamodb_value (some aggregate_attr))
    aggregate_type ←
        str_value
          (value_or (dynamodb_value (lookup "aggregateType" item)) (text_value "FileProcessing"))
    status_attr ← demand "status" (lookup "status" item)
    status_text ← str_value (dynamodb_value (some status_attr))
    status ← parse_outbox_status status_text
    created_attr ← demand "createdAt" (lookup "createdAt" item)
    created_at ← str_value (dynamodb_value (some created_attr))
    retry_count ← int_value (value_or (dynamodb_value (lookup "retryCount" item)) (number_value 0))
    ttl ← read_ttl (lookup "ttl" item)
    outbox_partition ← str_value (
        value_or (dynamodb_value (lookup "outboxPartition" item))
          (dynamodb_value (lookup "PK" item)))
    shard ← read_shard (lookup "outboxShard" item) aggregate_id
    ok (record {
      event_id = event_id;
      event_type = event_type;
      aggregate_id = aggregate_id;
      aggregate_type = aggregate_type;
      payload = payload;
      status = status;
      created_at = created_at;
      published_at = text_or_none (dynamodb_value (lookup "publishedAt" item));
      retry_count = retry_count;
      last_error = text_or_none (dynamodb_value (lookup "lastError" item));
      message_group_id = text_or_none (dynamodb_value (lookup "messageGroupId" item));
      ttl = ttl;
      outbox_partition = outbox_partition;
      outbox_shard = shard;
    })

  -- `OutboxEvent.to_sns_message`
  unfoldable pub to_sns_message : OutboxEvent → Result Exn FileEvent
  unfolding model_validate type_value outbox_type_value
  to_sns_message e = do
    event ← model_validate R W e.payload
    if not (event.event_id.text == e.event_id)
        then raised (value_error "Outbox eventId does not match canonical payload eventId")
        else if not (type_value event.event_type == outbox_type_value e.event_type)
        then raised (value_error "Outbox eventType does not match canonical payload eventType")
        else ok event

-- `mark_published` and `mark_failed` of the in-memory event
unfoldable pub mark_published : Instant → ℕ → OutboxEvent → OutboxEvent
mark_published now retention e = record e {
  status = OutboxStatus.published;
  published_at = some now.iso;
  ttl = some (now.micros / 1000000 + retention);
}

unfoldable pub mark_failed : String → OutboxEvent → OutboxEvent
mark_failed error e = record e {
  status = OutboxStatus.failed;
  last_error = some error;
  retry_count = e.retry_count + 1;
}

-- `to_sns_attributes`: the string value of each message attribute
unfoldable pub to_sns_attributes : OutboxEvent → Dict String
unfolding outbox_type_value
to_sns_attributes e =
    ("eventType", outbox_type_value e.event_type)
    ∷ ("aggregateType", e.aggregate_type)
    ∷ ("aggregateId", e.aggregate_id)
    ∷ []
