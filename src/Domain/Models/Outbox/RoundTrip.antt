-- ===== src/Domain/Models/Outbox/RoundTrip.antt =====
-- An outbox row survives its item format, and carries its event to SNS unchanged.
use fsamp_processor.Prelude.{
  ℕ, zero, suc, String, ◌≡◌, refl, true, Option, none, some, Result, ok, truthy, truthy-append_left,
  dict_laws, eq_refl,
}
use fsamp_processor.Prelude.Fallible.{◌>>=◌}
use fsamp_processor.Domain.Errors.{Exn}
use fsamp_processor.Domain.Events.{EventType, type_value, Runtime, FileEvent}
use fsamp_processor.Domain.Validation.{valid_event, validate}
use fsamp_processor.Domain.Wire.{Wire, IsFaithful, model_validate}
use fsamp_processor.Domain.Attributes.{
  text, number, kept, stored_text, lookup-optional_text, dynamodb_value, text_or_none, str_value,
  value_or, text_value, Value, number_value, int_value,
}
use fsamp_processor.Domain.Models.{OutboxEvent, OutboxStatus, OutboxEventType}
use fsamp_processor.Domain.Models.Metadata.RoundTrip.{
  or_else-none, lookup-optional_number, stored_number, nonzero,
}
use fsamp_processor.Domain.Models.Outbox.{
  parse_outbox_status, outbox_status_value, parse_outbox_type, outbox_type_value, is_output, row_of,
  from_file_event, to_dynamodb_item, from_dynamodb_item, to_sns_message, read_payload, read_ttl,
  read_shard,
}

parse_outbox_status_lem : (s : OutboxStatus) → parse_outbox_status (outbox_status_value s) ≡ ok s
unfolding parse_outbox_status outbox_status_value
parse_outbox_status_lem OutboxStatus.pending = refl
parse_outbox_status_lem OutboxStatus.publishing = refl
parse_outbox_status_lem OutboxStatus.published = refl
parse_outbox_status_lem OutboxStatus.failed = refl

parse_outbox_type_lem : (t : OutboxEventType) → parse_outbox_type (outbox_type_value t) ≡ ok t
unfolding parse_outbox_type outbox_type_value
parse_outbox_type_lem OutboxEventType.file_uploaded = refl
parse_outbox_type_lem OutboxEventType.file_scanned = refl
parse_outbox_type_lem OutboxEventType.analysis_completed = refl
parse_outbox_type_lem OutboxEventType.processing_failed = refl

text_or_none-stored_text :
    (o : Option String) → text_or_none (dynamodb_value (stored_text o)) ≡ kept o
unfolding dynamodb_value
text_or_none-stored_text none = refl
text_or_none-stored_text (some String.[]) = refl
text_or_none-stored_text (some (String.◌∷◌ c s)) = refl

dynamodb_value-text : (t : String) → dynamodb_value (some (text t)) ≡ text_value t
unfolding dynamodb_value
dynamodb_value-text t = refl

dynamodb_value-number : (n : ℕ) → dynamodb_value (some (number n)) ≡ number_value n
unfolding dynamodb_value
dynamodb_value-number n = refl

value_or-text :
    (t : String) (d : Value) → truthy t ≡ true → str_value (value_or (text_value t) d) ≡ ok t
value_or-text String.[] d h = cc
value_or-text (String.◌∷◌ c s) d h = refl

int_value-number : (n : ℕ) → int_value (value_or (number_value n) (number_value 0)) ≡ ok n
unfolding int_value
int_value-number zero = refl
int_value-number (suc n) = refl

module _ (R : Runtime) (W : Wire) where
  read_payload-text : (t : String) → read_payload R W (text_value t) ≡ W.loads t
  unfolding read_payload
  read_payload-text t = refl

  read_ttl-stored_number : (o : Option ℕ) → read_ttl R W (stored_number o) ≡ ok (nonzero o)
  unfolding read_ttl int_value dynamodb_value
  read_ttl-stored_number none = refl
  read_ttl-stored_number (some zero) = refl
  read_ttl-stored_number (some (suc n)) = refl

  read_shard-text : (t a : String) → read_shard R W (some (text t)) a ≡ ok t
  unfolding read_shard dynamodb_value
  read_shard-text t a = refl

abbrev pub restored_row : OutboxEvent → OutboxEvent
restored_row e = record e {
  published_at = kept e.published_at;
  last_error = kept e.last_error;
  message_group_id = kept e.message_group_id;
  ttl = nonzero e.ttl;
}

-- Reading back the item of an outbox row whose payload text is read back, and that has an aggregate
-- type and a partition, gives the row, except that an empty optional text and a zero `ttl` become
-- missing.
pub from_dynamodb_item-outbox_item :
    (R : Runtime) (W : Wire) (e : OutboxEvent)
    → W.loads (W.dumps e.payload) ≡ ok e.payload
    → truthy e.aggregate_type ≡ true
    → truthy e.outbox_partition ≡ true
    → from_dynamodb_item R W (to_dynamodb_item R W e) ≡ ok (restored_row e)
from_dynamodb_item-outbox_item R W e loaded ha hp =
    unfold from_dynamodb_item to_dynamodb_item in
    simp (
      dict_laws,
      lookup-optional_text,
      lookup-optional_number,
      or_else-none,
      parse_outbox_status_lem,
      parse_outbox_type_lem,
      text_or_none-stored_text,
      dynamodb_value-text,
      dynamodb_value-number,
      value_or-text _ _ ha,
      value_or-text _ _ hp,
      int_value-number,
      read_payload-text,
      loaded,
      read_ttl-stored_number,
      read_shard-text,
    )

abbrev row_type : EventType → OutboxEventType
row_type EventType.file_uploaded = OutboxEventType.file_uploaded
row_type EventType.file_scanned = OutboxEventType.file_scanned
row_type EventType.analysis_completed = OutboxEventType.analysis_completed
row_type EventType.processing_failed = OutboxEventType.processing_failed

parse_outbox_type-type_value : (t : EventType) → parse_outbox_type (type_value t) ≡ ok (row_type t)
unfolding parse_outbox_type type_value
parse_outbox_type-type_value EventType.file_uploaded = refl
parse_outbox_type-type_value EventType.file_scanned = refl
parse_outbox_type-type_value EventType.analysis_completed = refl
parse_outbox_type-type_value EventType.processing_failed = refl

outbox_type_value-row_type : (t : EventType) → outbox_type_value (row_type t) ≡ type_value t
unfolding outbox_type_value type_value
outbox_type_value-row_type EventType.file_uploaded = refl
outbox_type_value-row_type EventType.file_scanned = refl
outbox_type_value-row_type EventType.analysis_completed = refl
outbox_type_value-row_type EventType.processing_failed = refl

module _ (R : Runtime) (W : Wire) (e : FileEvent) (L : IsFaithful W e) where
  pub model_validate-dump : valid_event R e ≡ true → model_validate R W (W.dump e) ≡ ok e
  unfolding model_validate validate
  model_validate-dump h = simp (L.parse-dump, h)

  abbrev row_for : String → OutboxEvent
  row_for aggregate_type = row_of R W e (W.dump e) aggregate_type (row_type e.event_type)

  -- A valid output event is accepted, and its row is the one of the event itself.
  pub from_file_event-eq :
      (aggregate_type : String)
      → valid_event R e ≡ true
      → is_output e.event_type ≡ true
      → from_file_event R W e aggregate_type ≡ ok (row_for aggregate_type)
  from_file_event-eq aggregate_type h out =
      unfold from_file_event in simp (out, model_validate-dump h, parse_outbox_type-type_value)

  to_sns_message-row :
      (aggregate_type : String)
      → valid_event R e ≡ true
      → to_sns_message R W (restored_row (row_for aggregate_type)) ≡ ok e
  to_sns_message-row aggregate_type h =
      unfold to_sns_message row_of in
      simp (model_validate-dump h, eq_refl, outbox_type_value-row_type)

-- What the publisher sends for an event: the row is built, stored, read back and validated.
abbrev pub relay : Runtime → Wire → FileEvent → String → Result Exn FileEvent
relay R W e aggregate_type = do
  row ← from_file_event R W e aggregate_type
  stored ← from_dynamodb_item R W (to_dynamodb_item R W row)
  to_sns_message R W stored

-- A valid output event that its JSON form gives back, put through the outbox under an aggregate type
-- that is not empty (its row built, stored, read back and turned into a message), is sent unchanged.
pub relay-eq :
    (R : Runtime) (W : Wire) (e : FileEvent) (aggregate_type : String)
    → IsFaithful W e
    → valid_event R e ≡ true
    → is_output e.event_type ≡ true
    → truthy aggregate_type ≡ true
    → relay R W e aggregate_type ≡ ok e
relay-eq R W e aggregate_type L h out ha = rw (from_file_event-eq R W e L aggregate_type h out) (
    rw
      (from_dynamodb_item-outbox_item R W (row_for R W e L aggregate_type)
        (unfold row_of in L.loads-dumps) (unfold row_of in ha)
        (unfold row_of in truthy-append_left "OUTBOX#" _ refl))
      (to_sns_message-row R W e L aggregate_type h))
