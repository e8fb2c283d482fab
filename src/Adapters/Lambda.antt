-- ===== src/Adapters/Lambda.antt =====
-- `record_handler` of src/processor/lambda_handler.py. Metrics, traces and the duration are left out.
use fsamp_processor.Prelude.{
  String, false, ◌&&◌, Option, none, some, Result, ok, raised, Exec, ◌>>=◌, pure, raise, try_except,
  if◌then◌else◌,
}
use fsamp_processor.Domain.Errors.{Exn, caused, validation, other, make_error, event_validation}
use fsamp_processor.Domain.Events.{Runtime, FileEvent}
use fsamp_processor.Domain.Attributes.{Json, text_json, object_json}
use fsamp_processor.Domain.Wire.{Wire, model_validate}
use fsamp_processor.Domain.Models.{ProcessingResult, ProcessingStatus}
use fsamp_processor.Dynamo.Semantics.{is_there}
use fsamp_processor.Adapters.Queue.{field_at, chain}

-- A record of the batch.
pub record SqsRecord : Type 0 where
  pub message_id : String
  pub body : String

-- What is reported of a processed record.
pub record RecordReply : Type 0 where
  pub message_id : String
  pub file_id : String
  pub event_id : String
  pub processing_status : ProcessingStatus

-- A JSONDecodeError or a ValidationError as an EventValidationError.
abbrev pub invalid_payload : Exn → Exn
invalid_payload x =
    caused
      (make_error event_validation "SQS payload is not a valid canonical FSAMP event" none false) x

-- `json.loads`
abbrev decoded : Result Exn Json → Result Exn Json
decoded (ok j) = ok j
decoded (raised x) = raised (invalid_payload x)

abbrev decoded_text : Wire → Option Json → Result Exn Json
decoded_text W (some (text_json t)) = decoded (W.loads t)
decoded_text W _ = raised (other "the JSON object must be str, bytes or bytearray")

-- A notification of SNS carries the event in its message. pydantic refuses a body that is no object.
unfoldable pub unwrap_notification : Wire → Json → Result Exn Json
unfolding field_at
unwrap_notification W (object_json fields) =
    if is_there (field_at "Message" fields) && is_there (field_at "TopicArn" fields)
    then decoded_text W (field_at "Message" fields)
    else ok (object_json fields)
unwrap_notification W j = ok j

unfoldable pub record_event : Runtime → Wire → SqsRecord → Result Exn FileEvent
unfolding unwrap_notification model_validate
record_event R W r =
    chain (decoded (W.loads r.body)) (λ j. chain (unwrap_notification W j) (model_validate R W))

-- The `except` clauses: a ValidationError is reported as an invalid event, anything else as it is.
unfoldable pub record_failure_of : Exn → Exn
record_failure_of (validation t) = invalid_payload (validation t)
record_failure_of x = x

abbrev pub reply_of : SqsRecord → FileEvent → ProcessingResult → RecordReply
reply_of r e result = record {
  message_id = r.message_id;
  file_id = e.file_id.text;
  event_id = e.event_id.text;
  processing_status = result.status;
}

module _ (R : Runtime) (W : Wire) {World : Type 0}
    (handle : FileEvent → Exec Exn World ProcessingResult) where
  -- The body of the `try`.
  unfoldable pub process_record : SqsRecord → Exec Exn World RecordReply
  unfolding record_event
  process_record r = do
    e ← (λ w. (record_event R W r, w))
    result ← handle e
    pure (reply_of r e result)

  unfoldable pub record_handler : SqsRecord → Exec Exn World RecordReply
  unfolding process_record record_failure_of
  record_handler r = try_except (process_record r) (λ x. raise (record_failure_of x))
