-- ===== src/Tests/Consumer.antt =====
-- The whole consumer and the Lambda over services in memory: a message is received and handled.
use fsamp_processor.Prelude.{◌≡◌, refl, false, none, [], ◌∷◌, ok, ◌>>=◌, text_length, lookup}
use fsamp_processor.Prelude.Decimal.{str_nat}
use fsamp_processor.Domain.Errors.{Exn}
use fsamp_processor.Domain.Attributes.{text, optional_text, Item}
use fsamp_processor.Domain.Models.{ProcessingStatus, with_completion, status_value}
use fsamp_processor.Domain.Validation.{
  make_result, valid_event, valid_metadata, valid_location, valid_security, valid_variant,
  valid_bucket_name, valid_ids,
}
use fsamp_processor.Domain.Models.Metadata as Metadata
use fsamp_processor.Processor.Service.{duplicate_metadata}
use fsamp_processor.Domain.Models.Metadata.{
  remove_prefix, to_dynamodb_item, required_fields, checksum_item, optional_flag, optional_texts,
  optional_number,
}
use fsamp_processor.Adapters.Retry.{aws_retry}
use fsamp_processor.Adapters.Metadata.{get_by_id}
use fsamp_processor.Processor.Ports.{make_config}
use fsamp_processor.Processor.Checks.{validate_event_location, create_metadata_record}
use fsamp_processor.Processor.Service.{handle}
use fsamp_processor.Tests.Memory.{Disk, memory, memory_laws}
use fsamp_processor.Tests.Samples.{runtime, wire, upload, stored}
use fsamp_processor.Prelude.{
  ℕ, suc, String, false, some, Exec, nat_eq, sym, ◌∙◌, if◌then◌else◌, ◌==◌,
}
use fsamp_processor.Domain.Events.{FileEvent}
use fsamp_processor.Domain.Wire.{model_validate}
use fsamp_processor.Domain.Validation.{validate}
use fsamp_processor.Dynamo.Lawful.{write}
use fsamp_processor.Dynamo.{Key}
use fsamp_processor.Adapters.Storage.{S3}
use fsamp_processor.Adapters.Crypto.{Kms}
use fsamp_processor.Adapters.Queue as Queue
use fsamp_processor.Adapters.Queue.{
  RawMessage, Sqs, event_of, get_file_event, deliver, process_message, acknowledge, with_handle,
}
use fsamp_processor.Processor.Wiring.Consumer.{handler, IsSettled, deleted-IsSettled}
use fsamp_processor.Adapters.Lambda.{
  SqsRecord, RecordReply, unwrap_notification, record_event, process_record, record_handler,
}
use fsamp_processor.Processor.Wiring.Batch.{service, IsReported, record_handler-IsReported}
use fsamp_processor.Tests.Wiring.{settings}

-- The first read of a body gives the bytes, and the world counts it.
abbrev s3 : S3 Disk
s3 = record {
  Body = ℕ;
  get_object = λ b k w. (
    ok (
      record {
        declared_length = 2;
        content_type = none;
        etag = "e";
        encryption = some "aws:kms";
        kms_key = some "key-1";
      },
      w.1,
    ),
    w,
  );
  read = λ body n w. (ok (if nat_eq body w.1 then 104 ∷ 105 ∷ [] else []), (w.0, suc w.1));
  close = λ body w. (ok tt, w);
  put_object = λ r w. (ok "e", w);
  copy_object = λ r w. (ok "e", w);
  head_object = λ b k w. (ok tt, w);
  delete_object = λ b k w. (ok tt, w);
}

abbrev kms : Kms Disk
kms = record {
  generate_data_key = λ id context w. (ok ([], []), w);
  decrypt = λ id key context w. (ok key, w);
  describe_key = λ id w. (ok tt, w);
  urandom = λ n w. ([], w);
  seal = λ key nonce text. ok text;
  open_sealed = λ key nonce sealed. ok sealed;
  hexdigest = λ name bytes. "abc";
  upper = λ t. t;
}

abbrev receipt : String → Key
receipt h = record { pk = h; sk = "" }

-- A deleted message is noted in a table of its own.
abbrev queue : Sqs Disk
queue = record {
  receive_message = λ w. (ok [], w);
  delete_message = λ h w. (ok tt, (write "queue" (receipt h) [] w.0, w.1));
  change_message_visibility = λ h n w. (ok tt, w);
  is_stopped = λ w. false;
  sleep = λ n w. w;
}

abbrev raw : RawMessage
raw = record { message_id = "m"; receipt_handle = some "r-1"; body = some "FILE_UPLOADED" }

abbrev Waits : Disk → Type 0
Waits w = w.0 "queue" (receipt "r-1") ≡ none

abbrev publish : FileEvent → Exec Exn Disk String
publish e w = (ok "message-1", w)

abbrev handle_event : FileEvent → Exec Exn Disk (Unit {0})
handle_event = handler runtime wire memory memory_laws s3 kms "key-1" publish settings

-- The upload was completed before.
abbrev known : Disk
known = (
  (λ t k.
      if t == "files"
      then some (
          ("PK", text "FILE#file-1")
          ∷ ("SK", text "METADATA")
          ∷ Metadata.to_dynamodb_item (record stored {
            status = ProcessingStatus.completed;
            last_processed_event_id = some "event-1";
          }))
      else none),
  7,
)

waits : Waits (handle_event upload known).1
unfolding handle ◌>>=◌ get_by_id aws_retry lookup Metadata.to_dynamodb_item
    Metadata.from_dynamodb_item Metadata.parse_status remove_prefix required_fields checksum_item
    optional_flag optional_texts optional_number optional_text status_value create_metadata_record
    make_config duplicate_metadata with_completion validate_event_location make_result str_nat
waits = refl

some_not_none : {i : Item} → some i ≡ none → ⊥
some_not_none h = cc

received : event_of runtime wire raw ≡ ok upload
unfolding event_of get_file_event Queue.read_body model_validate validate valid_event valid_ids
    valid_metadata text_length valid_location valid_bucket_name valid_security valid_variant
received = refl

processed :
    (process_message runtime wire queue handle_event raw known).1.0 "queue" (receipt "r-1")
    ≡ some []
unfolding handle ◌>>=◌ get_by_id aws_retry lookup Metadata.to_dynamodb_item
    Metadata.from_dynamodb_item Metadata.parse_status remove_prefix required_fields checksum_item
    optional_flag optional_texts optional_number optional_text status_value create_metadata_record
    make_config duplicate_metadata with_completion validate_event_location make_result str_nat
    event_of get_file_event Queue.read_body model_validate validate valid_event valid_ids
    valid_metadata text_length valid_location valid_bucket_name valid_security valid_variant
    process_message deliver acknowledge with_handle
processed = refl

deleted-IsSettled_example :
    IsSettled runtime wire memory memory_laws s3 kms "key-1" publish settings upload
deleted-IsSettled_example =
    deleted-IsSettled runtime wire memory memory_laws s3 kms "key-1" publish settings queue Waits
      (λ h n w p. p) raw upload known refl refl refl refl received waits
      (λ waiting. some_not_none (sym processed ∙ waiting))

abbrev delivered : SqsRecord
delivered = record { message_id = "m"; body = "FILE_UPLOADED" }

abbrev reply : RecordReply
reply = record {
  message_id = "m";
  file_id = "file-1";
  event_id = "event-1";
  processing_status = ProcessingStatus.completed;
}

abbrev lambda_world : Disk
lambda_world =
    (record_handler runtime wire
      (service runtime wire memory memory_laws s3 kms "key-1" publish settings) delivered known).1

record_handler-IsReported_example :
    IsReported runtime wire memory memory_laws s3 kms "key-1" publish settings delivered reply
unfolding handle ◌>>=◌ get_by_id aws_retry lookup Metadata.to_dynamodb_item
    Metadata.from_dynamodb_item Metadata.parse_status remove_prefix required_fields checksum_item
    optional_flag optional_texts optional_number optional_text status_value create_metadata_record
    make_config duplicate_metadata with_completion validate_event_location make_result str_nat
    model_validate validate valid_event valid_ids valid_metadata text_length valid_location
    valid_bucket_name valid_security valid_variant record_handler process_record record_event
    unwrap_notification
record_handler-IsReported_example =
    record_handler-IsReported runtime wire memory memory_laws s3 kms "key-1" publish settings
      delivered reply known lambda_world refl refl refl refl
