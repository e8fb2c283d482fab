-- ===== src/Tests/Queue.antt =====
-- The consumer over a queue in memory, and its theorems at concrete data.
use fsamp_processor.Prelude.{
  String, ◌≡◌, refl, true, false, none, some, List, [], ◌∷◌, text_length, ok, raised, Exec,
}
use fsamp_processor.Domain.Errors.{
  Exn, caused, validation, event_validation, client, value_error, make_error,
}
use fsamp_processor.Domain.Events.{FileEvent}
use fsamp_processor.Domain.Wire.{model_validate}
use fsamp_processor.Domain.Validation.{
  validate, valid_event, valid_ids, valid_metadata, valid_location, valid_bucket_name,
  valid_security, valid_variant,
}
use fsamp_processor.Adapters.Queue.{
  RawMessage, Sqs, get_file_event, read_body, event_of, process_message, consume_loop,
}
use fsamp_processor.Adapters.Queue.Disposal.{
  IsUnhandled, process_message-final, process_message-keeps,
}
use fsamp_processor.Adapters.Queue.Endurance.{consume_loop-runs}
use fsamp_processor.Tests.Samples.{runtime, wire, upload}

-- The handles of deleted messages, and of those made visible again.
abbrev Log : Type 0
Log = List String × List String

abbrev queue : Sqs Log
queue = record {
  receive_message =
      λ w. (raised (client (record { code = "Down"; status = 400; text = "down" })), w);
  delete_message = λ h w. (ok tt, (h ∷ w.0, w.1));
  change_message_visibility = λ h n w. (ok tt, (w.0, h ∷ w.1));
  is_stopped = λ w. false;
  sleep = λ n w. w;
}

-- A handler that refuses every event.
abbrev handler : FileEvent → Exec Exn Log (Unit {0})
handler e w = (raised (value_error "busy"), w)

abbrev raw : RawMessage
raw = record { message_id = "m"; receipt_handle = some "r-1"; body = some "FILE_UPLOADED" }

-- A message whose body is no event.
abbrev garbled : RawMessage
garbled = record { message_id = "m"; receipt_handle = some "r-2"; body = some "?" }

unhandled : IsUnhandled runtime wire queue handler raw ([], []) (value_error "busy") ([], [])
unfolding event_of get_file_event read_body model_validate validate valid_event valid_ids
    valid_metadata text_length valid_location valid_bucket_name valid_security valid_variant
unhandled = IsUnhandled.failed upload ([], []) refl refl

process_message-keeps_example : (process_message runtime wire queue handler raw ([], [])).1.0 ≡ []
process_message-keeps_example =
    process_message-keeps runtime wire queue handler (λ w. w.0 ≡ []) (λ h n w p. p) raw ([], [])
      ([], []) (value_error "busy") unhandled refl

abbrev refusal : Exn
refusal =
    caused (make_error event_validation "SQS body is not a valid canonical FSAMP event" none false)
      (validation "?")

invalid : IsUnhandled runtime wire queue handler garbled ([], []) refusal ([], [])
unfolding event_of get_file_event read_body model_validate
invalid = IsUnhandled.invalid refl

process_message-final_example :
    process_message runtime wire queue handler garbled ([], []) ≡ (ok tt, ([], []))
unfolding make_error
process_message-final_example =
    process_message-final runtime wire queue handler garbled ([], []) ([], []) refusal invalid refl

-- The queue is down in every pass.
consume_loop-runs_example :
    (consume_loop runtime wire queue handler 9 (true, 0) ([], [])).0 ≡ (true, 0)
consume_loop-runs_example = consume_loop-runs runtime wire queue handler 9 ([], [])
