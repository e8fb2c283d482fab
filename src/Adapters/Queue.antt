-- ===== src/Adapters/Queue.antt =====
-- src/processor/adapters/inbound/sqs_consumer.py, and `SQSMessageWrapper.get_file_event` of
-- src/processor/domain/events.py.
pub mod Disposal
pub mod Endurance
use fsamp_processor.Prelude.{
  ℕ, zero, suc, ◌+◌, ◌^◌, String, ◌==◌, Bool, true, false, ◌||◌, Option, none, some, List, [], ◌∷◌,
  Result, ok, raised, Exec, ◌>>=◌, ◌>>◌, pure, raise, try_except, if◌then◌else◌, leb, truthy,
}
use fsamp_processor.Domain.Errors.{
  Exn, Kind, DomainError, domain, caused, client, other, key_error, validation, make_error,
  event_validation, non_retryable, message,
}
use fsamp_processor.Domain.Events.{Runtime, FileEvent}
use fsamp_processor.Domain.Attributes.{Json, Fields, text_json, object_json, no_fields, field}
use fsamp_processor.Domain.Wire.{Wire, model_validate}

-- A message as boto3 gives it; the body may be missing.
pub record RawMessage : Type 0 where
  pub message_id : String
  pub receipt_handle : Option String
  pub body : Option String

unfoldable pub field_at : String → Fields → Option Json
field_at name no_fields = none
field_at name (field n j fields) = if n == name then some j else field_at name fields

abbrev pub is_notification : Option Json → Bool
is_notification (some (text_json t)) = t == "Notification"
is_notification _ = false

abbrev text_of_message : Option Json → Result Exn String
text_of_message (some (text_json t)) = ok t
text_of_message (some _) = raised (validation "Message")
text_of_message none = raised (key_error "Message")

abbrev pub chain {ℓ κ} :
    {A : Type ℓ} {B : Type κ} → Result Exn A → (A → Result Exn B) → Result Exn B
chain (ok a) f = f a
chain (raised x) f = raised x

-- The event in the body, directly or in a notification of SNS. pydantic refuses a body that is no object.
unfoldable pub read_body : Runtime → Wire → Json → Result Exn FileEvent
unfolding field_at model_validate
read_body R W (object_json fields) =
    if is_notification (field_at "Type" fields)
    then chain (text_of_message (field_at "Message" fields))
        (λ t. chain (W.loads t) (model_validate R W))
    else model_validate R W (object_json fields)
read_body R W j = model_validate R W j

abbrev as_invalid : Result Exn FileEvent → Result Exn FileEvent
as_invalid (ok e) = ok e
as_invalid (raised x) = raised (
    caused (make_error event_validation "SQS body is not a valid canonical FSAMP event" none false)
      x)

unfoldable pub get_file_event : Runtime → Wire → String → Result Exn FileEvent
unfolding read_body
get_file_event R W body = as_invalid (chain (W.loads body) (read_body R W))

unfoldable pub event_of : Runtime → Wire → RawMessage → Result Exn FileEvent
unfolding get_file_event
event_of R W m = elim m.body [
  | some body ↦ get_file_event R W body
  | none ↦ raised (key_error "Body")
]

-- The queue, the consumer's shutdown event, which others set, and the process's clock.
pub record Sqs (World : Type 0) : Type 0 where
  pub receive_message : Exec Exn World (List RawMessage)
  pub delete_message : String → Exec Exn World (Unit {0})
  pub change_message_visibility : String → ℕ → Exec Exn World (Unit {0})
  pub is_stopped : World → Bool
  pub sleep : ℕ → World → World

abbrev left_to_redrive : Kind → Bool
left_to_redrive Kind.event_validation = true
left_to_redrive Kind.non_retryable = true
left_to_redrive _ = false

-- Whether the exception is an EventValidationError or a NonRetryableError.
abbrev pub is_final : Exn → Bool
is_final (domain e) = left_to_redrive e.kind
is_final (caused e c) = left_to_redrive e.kind
is_final _ = false

-- A ClientError raised as a MessageError.
unfoldable pub message_failure : String → Exn → Exn
message_failure prefix (client e) = caused (make_error message prefix none false) (client e)
message_failure prefix x = x

-- `min(2**n, 60)`
abbrev backoff : ℕ → ℕ
backoff n = if leb (2 ^ n) 60 then 2 ^ n else 60

module _ (R : Runtime) (W : Wire) {World : Type 0} (Q : Sqs World)
    (handler : FileEvent → Exec Exn World (Unit {0})) where
  -- A call for a receipt handle that is there and not empty.
  unfoldable pub with_handle :
      Option String → (String → Exec Exn World (Unit {0})) → Exec Exn World (Unit {0})
  with_handle none call = pure tt
  with_handle (some handle) call = if truthy handle then call handle else pure tt

  unfoldable pub acknowledge : Option String → Exec Exn World (Unit {0})
  unfolding with_handle message_failure
  acknowledge handle = with_handle handle (λ h.
      try_except (Q.delete_message h)
        (λ x. raise (message_failure "Failed to acknowledge message" x)))

  unfoldable pub reject : Option String → Bool → Exec Exn World (Unit {0})
  unfolding with_handle message_failure
  reject handle requeue = with_handle handle (λ h.
      try_except (if requeue then Q.change_message_visibility h 0 else pure tt)
        (λ x. raise (message_failure "Failed to reject message" x)))

  -- The body of the `try`.
  unfoldable pub deliver : RawMessage → Exec Exn World (Unit {0})
  unfolding event_of acknowledge
  deliver m = do event ← (λ w. (event_of R W m, w)); handler event; acknowledge m.receipt_handle

  unfoldable pub process_message : RawMessage → Exec Exn World (Unit {0})
  unfolding deliver reject
  process_message m =
      try_except (deliver m) (λ x. reject m.receipt_handle (if is_final x then false else true))

  unfoldable pub process_messages : List RawMessage → Exec Exn World (Unit {0})
  unfolding process_message
  process_messages [] w = (ok tt, w)
  process_messages (m ∷ messages) w =
      if Q.is_stopped w then (ok tt, w) else (do process_message m; process_messages messages) w

  -- tenacity's `retry` on a ClientError, with `left` attempts to come. Without `reraise` the last
  -- one is reported as a RetryError.
  unfoldable pub attempts :
      ℕ → Result Exn (List RawMessage) × World → Result Exn (List RawMessage) × World
  attempts zero (raised (client e), w) = (raised (other "RetryError"), w)
  attempts (suc left) (raised (client e), w) = attempts left (Q.receive_message w)
  attempts left out = out

  unfoldable pub receive_messages : Exec Exn World (List RawMessage)
  unfolding attempts
  receive_messages w = attempts 2 (Q.receive_message w)

  -- Whether the consumer runs, and the errors in a row.
  abbrev pub Loop : Type 0
  Loop = Bool × ℕ

  -- The `except` clauses of the loop.
  unfoldable pub after_pass : ℕ → Result Exn (Unit {0}) × World → Loop × World
  after_pass errors (ok u, w) = ((true, 0), w)
  after_pass errors (raised (client e), w) =
      if leb 5 (errors + 1)
      then ((false, errors + 1), w)
      else ((true, errors + 1), Q.sleep (backoff (errors + 1)) w)
  after_pass errors (raised x, w) = ((true, errors), Q.sleep 5 w)

  unfoldable pub pass : Exec Exn World (Unit {0})
  unfolding receive_messages process_messages
  pass = do messages ← receive_messages; process_messages messages

  -- `_consume_loop` for as many passes as there is fuel, or until it stops.
  unfoldable pub consume_loop : ℕ → Loop → World → Loop × World
  unfolding after_pass pass
  consume_loop zero s w = (s, w)
  consume_loop (suc fuel) (false, errors) w = ((false, errors), w)
  consume_loop (suc fuel) (true, errors) w = elim (Q.is_stopped w) [
    | true ↦ ((true, errors), w)
    | false ↦ let (s, v) = after_pass errors (pass w) in consume_loop fuel s v
  ]
