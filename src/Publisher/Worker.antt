-- ===== src/Publisher/Worker.antt =====
-- The operations of the outbox publisher: claim, publish, mark, and the handler of a stream record.
use fsamp_processor.Prelude.{
  String, ◌<>◌, ◌==◌, Bool, true, false, not, Option, none, some, [], ◌∷◌, ◌++◌, Dict, lookup,
  Result, ok, raised, Exec, ◌>>=◌, ◌>>◌, pure, raise, try_except, if◌then◌else◌,
}
use fsamp_processor.Domain.Errors.{Exn, client, value_error, lease_error, str_exn}
use fsamp_processor.Domain.Events.{Runtime, Instant}
use fsamp_processor.Domain.Wire.{Wire}
use fsamp_processor.Domain.Attributes.{Item, Value, text_value, dynamodb_value}
use fsamp_processor.Domain.Models.{OutboxEvent, OutboxStatus, OutboxEventType}
use fsamp_processor.Domain.Models.Outbox.{
  outbox_status_value, from_dynamodb_item, to_sns_message, to_sns_attributes,
}
use fsamp_processor.Dynamo.{Client}
use fsamp_processor.Adapters.Metadata.{is_conditional_failure}
use fsamp_processor.Publisher.Settings.{
  Config, get_max_retry_count, get_claim_ttl_seconds, get_retention_seconds,
  get_topic_arn_for_event,
}
use fsamp_processor.Publisher.Rows.{row_key, claim_request, published_request, failed_request}

-- A call of `publish` of the SNS client: the body's text and each attribute's string value.
pub record Message : Type 0 where
  pub topic : String
  pub body : String
  pub attributes : Dict String

-- A record of the table's stream, with the name of its event.
pub record StreamRecord : Type 0 where
  pub event_name : String
  pub new_image : Option Item

-- What the handler returns for a record.
pub data Reply : Type 0 where
  not_insert not_pending already_published : Reply
  published : String → OutboxEventType → Reply

abbrev pub is_published : OutboxStatus → Bool
is_published OutboxStatus.published = true
is_published _ = false

abbrev lift {ℓ} : {W : Type 0} {A : Type ℓ} → Result Exn A → Exec Exn W A
lift r w = (r, w)

-- `_dynamodb_value(new_image.get("status")) != "PENDING"`, negated
abbrev pub is_pending : Value → Bool
is_pending (text_value t) = t == "PENDING"
is_pending _ = false

-- The texts of a `ClaimUnavailableError`, by the status that was read.
abbrev pub not_claimable : String → String
not_claimable status =
    "Outbox event is not terminal and cannot be claimed (status=" <> status <> ")"

abbrev pub lost : String → String → String
lost what status = "Publisher lease was lost before " <> what

module _ (R : Runtime) (W : Wire) (C : Client) (publish : Message → Exec Exn C.World String)
    (G : Config) where
  abbrev pub read_item : Option Item → Result Exn (Option OutboxEvent)
  read_item none = ok none
  read_item (some []) = ok none
  read_item (some (a ∷ i)) = elim (from_dynamodb_item R W (a ∷ i)) [
    | ok e ↦ ok (some e)
    | raised x ↦ raised x
  ]

  unfoldable pub read_live_event : OutboxEvent → Exec Exn C.World (Option OutboxEvent)
  read_live_event e = do item ← C.get_item G.table (row_key e); lift (read_item item)

  -- A refused request is in order if the row is published, and the lease is lost otherwise.
  unfoldable pub unless_published {ℓ} :
      {A : Type ℓ} → A → (String → String) → Option OutboxEvent → Exec Exn C.World A
  unless_published a message none = raise (lease_error (message "MISSING"))
  unless_published a message (some live) =
      if is_published live.status
      then pure a
      else raise (lease_error (message (outbox_status_value live.status)))

  unfoldable pub refused {ℓ} :
      {A : Type ℓ} → OutboxEvent → A → (String → String) → Exn → Exec Exn C.World A
  unfolding read_live_event unless_published
  refused e a message (client x) =
      if is_conditional_failure x
      then (do live ← read_live_event e; unless_published a message live)
      else raise (client x)
  refused e a message x = raise x

  -- The rest of the claim, by the instant and the token.
  unfoldable pub claim_at : OutboxEvent → Instant → String → Exec Exn C.World (Option String)
  unfolding refused
  claim_at e now token = do
    ttl ← lift (get_claim_ttl_seconds G)
    max_retries ← lift (get_max_retry_count G)
    try_except
        (do
          _ ← C.update_item (claim_request G.table now token ttl max_retries e)
          pure (some token))
        (refused e none not_claimable)

  unfoldable pub claim_event_for_publish : OutboxEvent → Exec Exn C.World (Option String)
  unfolding claim_at
  claim_event_for_publish e w =
      let (now, w1) = C.now w in let (token, w2) = C.uuid4 w1 in claim_at e now token w2

  unfoldable pub publish_to_sns : OutboxEvent → Exec Exn C.World String
  publish_to_sns e = do
    event ← lift (to_sns_message R W e)
    topic ← lift (get_topic_arn_for_event G e)
    publish (record {
      topic = topic;
      body = W.compact (W.dump event);
      attributes =
          to_sns_attributes e
          ++ ("fileId", event.file_id.text)
            ∷ ("correlationId", event.correlation_id.text)
            ∷ ("idempotencyKey", e.event_id)
            ∷ [];
    })

  unfoldable pub commit_at : OutboxEvent → String → Instant → Exec Exn C.World (Unit {0})
  unfolding refused
  commit_at e token now =
      try_except
        (do
          retention ← lift (get_retention_seconds G)
          _ ← C.update_item (published_request G.table now token retention e)
          pure tt)
        (refused e tt (lost "commit"))

  unfoldable pub mark_event_published : OutboxEvent → String → Exec Exn C.World (Unit {0})
  unfolding commit_at
  mark_event_published e token w = let (now, w1) = C.now w in commit_at e token now w1

  unfoldable pub mark_event_failed : OutboxEvent → String → String → Exec Exn C.World (Unit {0})
  unfolding refused
  mark_event_failed e error token =
      try_except (do _ ← C.update_item (failed_request G.table error token e); pure tt)
        (refused e tt (lost "failure commit"))

  -- Publishing under a lease.
  unfoldable pub publish_claimed : OutboxEvent → String → Exec Exn C.World (Unit {0})
  unfolding publish_to_sns mark_event_published
  publish_claimed e token = do _ ← publish_to_sns e; mark_event_published e token

  -- The failure is recorded if a lease is held, and the exception raised again.
  unfoldable pub give_up : OutboxEvent → Option String → Exn → Exec Exn C.World Reply
  unfolding mark_event_failed
  give_up e none error = raise error
  give_up e (some token) error = do
    try_except (mark_event_failed e (str_exn error) token) (λ _. pure tt)
    raise error

  -- The rest of the `try` statement, by what the claim gave.
  unfoldable pub after_claim : OutboxEvent → Option String → Exec Exn C.World Reply
  unfolding publish_claimed give_up
  after_claim e none = pure already_published
  after_claim e (some token) =
      try_except (do publish_claimed e token; pure (published e.event_id e.event_type))
        (give_up e (some token))

  unfoldable pub publish_event : OutboxEvent → Exec Exn C.World Reply
  unfolding claim_event_for_publish after_claim
  publish_event e = do token ← claim_event_for_publish e; after_claim e token

  unfoldable pub handle_image : Item → Exec Exn C.World Reply
  unfolding publish_event
  handle_image image =
      if not (is_pending (dynamodb_value (lookup "status" image)))
      then pure not_pending
      else (do e ← lift (from_dynamodb_item R W image); publish_event e)

  -- An image that is empty counts as missing.
  unfoldable pub handle_insert : Option Item → Exec Exn C.World Reply
  unfolding handle_image
  handle_insert none = raise (value_error "DynamoDB INSERT record is missing NewImage")
  handle_insert (some []) = raise (value_error "DynamoDB INSERT record is missing NewImage")
  handle_insert (some (a ∷ i)) = handle_image (a ∷ i)

  unfoldable pub record_handler : StreamRecord → Exec Exn C.World Reply
  unfolding handle_insert
  record_handler r =
      if not (r.event_name == "INSERT") then pure not_insert else handle_insert r.new_image
