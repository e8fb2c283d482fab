-- ===== src/Adapters/Outbox.antt =====
-- src/processor/adapters/outbound/outbox_repo.py: the metadata update and the outbox row in one
-- transaction, with the detection of a replay.
pub mod Replay
pub mod Transaction
pub mod Commit
pub mod Stale
pub mod Marks
use fsamp_processor.Prelude.{
  ℕ, zero, suc, String, ◌<>◌, ◌==◌, Bool, true, false, not, ◌&&◌, Option, none, some, List, [], ◌∷◌,
  lookup, Result, ok, raised, Exec, pure, raise, ◌>>=◌, ◌>>◌, try_except, if◌then◌else◌, nat_eq,
}
use fsamp_processor.Domain.Errors.{Exn, client, ClientError, storage_error}
use fsamp_processor.Domain.Events.{Instant, Runtime}
use fsamp_processor.Domain.Wire.{Wire}
use fsamp_processor.Domain.Attributes.{
  Json, null_json, text_json, number_json, bool_json, array_json, object_json, Elements,
  no_elements, element, Fields, no_fields, field, Item, text_of,
}
use fsamp_processor.Domain.Models.{status_value, ProcessingClaim, MetadataRecord, OutboxEvent}
use fsamp_processor.Domain.Models.Outbox.{to_dynamodb_item, from_dynamodb_item}
use fsamp_processor.Dynamo.{Condition, exists, missing, both, Key, Request, Put, Client}
use fsamp_processor.Dynamo.Lawful.{cancelled_code}
use fsamp_processor.Adapters.Retry.{aws_retry}
use fsamp_processor.Adapters.Metadata.{
  metadata_key, fence, is_conditional_failure, build_metadata_update, Claim?, save_removes,
}

-- `==` of two JSON values: a Boolean equals its number, and the order of an object's fields does not
-- count.
unfoldable pub field_of : String → Fields → Option Json
field_of k no_fields = none
field_of k (field n v f) = let rest = field_of k f in if n == k then some v else rest

unfoldable pub size_of : Fields → ℕ
size_of no_fields = 0
size_of (field n v f) = suc (size_of f)

abbrev bit : Bool → ℕ
bit true = 1
bit false = 0

unfoldable mutual
  pub json_eq : Json → Json → Bool
  json_eq null_json null_json = true
  json_eq (text_json s) (text_json t) = s == t
  json_eq (number_json m) (number_json n) = nat_eq m n
  json_eq (number_json m) (bool_json b) = nat_eq m (bit b)
  json_eq (bool_json a) (number_json n) = nat_eq (bit a) n
  json_eq (bool_json a) (bool_json b) = nat_eq (bit a) (bit b)
  json_eq (array_json a) (array_json b) = elements_eq a b
  json_eq (object_json f) (object_json g) = nat_eq (size_of f) (size_of g) && fields_in f g
  json_eq _ _ = false

  elements_eq : Elements → Elements → Bool
  elements_eq no_elements no_elements = true
  elements_eq (element x a) (element y b) = json_eq x y && elements_eq a b
  elements_eq _ _ = false

  fields_in : Fields → Fields → Bool
  fields_in no_fields g = true
  fields_in (field n v f) g =
      elim (field_of n g) [ none ↦ false | some u ↦ json_eq v u ] && fields_in f g

unfoldable pub transaction_condition : Claim? → Condition
transaction_condition none = both (exists "PK") (exists "SK")
transaction_condition (some c) = both (both (exists "PK") (exists "SK")) (fence c)

unfoldable pub metadata_update : String → Instant → MetadataRecord → Claim? → Request
metadata_update table now r claim = record {
  table = table;
  key = metadata_key r.file_id;
  condition = transaction_condition claim;
  update = record { sets = build_metadata_update now r; removes = save_removes claim };
}

abbrev pub event_key : OutboxEvent → Key
event_key e = record { pk = e.outbox_partition; sk = "EVENT#" <> e.event_id }

abbrev same_optional : Option String → Option String → Bool
same_optional none none = true
same_optional (some a) (some b) = a == b
same_optional _ _ = false

-- What `_metadata_has_result` asks of the row.
unfoldable pub has_result : MetadataRecord → Item → Bool
has_result r i =
    same_optional (text_of (lookup "status" i)) (some (status_value r.status))
    && same_optional (text_of (lookup "lastProcessedEventId" i)) r.last_processed_event_id

-- What `_is_idempotent_replay` asks of the persisted event.
unfoldable pub same_event : OutboxEvent → OutboxEvent → Bool
same_event persisted e =
    persisted.event_id == e.event_id
    && persisted.aggregate_id == e.aggregate_id
    && json_eq persisted.payload e.payload

module _ (R : Runtime) (W : Wire) (C : Client) (metadata_table outbox_table : String) where
  unfoldable pub event_put : OutboxEvent → Put
  event_put e = record {
    table = outbox_table;
    item = to_dynamodb_item R W e;
    condition = both (missing "PK") (missing "SK");
  }

  -- A read that a `ClientError` makes `false`.
  abbrev pub read_or_false :
      Result Exn (Option Item) × C.World
      → (Option Item → Result Exn Bool)
      → Result Exn Bool × C.World
  read_or_false (ok o, w) k = (k o, w)
  read_or_false (raised (client e), w) k = (ok false, w)
  read_or_false (raised e, w) k = (raised e, w)

  unfoldable pub result_in_row : MetadataRecord → Option Item → Result Exn Bool
  unfolding has_result
  result_in_row r none = ok (has_result r [])
  result_in_row r (some i) = ok (has_result r i)

  unfoldable pub metadata_has_result : MetadataRecord → Exec Exn C.World Bool
  unfolding result_in_row
  metadata_has_result r w =
      read_or_false (C.get_item metadata_table (metadata_key r.file_id) w) (result_in_row r)

  abbrev pub compared : OutboxEvent → Result Exn OutboxEvent → Result Exn Bool
  compared e (ok persisted) = ok (same_event persisted e)
  compared e (raised x) = raised x

  -- The row that was found; a row that cannot be read raises.
  unfoldable pub same_row : OutboxEvent → Option Item → Result Exn Bool
  unfolding same_event
  same_row e none = ok false
  same_row e (some []) = ok false
  same_row e (some (a ∷ i)) = compared e (from_dynamodb_item R W (a ∷ i))

  unfoldable pub is_idempotent_replay : ClientError → OutboxEvent → Exec Exn C.World Bool
  unfolding same_row
  is_idempotent_replay error e w =
      if not (error.code == cancelled_code)
      then (ok false, w)
      else read_or_false (C.get_item outbox_table (event_key e) w) (same_row e)

  abbrev pub update_failed : ClientError → Exn
  update_failed e =
      storage_error ("Failed to restore idempotent metadata state: " <> e.text) (client e)

  -- The update of the metadata after a replay was refused.
  unfoldable pub tolerate : MetadataRecord → Claim? → Exn → Exec Exn C.World (Unit {0})
  unfolding metadata_has_result
  tolerate r none (client e) = raise (update_failed e)
  tolerate r (some c) (client e) =
      if is_conditional_failure e
      then (do has ← metadata_has_result r; if has then pure tt else raise (update_failed e))
      else raise (update_failed e)
  tolerate r claim e = raise e

  unfoldable pub restore : Request → MetadataRecord → Claim? → Exec Exn C.World (Unit {0})
  unfolding tolerate
  restore request r claim = try_except (do _ ← C.update_item request; pure tt) (tolerate r claim)

  -- The `except ClientError` clause of `save_with_outbox`.
  unfoldable pub replay :
      Request → MetadataRecord → OutboxEvent → Claim? → Exn → Exec Exn C.World (Unit {0})
  unfolding restore is_idempotent_replay
  replay request r e claim (client error) = do
    replayed ← is_idempotent_replay error e
    if replayed
        then restore request r claim
        else raise
            (storage_error ("Failed to save metadata with outbox: " <> error.text) (client error))
  replay request r e claim error = raise error

  unfoldable pub save_with_outbox :
      MetadataRecord → OutboxEvent → Claim? → Exec Exn C.World (Unit {0})
  unfolding metadata_update event_put replay
  save_with_outbox r e claim w =
      let (now, w1) = C.now w in
      let request = metadata_update metadata_table now r claim in
      try_except (aws_retry 3 (C.transact_write_items e.event_id request (event_put e)))
        (replay request r e claim) w1
