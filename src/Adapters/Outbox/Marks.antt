-- ===== src/Adapters/Outbox/Marks.antt =====
-- `mark_published` and `mark_failed` of src/processor/adapters/outbound/outbox_repo.py.
use fsamp_processor.Prelude.{
  ℕ, ◌+◌, String, ◌<>◌, ◌≡◌, ◌∙◌, ap, inl, inr, true, false, Option, none, some, [], ◌∷◌, lookup,
  Result, ok, raised, Exec, pure, continue, truthy, if◌then◌else◌, text_take,
}
use fsamp_processor.Domain.Errors.{Exn, client}
use fsamp_processor.Domain.Events.{Instant, Runtime}
use fsamp_processor.Domain.Attributes.{text, number, Item}
use fsamp_processor.Domain.Models.{OutboxStatus, outbox_shard}
use fsamp_processor.Domain.Models.Outbox.{outbox_status_value}
use fsamp_processor.Dynamo.{value, if_not_exists, plus, differs, Key, Request, Client}
use fsamp_processor.Dynamo.Semantics.{holds, item_of}
use fsamp_processor.Dynamo.Lawful.{IsLawful, SameRows}
use fsamp_processor.Adapters.Retry.{
  aws_retry, aws_retry-Attempts, Attempts, last, again, outcome_cases,
}
use fsamp_processor.Adapters.Metadata.{client_to_storage, epoch}

-- `_outbox_key`
unfoldable pub outbox_key : String → String → Option String → Key
outbox_key event_id aggregate_type none = record {
  pk = "OUTBOX#" <> aggregate_type;
  sk = "EVENT#" <> event_id;
}
outbox_key event_id aggregate_type (some aggregate_id) = record {
  pk = "OUTBOX#" <> aggregate_type <> "#" <> aggregate_id;
  sk = "EVENT#" <> event_id;
}

-- `outbox_shard(aggregate_id) if aggregate_id else "00"`
unfoldable pub shard_of : Runtime → Option String → String
shard_of R none = "00"
shard_of R (some aggregate_id) = if truthy aggregate_id then outbox_shard R aggregate_id else "00"

unfoldable pub published_request :
    Runtime → String → ℕ → Instant → String → String → Option String → Request
unfolding outbox_key shard_of outbox_status_value
published_request R table retention now event_id aggregate_type aggregate_id = record {
  table = table;
  key = outbox_key event_id aggregate_type aggregate_id;
  condition = differs "status" (text (outbox_status_value OutboxStatus.published));
  update = record {
    sets =
        ("status", value (text (outbox_status_value OutboxStatus.published)))
        ∷ ("publishedAt", value (text now.iso))
        ∷ ("GSI1PK", value (text ("STATUS#PUBLISHED#" <> shard_of R aggregate_id)))
        ∷ ("ttl", value (number (epoch now + retention)))
        ∷ [];
    removes = [];
  };
}

unfoldable pub failed_request :
    Runtime → String → String → String → String → Option String → Request
unfolding outbox_key shard_of outbox_status_value
failed_request R table event_id error aggregate_type aggregate_id = record {
  table = table;
  key = outbox_key event_id aggregate_type aggregate_id;
  condition = differs "status" (text (outbox_status_value OutboxStatus.published));
  update = record {
    sets =
        ("status", value (text (outbox_status_value OutboxStatus.failed)))
        ∷ ("lastError", value (text (text_take 2000 error)))
        ∷ ("retryCount", plus (if_not_exists "retryCount" (number 0)) (value (number 1)))
        ∷ ("GSI1PK", value (text ("STATUS#FAILED#" <> shard_of R aggregate_id)))
        ∷ [];
    removes = [];
  };
}

module _ (R : Runtime) (C : Client) (table : String) (retention : ℕ) where
  abbrev pub finish : String → Result Exn Item × C.World → Result Exn (Unit {0}) × C.World
  finish prefix out = continue (client_to_storage prefix out) (λ _. pure tt)

  unfoldable pub mark_published : String → String → Option String → Exec Exn C.World (Unit {0})
  unfolding published_request
  mark_published event_id aggregate_type aggregate_id = aws_retry 3 λ w.
      let (now, w1) = C.now w in
      finish "Failed to mark outbox event published: " (
        C.update_item (published_request R table retention now event_id aggregate_type aggregate_id)
          w1)

  unfoldable pub mark_failed :
      String → String → String → Option String → Exec Exn C.World (Unit {0})
  unfolding failed_request
  mark_failed event_id error aggregate_type aggregate_id = aws_retry 3 λ w.
      finish "Failed to mark outbox event failed: "
        (C.update_item (failed_request R table event_id error aggregate_type aggregate_id) w)

module _ (R : Runtime) (C : Client) (L : IsLawful C) (table : String) (retention : ℕ)
    (event_id error aggregate_type : String) (aggregate_id : Option String) where
  abbrev IsPublished : C.World → Type 0
  IsPublished w =
      lookup "status" (item_of (L.rows w table (outbox_key event_id aggregate_type aggregate_id)))
      ≡ some (text "PUBLISHED")

  abbrev request : Request
  request = failed_request R table event_id error aggregate_type aggregate_id

  request_refused :
      (w : C.World)
      → IsPublished w
      → holds request.condition (item_of (L.rows w request.table request.key)) ≡ false
  unfolding failed_request holds outbox_status_value
  request_refused w p = rw p

  -- One attempt.
  abbrev attempt : Exec Exn C.World (Unit {0})
  attempt w =
      finish R C table retention "Failed to mark outbox event failed: " (C.update_item request w)

  finish-SameRows :
      (prefix : String) (w : C.World) (out : Result Exn Item × C.World)
      → SameRows (L.rows w) (L.rows out.1)
      → SameRows (L.rows w) (L.rows (finish R C table retention prefix out).1)
  finish-SameRows prefix w (ok i, v) same = same
  finish-SameRows prefix w (raised (client x), v) same = same
  finish-SameRows prefix w (raised _, v) same = same

  attempt-SameRows : (w : C.World) → IsPublished w → SameRows (L.rows w) (L.rows (attempt w).1)
  attempt-SameRows w p =
      finish-SameRows _ w (C.update_item request w)
        (elim (outcome_cases (C.update_item request w)) [
          | inl (i, u, q) ↦
              absurd (clash (L.update_item-ok request w i (ap (λ o. o.0) q)).condition)
          | inr (x, u, q) ↦ elim (L.update_item-raised request w x (ap (λ o. o.0) q)) [
            | inl same ↦ same
            | inr (i, applied) ↦ absurd (clash applied.condition)
          ]
        ])
    where
      clash : holds request.condition (item_of (L.rows w request.table request.key)) ≡ true → ⊥
      clash held = let f = request_refused w p in cc (held, f)

  Attempts-SameRows :
      {out : Result Exn (Unit {0}) × C.World} {left : ℕ} {w : C.World} {k : ℕ}
      → Attempts attempt out left w k
      → IsPublished w
      → SameRows (L.rows w) (L.rows out.1)
  Attempts-SameRows (last left w q f) p = rw q at (attempt-SameRows w p)
  Attempts-SameRows (again left w u x k q h run) p =
      let one : SameRows (L.rows w) (L.rows u) = rw q at (attempt-SameRows w p) in
      λ t j.
        Attempts-SameRows run
          (ap (λ o. lookup "status" (item_of o))
              (one table (outbox_key event_id aggregate_type aggregate_id))
            ∙ p)
          t j
        ∙ one t j

  -- Marking an event failed never downgrades a published row: no row of any table changes.
  pub mark_failed-published :
      (w : C.World)
      → IsPublished w
      → SameRows
          (L.rows w)
          (L.rows (mark_failed R C table retention event_id error aggregate_type aggregate_id w).1)
  unfolding mark_failed
  mark_failed-published w p =
      let (k, le, run) = aws_retry-Attempts 3 attempt w in Attempts-SameRows run p
