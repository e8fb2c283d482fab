-- ===== src/Publisher/Rows.antt =====
-- The requests of the outbox publisher on an outbox row.
use fsamp_processor.Prelude.{ℕ, ◌+◌, String, ◌<>◌, List, [], ◌∷◌, text_take}
use fsamp_processor.Domain.Events.{Instant}
use fsamp_processor.Domain.Attributes.{text, number}
use fsamp_processor.Domain.Models.{OutboxEvent, OutboxStatus}
use fsamp_processor.Domain.Models.Outbox.{outbox_status_value}
use fsamp_processor.Dynamo.{
  value, if_not_exists, plus, Condition, missing, equals, below, both, either, Key, Request,
}
use fsamp_processor.Adapters.Metadata.{epoch}

-- `_key`
abbrev pub row_key : OutboxEvent → Key
row_key e = record { pk = e.outbox_partition; sk = "EVENT#" <> e.event_id }

abbrev pub has_status : OutboxStatus → Condition
has_status s = equals "status" (text (outbox_status_value s))

-- An event that waits, or whose lease has expired, with retries left.
unfoldable pub claim_condition : Instant → ℕ → Condition
unfolding outbox_status_value
claim_condition now max_retries =
    both
      (either (either (has_status OutboxStatus.pending) (has_status OutboxStatus.failed))
        (both (has_status OutboxStatus.publishing) (below "publisherClaimExpiresAt" (epoch now))))
      (either (missing "retryCount") (below "retryCount" max_retries))

unfoldable pub claim_request : String → Instant → String → ℕ → ℕ → OutboxEvent → Request
unfolding claim_condition outbox_status_value
claim_request table now token ttl max_retries e = record {
  table = table;
  key = row_key e;
  condition = claim_condition now max_retries;
  update = record {
    sets =
        ("status", value (text (outbox_status_value OutboxStatus.publishing)))
        ∷ ("publishingStartedAt", value (text now.iso))
        ∷ ("publisherClaimExpiresAt", value (number (epoch now + ttl)))
        ∷ ("publisherClaimToken", value (text token))
        ∷ ("GSI1PK", value (text ("STATUS#PUBLISHING#" <> e.outbox_shard)))
        ∷ [];
    removes = [];
  };
}

-- The condition of a commit: the row is being published under the token.
unfoldable pub owned : String → Condition
unfolding outbox_status_value
owned token = both (has_status OutboxStatus.publishing) (equals "publisherClaimToken" (text token))

unfoldable pub claim_attributes : List String
claim_attributes = "publishingStartedAt" ∷ "publisherClaimExpiresAt" ∷ "publisherClaimToken" ∷ []

unfoldable pub published_request : String → Instant → String → ℕ → OutboxEvent → Request
unfolding owned claim_attributes outbox_status_value
published_request table now token retention e = record {
  table = table;
  key = row_key e;
  condition = owned token;
  update = record {
    sets =
        ("status", value (text (outbox_status_value OutboxStatus.published)))
        ∷ ("publishedAt", value (text now.iso))
        ∷ ("GSI1PK", value (text ("STATUS#PUBLISHED#" <> e.outbox_shard)))
        ∷ ("ttl", value (number (epoch now + retention)))
        ∷ [];
    removes = claim_attributes;
  };
}

unfoldable pub failed_request : String → String → String → OutboxEvent → Request
unfolding owned claim_attributes outbox_status_value
failed_request table error token e = record {
  table = table;
  key = row_key e;
  condition = owned token;
  update = record {
    sets =
        ("status", value (text (outbox_status_value OutboxStatus.failed)))
        ∷ ("lastError", value (text (text_take 2000 error)))
        ∷ ("retryCount", plus (if_not_exists "retryCount" (number 0)) (value (number 1)))
        ∷ ("GSI1PK", value (text ("STATUS#FAILED#" <> e.outbox_shard)))
        ∷ [];
    removes = claim_attributes;
  };
}
