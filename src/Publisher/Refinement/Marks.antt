-- ===== src/Publisher/Refinement/Marks.antt =====
-- What the marks of a publisher do to an outbox row.
use fsamp_processor.Prelude.{
  ℕ, ◌+◌, String, ◌≡◌, refl, ◌∙◌, ap, true, Option, none, some, arith, or_else,
}
use fsamp_processor.Domain.Attributes.{text, number, Item}
use fsamp_processor.Domain.Events.{Instant}
use fsamp_processor.Domain.Models.{OutboxEvent, OutboxStatus}
use fsamp_processor.Domain.Models.Outbox.{outbox_status_value}
use fsamp_processor.Dynamo.{Request, value, plus, if_not_exists}
use fsamp_processor.Dynamo.Semantics.{
  holds, eval, updated, removed, assigned, item_of, lookup-updated, updated-evaluates, eval-counter,
  holds-both, holds-equals_text,
}
use fsamp_processor.Publisher.Rows.{
  row_key, owned, claim_attributes, published_request, failed_request,
}
use fsamp_processor.Publisher.Machine.{View}
use fsamp_processor.Publisher.Refinement.{at, failures_at, IsView, lookup-base}

-- What the condition of a mark found on the row.
pub owned_held :
    (token : String) (row : Option Item)
    → holds (owned token) (item_of row) ≡ true
    → (at "status" row ≡ some (text "PUBLISHING"))
      × (at "publisherClaimToken" row ≡ some (text token))
unfolding owned outbox_status_value
owned_held token row h =
    let (s, t) = holds-both _ _ (item_of row) h in
    (holds-equals_text _ _ _ s, holds-equals_text _ _ _ t)

-- The attributes after `publish`.
module _ (table : String) (now : Instant) (token : String) (retention : ℕ) (e : OutboxEvent)
    (row : Option Item) (i : Item)
    (h : updated (published_request table now token retention e) row ≡ some i) where
  abbrev committed : Request
  committed = published_request table now token retention e

  pub publish_status : at "status" (some i) ≡ some (text "PUBLISHED")
  unfolding published_request claim_attributes removed eval assigned outbox_status_value
  publish_status = ground (arith, lookup-updated "status" committed row i h)

  publish_owner : at "publisherClaimToken" (some i) ≡ none
  unfolding published_request claim_attributes removed eval assigned
  publish_owner = ground (arith, lookup-updated "publisherClaimToken" committed row i h)

  publish_count : at "retryCount" (some i) ≡ at "retryCount" row
  unfolding published_request claim_attributes removed eval assigned
  publish_count = ground (
    arith,
    lookup-updated "retryCount" committed row i h,
    lookup-base "retryCount" (row_key e) row refl refl,
  )

  pub IsView-publish :
      (v : View)
      → IsView v row
      → IsView
          (record { status = OutboxStatus.published; failures = v.failures; owner = none })
          (some i)
  unfolding outbox_status_value
  IsView-publish v s = record {
    status_at = publish_status;
    counted = ap (λ a. or_else a (some (number 0))) publish_count ∙ s.counted;
    owner_at = publish_owner;
  }

-- The attributes after `fail`.
module _ (table error token : String) (e : OutboxEvent) (row : Option Item) (i : Item)
    (h : updated (failed_request table error token e) row ≡ some i) where
  abbrev failed : Request
  failed = failed_request table error token e

  fail_status : at "status" (some i) ≡ some (text "FAILED")
  unfolding failed_request claim_attributes removed eval assigned outbox_status_value
  fail_status = ground (arith, lookup-updated "status" failed row i h)

  fail_owner : at "publisherClaimToken" (some i) ≡ none
  unfolding failed_request claim_attributes removed eval assigned
  fail_owner = ground (arith, lookup-updated "publisherClaimToken" failed row i h)

  fail_assigned :
      at "retryCount" (some i)
      ≡ eval (item_of row) (plus (if_not_exists "retryCount" (number 0)) (value (number 1)))
  unfolding failed_request claim_attributes removed assigned
  fail_assigned = ground (arith, lookup-updated "retryCount" failed row i h)

  -- One more failure than before.
  fail_count :
      (n : ℕ) → failures_at row ≡ some (number n) → failures_at (some i) ≡ some (number (n + 1))
  fail_count n p =
      let (a, q) =
        updated-evaluates "retryCount"
          (plus (if_not_exists "retryCount" (number 0)) (value (number 1))) failed row i h
          (unfold failed_request assigned in refl) in
      let (m, before, after) = eval-counter "retryCount" (item_of row) 1 a q in
      ground (arith, fail_assigned)

  pub IsView-fail :
      (v : View)
      → IsView v row
      → IsView
          (record { status = OutboxStatus.failed; failures = v.failures + 1; owner = none })
          (some i)
  unfolding outbox_status_value
  IsView-fail v s = record {
    status_at = fail_status;
    counted = fail_count v.failures s.counted;
    owner_at = fail_owner;
  }
