-- ===== src/Publisher/Refinement.antt =====
-- The requests of the publishers as steps of an outbox row, and what a claim does to it.
pub mod Marks
pub mod Moves
pub mod Progress
use fsamp_processor.Prelude.{
  ℕ, ◌+◌, ◌≤◌, ◌<◌, String, ◌==◌, ◌≡◌, ◌≢◌, refl, ◌∙◌, ap, sym, ◌⊎◌, inl, inr, Bool, true, false,
  Option, none, some, [], ◌∷◌, lookup, arith, or_else, if◌then◌else◌, eq_iff, eq_refl,
}
use fsamp_processor.Domain.Attributes.{Attr, text, number, Item}
use fsamp_processor.Domain.Events.{Instant}
use fsamp_processor.Domain.Models.{OutboxEvent, OutboxStatus}
use fsamp_processor.Domain.Models.Outbox.{outbox_status_value}
use fsamp_processor.Dynamo.{Operand, Key, Request, value, plus, if_not_exists}
use fsamp_processor.Dynamo.Semantics.{
  holds, eval, updated, removed, assigned, item_of, base, lookup-updated, updated-evaluates,
  eval-counter, holds-both, holds-equals_text,
}
use fsamp_processor.Publisher.Rows.{
  row_key, claim_condition, claim_request, owned, claim_attributes, published_request,
  failed_request,
}
use fsamp_processor.Publisher.Machine.{View, Move, IsSound}

abbrev pub at : String → Option Item → Option Attr
at k row = lookup k (item_of row)

-- A row without a count has not failed.
abbrev pub failures_at : Option Item → Option Attr
failures_at row = or_else (at "retryCount" row) (some (number 0))

abbrev pub owner_attr : Option String → Option Attr
owner_attr none = none
owner_attr (some t) = some (text t)

-- What the view says stands in the row.
pub record IsView (v : View) (row : Option Item) : Type 0 where
  pub status_at : at "status" row ≡ some (text (outbox_status_value v.status))
  pub counted : failures_at row ≡ some (number v.failures)
  pub owner_at : at "publisherClaimToken" row ≡ owner_attr v.owner

-- One request of a publisher that DynamoDB applied.
pub data Step (table : String) (limit : ℕ) (e : OutboxEvent)
    : Option Item → Option Item → Type 0 where
  claim :
      (now : Instant) (token : String) (ttl : ℕ) (row : Option Item) (i : Item)
      → holds (claim_condition now limit) (item_of row) ≡ true
      → updated (claim_request table now token ttl limit e) row ≡ some i
      → Step table limit e row (some i)
  publish :
      (now : Instant) (token : String) (retention : ℕ) (row : Option Item) (i : Item)
      → holds (owned token) (item_of row) ≡ true
      → updated (published_request table now token retention e) row ≡ some i
      → Step table limit e row (some i)
  fail :
      (error token : String) (row : Option Item) (i : Item)
      → holds (owned token) (item_of row) ≡ true
      → updated (failed_request table error token e) row ≡ some i
      → Step table limit e row (some i)

pub published-IsView :
    (v : View) (row : Option Item)
    → IsView v row
    → v.status ≡ OutboxStatus.published
    → at "status" row ≡ some (text "PUBLISHED")
unfolding outbox_status_value
published-IsView v row h p = h.status_at ∙ ap (λ s. some (text (outbox_status_value s))) p

pub publishing_status :
    (s : OutboxStatus) → outbox_status_value s ≡ "PUBLISHING" → s ≡ OutboxStatus.publishing
unfolding outbox_status_value
publishing_status OutboxStatus.pending h =
    absurd (ground (arith, (eq_iff "PENDING" "PUBLISHING").1 h))
publishing_status OutboxStatus.publishing h = refl
publishing_status OutboxStatus.published h =
    absurd (ground (arith, (eq_iff "PUBLISHED" "PUBLISHING").1 h))
publishing_status OutboxStatus.failed h =
    absurd (ground (arith, (eq_iff "FAILED" "PUBLISHING").1 h))

pub claim-open :
    (now : Instant) (limit : ℕ) (row : Option Item)
    → holds (claim_condition now limit) (item_of row) ≡ true
    → at "status" row ≢ some (text "PUBLISHED")
unfolding holds claim_condition
claim-open now limit row h p = ground arith

pub claim-below :
    (now : Instant) (limit n : ℕ) (row : Option Item)
    → 1 ≤ limit
    → failures_at row ≡ some (number n)
    → holds (claim_condition now limit) (item_of row) ≡ true
    → n < limit
unfolding holds claim_condition
claim-below now limit n row l p h = ground arith

pub lookup-base :
    (k : String) (key : Key) (row : Option Item)
    → ("PK" == k) ≡ false
    → ("SK" == k) ≡ false
    → lookup k (base key row) ≡ at k row
unfolding lookup
lookup-base k key none p s = ground arith
lookup-base k key (some i) p s = refl

-- The attributes after a claim.
module _ (table : String) (now : Instant) (token : String) (ttl limit : ℕ) (e : OutboxEvent)
    (row : Option Item) (i : Item)
    (h : updated (claim_request table now token ttl limit e) row ≡ some i) where
  abbrev claimed : Request
  claimed = claim_request table now token ttl limit e

  pub claim_status : at "status" (some i) ≡ some (text "PUBLISHING")
  unfolding claim_request removed eval assigned outbox_status_value
  claim_status = ground (arith, lookup-updated "status" claimed row i h)

  pub claim_owner : at "publisherClaimToken" (some i) ≡ some (text token)
  unfolding claim_request removed eval assigned
  claim_owner = ground (arith, lookup-updated "publisherClaimToken" claimed row i h)

  claim_count : at "retryCount" (some i) ≡ at "retryCount" row
  unfolding claim_request removed eval assigned
  claim_count = ground (
    arith,
    lookup-updated "retryCount" claimed row i h,
    lookup-base "retryCount" (row_key e) row refl refl,
  )

  pub IsView-claim :
      (v : View)
      → IsView v row
      → IsView
          (record { status = OutboxStatus.publishing; failures = v.failures; owner = some token })
          (some i)
  unfolding outbox_status_value
  IsView-claim v s = record {
    status_at = claim_status;
    counted = ap (λ a. or_else a (some (number 0))) claim_count ∙ s.counted;
    owner_at = claim_owner;
  }
