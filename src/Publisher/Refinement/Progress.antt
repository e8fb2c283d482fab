-- ===== src/Publisher/Refinement/Progress.antt =====
-- The requests that take a row that waits to the end.
use fsamp_processor.Prelude.{ℕ, ◌<◌, String, ◌≡◌, refl, true, Option, some, arith, eq_refl}
use fsamp_processor.Domain.Attributes.{text, number, Item}
use fsamp_processor.Domain.Events.{Instant}
use fsamp_processor.Domain.Models.{OutboxEvent}
use fsamp_processor.Domain.Models.Outbox.{outbox_status_value}
use fsamp_processor.Dynamo.Semantics.{holds, updated, apply_sets, apply_removes, eval, item_of}
use fsamp_processor.Adapters.Metadata.{epoch}
use fsamp_processor.Publisher.Rows.{
  claim_condition, claim_request, owned, claim_attributes, published_request,
}
use fsamp_processor.Publisher.Refinement.{at, failures_at, Step, claim_status, claim_owner}
use fsamp_processor.Publisher.Refinement.Marks.{publish_status}
use fsamp_processor.Publisher.Refinement.Moves.{Steps}

-- The event waits, or its lease has run out.
pub data IsClaimable (now : Instant) (row : Option Item) : Type 0 where
  waiting : at "status" row ≡ some (text "PENDING") → IsClaimable now row
  retry : at "status" row ≡ some (text "FAILED") → IsClaimable now row
  expired :
      (n : ℕ)
      → at "status" row ≡ some (text "PUBLISHING")
      → at "publisherClaimExpiresAt" row ≡ some (number n)
      → n < epoch now
      → IsClaimable now row

claimable-holds :
    (now : Instant) (limit n : ℕ) (row : Option Item)
    → IsClaimable now row
    → failures_at row ≡ some (number n)
    → n < limit
    → holds (claim_condition now limit) (item_of row) ≡ true
unfolding holds claim_condition
claimable-holds now limit n row (waiting s) p l = ground arith
claimable-holds now limit n row (retry s) p l = ground arith
claimable-holds now limit n row (expired m s q h) p l = ground arith

owned-holds :
    (token : String) (row : Option Item)
    → at "status" row ≡ some (text "PUBLISHING")
    → at "publisherClaimToken" row ≡ some (text token)
    → holds (owned token) (item_of row) ≡ true
unfolding holds owned outbox_status_value
owned-holds token row s t = ground (arith, eq_refl token)

module _ (table : String) (limit : ℕ) (e : OutboxEvent) where
  -- A claim of the row can be applied, and it leaves a row that the token owns.
  claimed_row :
      (now : Instant) (token : String) (ttl : ℕ) (row : Option Item)
      → (i : Item) × (updated (claim_request table now token ttl limit e) row ≡ some i)
  unfolding updated apply_sets apply_removes eval claim_request
  claimed_row now token ttl row = (_, refl)

  committed_row :
      (now : Instant) (token : String) (retention : ℕ) (row : Option Item)
      → (i : Item) × (updated (published_request table now token retention e) row ≡ some i)
  unfolding updated apply_sets apply_removes eval published_request claim_attributes
  committed_row now token retention row = (_, refl)

  -- A row whose event waits, has failed, or is under a lease that has run out, with fewer failures
  -- than the limit, becomes PUBLISHED by a claim and the mark of the claimant.
  pub claimable-Steps :
      (now later : Instant) (token : String) (ttl retention n : ℕ) (row : Option Item)
      → IsClaimable now row
      → failures_at row ≡ some (number n)
      → n < limit
      → (i : Item) × Steps table limit e row (some i)
        × (at "status" (some i) ≡ some (text "PUBLISHED"))
  claimable-Steps now later token ttl retention n row c p l =
      let (i, h) = claimed_row now token ttl row in
      let (j, k) = committed_row later token retention (some i) in
      let held =
        owned-holds token (some i) (claim_status table now token ttl limit e row i h)
          (claim_owner table now token ttl limit e row i h) in
      (
        j,
        Steps.next row (some i) (some j)
            (Step.claim now token ttl row i (claimable-holds now limit n row c p l) h)
            (Steps.next (some i) (some j) (some j)
              (Step.publish later token retention (some i) j held k) (Steps.done (some j))),
        publish_status table later token retention e (some i) j k,
      )
