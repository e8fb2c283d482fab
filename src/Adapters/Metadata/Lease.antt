-- ===== src/Adapters/Metadata/Lease.antt =====
-- What a claim and a fenced save do to the lease attributes of the metadata row.
pub mod Claim
pub mod Fence
pub mod Interleaving
use fsamp_processor.Prelude.{
  ℕ, ◌+◌, ◌≤◌, String, ◌==◌, ◌≡◌, refl, ◌∙◌, ◌≢◌, ◌⊎◌, Bool, true, false, not, ◌&&◌, ◌||◌, Option,
  none, some, List, [], ◌∷◌, ◌++◌, lookup, or_else, if◌then◌else◌, arith, eq_refl, eq_iff,
  lookup-cons, lookup-nil,
}
use fsamp_processor.Domain.Attributes.{Attr, text, number, Item, stored_text}
use fsamp_processor.Domain.Events.{Instant}
use fsamp_processor.Domain.Models.{MetadataRecord, status_value, ProcessingStatus, ProcessingClaim}
use fsamp_processor.Dynamo.{Operand, value, plus, if_not_exists, Key, Request}
use fsamp_processor.Dynamo.Semantics.{
  holds, eval, updated, removed, item_of, base, lookup-updated, after_sets, updated-evaluates,
  eval-counter, holds-both, holds-equals_text, holds-equals_number,
}
use fsamp_processor.Adapters.Metadata.{
  claim_request, claim_condition, save_request, fence, epoch, metadata_key,
}
use fsamp_processor.Adapters.Metadata.Items.{
  claim_token, claim_version, claim_expiry, claim_event, claim_status, claim_last, save_token,
  save_version, save_status, save_last,
}

abbrev pub at : String → Option Item → Option Attr
at k row = lookup k (item_of row)

-- A row that has never been claimed counts from 0.
abbrev pub version_at : Option Item → Option Attr
version_at row = or_else (at "processorClaimVersion" row) (some (number 0))

lookup-base :
    (k : String) (key : Key) (row : Option Item)
    → ("PK" == k) ≡ false
    → ("SK" == k) ≡ false
    → lookup k (base key row) ≡ at k row
unfolding lookup
lookup-base k key none p s = ground arith
lookup-base k key (some i) p s = refl

-- The row after a claim whose condition held.
pub record Acquired (event_id : String) (now : Instant) (token : String) (lease : ℕ)
    (before after : Option Item) : Type 0 where
  -- the event was not the last one that the row named as processed, and no lease was running
  pub fresh : at "lastProcessedEventId" before ≢ some (text event_id)
  pub free :
      (at "processorClaimToken" before ≡ none)
      ⊎ ((n : ℕ) × (at "processorClaimExpiresAt" before ≡ some (number n)) × (n ≤ epoch now))
  pub prior : ℕ
  pub counted : version_at before ≡ some (number prior)
  pub version : at "processorClaimVersion" after ≡ some (number (prior + 1))
  pub token_set : at "processorClaimToken" after ≡ some (text token)
  pub expiry : at "processorClaimExpiresAt" after ≡ some (number (epoch now + lease))
  pub event : at "processingEventId" after ≡ some (text event_id)
  pub status : at "status" after ≡ some (text (status_value ProcessingStatus.processing))
  pub last : at "lastProcessedEventId" after ≡ at "lastProcessedEventId" before

module _ (table : String) (now : Instant) (token : String) (r : MetadataRecord) (event_id : String)
    (lease : ℕ) (row : Option Item) where
  abbrev request : Request
  request = claim_request table now token r event_id lease

  claim_fresh :
      holds (claim_condition event_id now) (item_of row) ≡ true
      → at "lastProcessedEventId" row ≢ some (text event_id)
  unfolding holds claim_condition
  claim_fresh h = ground (arith, eq_refl event_id)

  claim_free :
      holds (claim_condition event_id now) (item_of row) ≡ true
      → (at "processorClaimToken" row ≡ none)
        ⊎ ((n : ℕ) × (at "processorClaimExpiresAt" row ≡ some (number n)) × (n ≤ epoch now))
  unfolding holds claim_condition
  claim_free h = ground arith

  module _ (i : Item) (h : updated request row ≡ some i) where
    set_token : at "processorClaimToken" (some i) ≡ some (text token)
    unfolding claim_request removed eval
    set_token = ground (
      arith,
      lookup-updated "processorClaimToken" request row i h,
      claim_token now token r event_id lease,
    )

    set_expiry : at "processorClaimExpiresAt" (some i) ≡ some (number (epoch now + lease))
    unfolding claim_request removed eval
    set_expiry = ground (
      arith,
      lookup-updated "processorClaimExpiresAt" request row i h,
      claim_expiry now token r event_id lease,
    )

    set_event : at "processingEventId" (some i) ≡ some (text event_id)
    unfolding claim_request removed eval
    set_event = ground (
      arith,
      lookup-updated "processingEventId" request row i h,
      claim_event now token r event_id lease,
    )

    set_status : at "status" (some i) ≡ some (text (status_value ProcessingStatus.processing))
    unfolding claim_request removed eval
    set_status =
        ground
          (arith, lookup-updated "status" request row i h, claim_status now token r event_id lease)

    kept_last : at "lastProcessedEventId" (some i) ≡ at "lastProcessedEventId" row
    unfolding claim_request removed eval
    kept_last = ground (
      arith,
      lookup-updated "lastProcessedEventId" request row i h,
      claim_last now token r event_id lease,
      lookup-base "lastProcessedEventId" (metadata_key r.file_id) row refl refl,
    )

    -- The addition is refused unless the version is a number.
    set_version :
        at "processorClaimVersion" (some i)
        ≡ eval
            (item_of row)
            (plus (if_not_exists "processorClaimVersion" (number 0)) (value (number 1)))
    unfolding claim_request removed
    set_version = ground (
      arith,
      lookup-updated "processorClaimVersion" request row i h,
      claim_version now token r event_id lease,
    )

  -- The count that the addition found.
  count_before :
      {i : Item}
      → updated request row ≡ some i
      → (m : ℕ) × (version_at row ≡ some (number m))
        × (at "processorClaimVersion" (some i) ≡ some (number (m + 1)))
  count_before {i} h =
      let (a, p) =
        updated-evaluates "processorClaimVersion"
          (plus (if_not_exists "processorClaimVersion" (number 0)) (value (number 1))) request row i
          h (unfold claim_request in claim_version now token r event_id lease) in
      let (m, before, q) = eval-counter "processorClaimVersion" (item_of row) 1 a p in
      (m, before, cc (set_version i h, p, q))

  -- A claim whose condition held acquired the lease.
  pub Acquired-claim :
      {i : Item}
      → holds (claim_condition event_id now) (item_of row) ≡ true
      → updated request row ≡ some i
      → Acquired event_id now token lease row (some i)
  Acquired-claim {i} held h =
      let (m, before, after) = count_before h in
      record {
        fresh = claim_fresh held;
        free = claim_free held;
        prior = m;
        counted = before;
        version = after;
        token_set = set_token i h;
        expiry = set_expiry i h;
        event = set_event i h;
        status = set_status i h;
        last = kept_last i h;
      }

-- The row after a fenced save whose condition held.
pub record Released (c : ProcessingClaim) (r : MetadataRecord) (before after : Option Item)
    : Type 0 where
  -- the row carried the claim
  pub token_held : at "processorClaimToken" before ≡ some (text c.token)
  pub version_held : at "processorClaimVersion" before ≡ some (number c.version)
  pub event_held : at "processingEventId" before ≡ some (text c.event_id)
  -- the lease is gone, and its count stays
  pub token_gone : at "processorClaimToken" after ≡ none
  pub expiry_gone : at "processorClaimExpiresAt" after ≡ none
  pub event_gone : at "processingEventId" after ≡ none
  pub version_kept : at "processorClaimVersion" after ≡ some (number c.version)
  pub status : at "status" after ≡ some (text (status_value r.status))
  -- a record that names no processed event keeps the one of the row
  pub last :
      at "lastProcessedEventId" after
      ≡ or_else (stored_text r.last_processed_event_id) (at "lastProcessedEventId" before)

-- What the fence found on the row.
pub fence_held :
    (c : ProcessingClaim) (row : Option Item)
    → holds (fence c) (item_of row) ≡ true
    → (at "processorClaimToken" row ≡ some (text c.token))
      × (at "processorClaimVersion" row ≡ some (number c.version))
      × (at "processingEventId" row ≡ some (text c.event_id))
unfolding fence
fence_held c row h =
    let (tv, e) = holds-both _ _ (item_of row) h in
    let (t, v) = holds-both _ _ (item_of row) tv in
    (holds-equals_text _ _ _ t, holds-equals_number _ _ _ v, holds-equals_text _ _ _ e)

module _ (table : String) (now : Instant) (r : MetadataRecord) (c : ProcessingClaim)
    (row : Option Item) where
  abbrev fenced : Request
  fenced = save_request table now r (some c)

  module _ (i : Item) (h : updated fenced row ≡ some i) where
    gone_token : at "processorClaimToken" (some i) ≡ none
    unfolding save_request removed
    gone_token = ground (arith, lookup-updated "processorClaimToken" fenced row i h)

    gone_expiry : at "processorClaimExpiresAt" (some i) ≡ none
    unfolding save_request removed
    gone_expiry = ground (arith, lookup-updated "processorClaimExpiresAt" fenced row i h)

    gone_event : at "processingEventId" (some i) ≡ none
    unfolding save_request removed
    gone_event = ground (arith, lookup-updated "processingEventId" fenced row i h)

    kept_version : at "processorClaimVersion" (some i) ≡ at "processorClaimVersion" row
    unfolding save_request removed eval
    kept_version = ground (
      arith,
      lookup-updated "processorClaimVersion" fenced row i h,
      save_version now r,
      lookup-base "processorClaimVersion" (metadata_key r.file_id) row refl refl,
    )

    saved_status : at "status" (some i) ≡ some (text (status_value r.status))
    unfolding save_request removed eval
    saved_status = ground (arith, lookup-updated "status" fenced row i h, save_status now r)

    saved_last :
        at "lastProcessedEventId" (some i)
        ≡ or_else (stored_text r.last_processed_event_id) (at "lastProcessedEventId" row)
    unfolding save_request removed eval
    saved_last = ground (
      arith,
      lookup-updated "lastProcessedEventId" fenced row i h,
      save_last now r,
      lookup-base "lastProcessedEventId" (metadata_key r.file_id) row refl refl,
    )

  -- A fenced save whose condition held released the lease.
  pub Released-save :
      {i : Item}
      → holds (fence c) (item_of row) ≡ true
      → updated fenced row ≡ some i
      → Released c r row (some i)
  Released-save {i} held h =
      let (token, version, event) = fence_held c row held in
      record {
        token_held = token;
        version_held = version;
        event_held = event;
        token_gone = gone_token i h;
        expiry_gone = gone_expiry i h;
        event_gone = gone_event i h;
        version_kept = kept_version i h ∙ version;
        status = saved_status i h;
        last = saved_last i h;
      }
