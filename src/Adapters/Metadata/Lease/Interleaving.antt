-- ===== src/Adapters/Metadata/Lease/Interleaving.antt =====
-- Any number of workers on one metadata row: each DynamoDB request is atomic, so a run is a sequence
-- of claims, fenced saves and writes of other services that leave the lease attributes alone.
use fsamp_processor.Prelude.{
  ℕ, ◌+◌, ◌≤◌, ◌<◌, String, ◌≡◌, refl, ◌∙◌, ap, ◌⊎◌, inl, inr, true, false, Option, none, some,
  arith, or_else, Bool-cases,
}
use fsamp_processor.Domain.Attributes.{Attr, number, Item}
use fsamp_processor.Domain.Events.{Instant}
use fsamp_processor.Domain.Models.{MetadataRecord, ProcessingClaim}
use fsamp_processor.Dynamo.Semantics.{holds, updated, item_of}
use fsamp_processor.Adapters.Metadata.{claim_request, claim_condition, save_request, fence}
use fsamp_processor.Adapters.Metadata.Lease.{
  at, version_at, Acquired, Acquired-claim, Released-save, fence_held,
}

-- A write by another service.
pub record LeavesLease (before after : Option Item) : Type 0 where
  pub token : at "processorClaimToken" after ≡ at "processorClaimToken" before
  pub version : at "processorClaimVersion" after ≡ at "processorClaimVersion" before
  pub event : at "processingEventId" after ≡ at "processingEventId" before

pub data Step : Option Item → Option Item → Type 0 where
  claim :
      (table : String) (now : Instant) (token : String) (r : MetadataRecord) (event_id : String)
      (lease : ℕ) (row : Option Item) (i : Item)
      → holds (claim_condition event_id now) (item_of row) ≡ true
      → updated (claim_request table now token r event_id lease) row ≡ some i
      → Step row (some i)
  commit :
      (table : String) (now : Instant) (r : MetadataRecord) (c : ProcessingClaim)
      (row : Option Item) (i : Item)
      → holds (fence c) (item_of row) ≡ true
      → updated (save_request table now r (some c)) row ≡ some i
      → Step row (some i)
  elsewhere : (row after : Option Item) → LeavesLease row after → Step row after

pub data Reach (s : Option Item) : Option Item → Type 0 where
  here : Reach s s
  next : {t u : Option Item} → Reach s t → Step t u → Reach s u

-- The row has moved past the claim: a later one was made, or the lease of this one is released.
pub record IsPast (c : ProcessingClaim) (row : Option Item) : Type 0 where
  pub count : ℕ
  pub counted : version_at row ≡ some (number count)
  pub moved : (c.version < count) ⊎ ((count ≡ c.version) × (at "processorClaimToken" row ≡ none))

same_count : {o : Option Attr} {m n : ℕ} → o ≡ some (number m) → o ≡ some (number n) → m ≡ n
same_count p q = ground arith

version_at-number :
    (row : Option Item) (n : ℕ)
    → at "processorClaimVersion" row ≡ some (number n)
    → version_at row ≡ some (number n)
version_at-number row n p = ap (λ o. or_else o (some (number 0))) p

module _ (c : ProcessingClaim) where
  Acquired-IsPast :
      {event_id token : String} {now : Instant} {lease : ℕ} {before after : Option Item}
      → Acquired event_id now token lease before after
      → (m : ℕ) → version_at before ≡ some (number m)
      → c.version ≤ m
      → IsPast c after
  Acquired-IsPast {after = after} a m p h =
      let e = same_count a.counted p in
      record {
        count = a.prior + 1;
        counted = version_at-number after (a.prior + 1) a.version;
        moved = inl (omega arith);
      }

  Step-IsPast : {s t : Option Item} → Step s t → IsPast c s → IsPast c t
  Step-IsPast (claim table now token r event_id lease row i h u) p =
      Acquired-IsPast (Acquired-claim table now token r event_id lease row h u) p.count p.counted
        (omega arith)
  Step-IsPast (commit table now r d row i h u) p =
      let b = Released-save table now r d row h u in
      let e = same_count p.counted (version_at-number row d.version b.version_held) in
      record {
        count = d.version;
        counted = version_at-number (some i) d.version b.version_kept;
        moved = elim p.moved [
          | inl l ↦ inl (omega arith)
          | inr (q, free) ↦ inr (omega arith, b.token_gone)
        ];
      }
  Step-IsPast (elsewhere row after l) p = record {
    count = p.count;
    counted = ap (λ o. or_else o (some (number 0))) l.version ∙ p.counted;
    moved = elim p.moved [ inl less ↦ inl less | inr (q, free) ↦ inr (q, l.token ∙ free) ];
  }

  Reach-IsPast : {s t : Option Item} → IsPast c s → Reach s t → IsPast c t
  Reach-IsPast p here = p
  Reach-IsPast p (next run st) = Step-IsPast st (Reach-IsPast p run)

  -- The fence of a claim that the row has moved past fails.
  IsPast-fence : {row : Option Item} → IsPast c row → holds (fence c) (item_of row) ≡ false
  IsPast-fence {row} p = elim (Bool-cases (holds (fence c) (item_of row))) [
    | inl h ↦
        let (token, version, event) = fence_held c row h in
        let e = same_count p.counted (version_at-number row c.version version) in
        absurd (elim p.moved [ inl l ↦ omega arith | inr (q, free) ↦ ground arith ])
    | inr h ↦ h
  ]

  -- A commit moves the row past its own claim.
  commit-IsPast :
      (row : Option Item) {i : Item} (table : String) (now : Instant) (r : MetadataRecord)
      → holds (fence c) (item_of row) ≡ true
      → updated (save_request table now r (some c)) row ≡ some i
      → IsPast c (some i)
  commit-IsPast row {i} table now r h u =
      let b = Released-save table now r c row h u in
      record {
        count = c.version;
        counted = version_at-number (some i) c.version b.version_kept;
        moved = inr (refl, b.token_gone);
      }

-- A commit fenced by a claim succeeds at most once: whatever requests of any workers follow it, the
-- condition of a further commit by the same claim fails.
pub commit_once :
    (row : Option Item) {t : Option Item} {i : Item} (table : String) (now : Instant)
    (r : MetadataRecord) (c : ProcessingClaim)
    → holds (fence c) (item_of row) ≡ true
    → updated (save_request table now r (some c)) row ≡ some i
    → Reach (some i) t
    → holds (fence c) (item_of t) ≡ false
commit_once row table now r c h u run =
    IsPast-fence c (Reach-IsPast c (commit-IsPast c row table now r h u) run)

-- A claim that is taken over is fenced off for good: if a worker's lease is on the row when another
-- claim succeeds, then whatever requests follow, the condition of the worker's commit fails.
pub takeover_fences :
    (row : Option Item) {t : Option Item} {i : Item} (c : ProcessingClaim) (table : String)
    (now : Instant) (token : String) (r : MetadataRecord) (event_id : String) (lease : ℕ)
    → holds (fence c) (item_of row) ≡ true
    → holds (claim_condition event_id now) (item_of row) ≡ true
    → updated (claim_request table now token r event_id lease) row ≡ some i
    → Reach (some i) t
    → holds (fence c) (item_of t) ≡ false
takeover_fences row c table now token r event_id lease held free u run =
    let (_, version, _) = fence_held c row held in
    let a = Acquired-claim table now token r event_id lease row free u in
    IsPast-fence c (
      Reach-IsPast c
        (Acquired-IsPast c a c.version (version_at-number row c.version version) (omega arith)) run)
