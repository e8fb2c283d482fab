-- ===== src/Adapters/Metadata/Lease/Claim.antt =====
-- `claim_processing` over a lawful DynamoDB: a claim that is returned was acquired.
use fsamp_processor.Prelude.{
  ℕ, ◌+◌, String, ◌≡◌, ◌∙◌, sym, ap, Option, some, lookup, Result, ok, raised, arith,
}
use fsamp_processor.Domain.Errors.{Exn, client}
use fsamp_processor.Domain.Attributes.{Attr, number, Item, number_of}
use fsamp_processor.Domain.Events.{Instant}
use fsamp_processor.Domain.Models.{MetadataRecord, ProcessingClaim}
use fsamp_processor.Dynamo.{Client, Request}
use fsamp_processor.Dynamo.Lawful.{IsLawful, Applied, Rows, write_self}
use fsamp_processor.Adapters.Retry.{aws_retry-ok}
use fsamp_processor.Adapters.Metadata.{
  claim_reply, claim_request, claim_once, claim_processing, read_claim, refused_claim, epoch,
  metadata_key,
}
use fsamp_processor.Adapters.Metadata.Lease.{at, Acquired, Acquired-claim}

module _ (C : Client) (table : String) where
  read_claim-some :
      (event_id token : String) (i : Item) (v w' : C.World) (c : ProcessingClaim)
      → read_claim C table event_id token i v ≡ (ok (some c), w')
      → (v ≡ w')
        × (c.event_id ≡ event_id)
        × (c.token ≡ token)
        × (number_of (lookup "processorClaimVersion" i) ≡ some c.version)
        × (number_of (lookup "processorClaimExpiresAt" i) ≡ some c.expires_at_epoch)
  unfolding read_claim
  read_claim-some event_id token i v w' c h = ground arith

  claim_reply-some :
      (event_id token : String) (out : Result Exn Item × C.World) (w' : C.World)
      (c : ProcessingClaim)
      → claim_reply C table event_id token out ≡ (ok (some c), w')
      → (i : Item) × (out ≡ (ok i, w'))
        × (c.event_id ≡ event_id)
        × (c.token ≡ token)
        × (number_of (lookup "processorClaimVersion" i) ≡ some c.version)
        × (number_of (lookup "processorClaimExpiresAt" i) ≡ some c.expires_at_epoch)
  claim_reply-some event_id token (ok i, v) w' c h =
      let (e, a, b, n, x) = read_claim-some event_id token i v w' c h in
      (i, ap (λ u. (ok i, u)) e, a, b, n, x)
  claim_reply-some event_id token (raised (client e), v) w' c h =
      absurd (unfold refused_claim in ground arith)
  claim_reply-some event_id token (raised _, v) w' c h =
      absurd (unfold refused_claim in ground arith)

-- The lease that `c` stands for was acquired for the event: from a free row of the metadata table
-- the row became one that carries the claim until `now + lease`.
pub record IsClaim (event_id : String) (now : Instant) (lease : ℕ) (c : ProcessingClaim)
    (before after : Option Item) : Type 0 where
  pub acquired : Acquired event_id now c.token lease before after
  pub event : c.event_id ≡ event_id
  pub version : at "processorClaimVersion" after ≡ some (number c.version)
  pub expiry : c.expires_at_epoch ≡ epoch now + lease

number_of-inv : (o : Option Attr) (m n : ℕ) → o ≡ some (number m) → number_of o ≡ some n → m ≡ n
number_of-inv o m n p q = ground arith

-- The row before and after the claim's request.
claim-Applied :
    (table : String) (r : MetadataRecord) (event_id : String) (lease : ℕ) (now : Instant)
    (token : String) (before after : Rows) (i : Item)
    → Applied (claim_request table now token r event_id lease) i before after
    → Acquired event_id now token lease (before table (metadata_key r.file_id)) (some i)
      × (after table (metadata_key r.file_id) ≡ some i)
unfolding claim_request
claim-Applied table r event_id lease now token before after i a = (
  Acquired-claim table now token r event_id lease (before table (metadata_key r.file_id))
      a.condition a.item,
  a.rows table (metadata_key r.file_id) ∙ write_self table (metadata_key r.file_id) i before,
)

module _ (C : Client) (L : IsLawful C) (table : String) (r : MetadataRecord) (event_id : String)
    (lease : ℕ) where
  abbrev row : C.World → Option Item
  row w = L.rows w table (metadata_key r.file_id)

  claim_once-some :
      (u w' : C.World) (c : ProcessingClaim)
      → claim_once C table r event_id lease u ≡ (ok (some c), w')
      → IsClaim event_id (C.now u).0 lease c (row u) (row w')
  claim_once-some u w' c h =
      let now : Instant = (C.now u).0 in
      let w1 : C.World = (C.now u).1 in
      let token : String = (C.uuid4 w1).0 in
      let w2 : C.World = (C.uuid4 w1).1 in
      let req : Request = claim_request table now token r event_id lease in
      let (i, p, event, same, version, expiry) =
        claim_reply-some C table event_id token (C.update_item req w2) w' c
          (unfold claim_once in h) in
      let (acquired, row_after) =
        claim-Applied table r event_id lease now token (L.rows w2) (L.rows (C.update_item req w2).1)
          i (L.update_item-ok req w2 i (ap (λ o. o.0) p)) in
      let before : row u ≡ row w2 = sym (
        L.rows-uuid4 w1 table (metadata_key r.file_id)
        ∙ L.rows-now u table (metadata_key r.file_id)) in
      let after : row w' ≡ some i = ap (λ o. row o.1) (sym p) ∙ row_after in
      let v = number_of-inv _ (acquired.prior + 1) c.version acquired.version version in
      record {
        acquired = rw (same, before, after) acquired;
        event = event;
        version = rw after (acquired.version ∙ ap (λ n. some (number n)) v);
        expiry =
            sym (number_of-inv _ (epoch now + lease) c.expires_at_epoch acquired.expiry expiry);
      }

-- A claim that `claim_processing` returns was acquired by one atomic request: the event was not the
-- last one processed, the row had no lease or an expired one, its claim count went up by one, and
-- now it carries the claim's token, version, event and expiry, and the status PROCESSING.
pub claim_processing-some :
    (C : Client) (L : IsLawful C) (table : String) (r : MetadataRecord) (event_id : String)
    (lease : ℕ) (w w' : C.World) (c : ProcessingClaim)
    → claim_processing C table r event_id lease w ≡ (ok (some c), w')
    → (u : C.World) × IsClaim event_id
        (C.now u).0
        lease
        c
        (L.rows u table (metadata_key r.file_id))
        (L.rows w' table (metadata_key r.file_id))
claim_processing-some C L table r event_id lease w w' c h =
    let (u, p) =
      aws_retry-ok 3 (claim_once C table r event_id lease) w (some c) w'
        (unfold claim_processing in h) in
    (u, claim_once-some C L table r event_id lease u w' c p)
