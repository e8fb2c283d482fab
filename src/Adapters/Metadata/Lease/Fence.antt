-- ===== src/Adapters/Metadata/Lease/Fence.antt =====
-- `save` with a claim over a lawful DynamoDB: it commits under the fence or changes nothing.
use fsamp_processor.Prelude.{
  ℕ, String, ◌≡◌, refl, ◌∙◌, sym, ap, inl, inr, true, false, Option, some, Result, ok, raised,
  continue, arith,
}
use fsamp_processor.Domain.Errors.{Exn, client}
use fsamp_processor.Domain.Attributes.{Item}
use fsamp_processor.Domain.Events.{Instant}
use fsamp_processor.Domain.Models.{MetadataRecord, ProcessingClaim}
use fsamp_processor.Dynamo.{Client, Request}
use fsamp_processor.Dynamo.Semantics.{holds, item_of}
use fsamp_processor.Dynamo.Lawful.{IsLawful, Applied, Rows, SameRows, write_self}
use fsamp_processor.Adapters.Retry.{
  Attempts, last, again, aws_retry-ok, aws_retry-Attempts, outcome_cases,
}
use fsamp_processor.Adapters.Metadata.{
  save_request, save_once, save, fence, client_to_storage, metadata_key,
}
use fsamp_processor.Adapters.Metadata.Lease.{Released, Released-save}

-- The row before and after the save's request.
save-Applied :
    (table : String) (r : MetadataRecord) (c : ProcessingClaim) (now : Instant)
    (before after : Rows) (i : Item)
    → Applied (save_request table now r (some c)) i before after
    → Released c r (before table (metadata_key r.file_id)) (some i)
      × (after table (metadata_key r.file_id) ≡ some i)
unfolding save_request
save-Applied table r c now before after i a = (
  Released-save table now r c (before table (metadata_key r.file_id)) a.condition a.item,
  a.rows table (metadata_key r.file_id) ∙ write_self table (metadata_key r.file_id) i before,
)

-- The fence held on the row that the request was applied to.
Applied-fence :
    (table : String) (r : MetadataRecord) (c : ProcessingClaim) (now : Instant)
    (before after : Rows) (i : Item)
    → Applied (save_request table now r (some c)) i before after
    → holds (fence c) (item_of (before table (metadata_key r.file_id))) ≡ true
unfolding save_request
Applied-fence table r c now before after i a = a.condition

module _ (C : Client) (L : IsLawful C) (table : String) (r : MetadataRecord)
    (c : ProcessingClaim) where
  abbrev row : C.World → Option Item
  row w = L.rows w table (metadata_key r.file_id)

  -- What the call of one attempt answers.
  abbrev answer : C.World → Result Exn Item × C.World
  answer w = C.update_item (save_request table (C.now w).0 r (some c)) (C.now w).1

  abbrev finish : Result Exn Item × C.World → Result Exn (Unit {0}) × C.World
  finish out =
      continue (client_to_storage "Failed to save metadata record: " out) (λ _ v. (ok tt, v))

  finish-ok :
      (out : Result Exn Item × C.World) (w' : C.World)
      → finish out ≡ (ok tt, w')
      → (i : Item) × (out ≡ (ok i, w'))
  finish-ok (ok i, v) w' h = (i, ap (λ o. (ok i, o.1)) h)
  finish-ok (raised (client e), v) w' h = absurd (ground arith)
  finish-ok (raised _, v) w' h = absurd (ground arith)

  same_row : (w : C.World) → row (C.now w).1 ≡ row w
  same_row w = L.rows-now w table (metadata_key r.file_id)

  save_once-ok :
      (u w' : C.World)
      → save_once C table r (some c) u ≡ (ok tt, w')
      → Released c r (row u) (row w')
  save_once-ok u w' h =
      let (i, p) = finish-ok (answer u) w' (unfold save_once in h) in
      let req : Request = save_request table (C.now u).0 r (some c) in
      let v : C.World = (C.now u).1 in
      let (released, row_after) =
        save-Applied table r c (C.now u).0 (L.rows v) (L.rows (C.update_item req v).1) i
          (L.update_item-ok req v i (ap (λ o. o.0) p)) in
      let before : row u ≡ row v = sym (same_row u) in
      let after : row w' ≡ some i = ap (λ o. row o.1) (sym p) ∙ row_after in
      rw (before, after) released

  -- An outcome that changed nothing and raised.
  pub record IsRefused (w : C.World) (out : Result Exn (Unit {0}) × C.World) : Type 0 where
    pub error : Exn
    pub failed : out.0 ≡ raised error
    pub unchanged : SameRows (L.rows w) (L.rows out.1)

  finish-raised :
      (out : Result Exn Item × C.World) (e : Exn)
      → out.0 ≡ raised e
      → ((e' : Exn) × ((finish out).0 ≡ raised e')) × ((finish out).1 ≡ out.1)
  finish-raised (ok i, v) e h = absurd (ground arith)
  finish-raised (raised (client d), v) e h = ((_, refl), refl)
  finish-raised (raised d, v) e h = ((_, refl), refl)

  -- A row that does not carry the claim.
  abbrev IsStale : C.World → Type 0
  IsStale w = holds (fence c) (item_of (row w)) ≡ false

  request_refused :
      (v : C.World) (e : Exn)
      → IsStale v
      → (C.update_item (save_request table (C.now v).0 r (some c)) (C.now v).1).0 ≡ raised e
      → SameRows (L.rows v) (L.rows (answer v).1)
  request_refused v e stale h = elim (L.update_item-raised _ _ e h) [
    | inl same ↦ λ t k. same t k ∙ L.rows-now v t k
    | inr (i, applied) ↦ absurd (contradiction (Applied-fence table r c (C.now v).0 _ _ i applied))
  ]
    where
      contradiction : holds (fence c) (item_of (row (C.now v).1)) ≡ true → ⊥
      contradiction held =
          let f = ap (λ o. holds (fence c) (item_of o)) (same_row v) in cc (f, held, stale)

  save_once-stale : (v : C.World) → IsStale v → IsRefused v (save_once C table r (some c) v)
  save_once-stale v stale = elim (outcome_cases (answer v)) [
    | inl (i, u, p) ↦ absurd (accepted i (ap (λ o. o.0) p))
    | inr (e, u, p) ↦
        let ((e', q), s) = finish-raised (answer v) e (ap (λ o. o.0) p) in
        record {
          error = e';
          failed = unfold save_once in q;
          unchanged = λ t k.
              unfold save_once in
              ap (λ w. L.rows w t k) s ∙ request_refused v e stale (ap (λ o. o.0) p) t k;
        }
  ]
    where
      accepted : (i : Item) → (answer v).0 ≡ ok i → ⊥
      accepted i h =
          let held = Applied-fence table r c (C.now v).0 _ _ i (L.update_item-ok _ _ i h) in
          let f = ap (λ o. holds (fence c) (item_of o)) (same_row v) in cc (f, held, stale)

  Attempts-IsRefused :
      {out : Result Exn (Unit {0}) × C.World} {left : ℕ} {v : C.World} {k : ℕ}
      → Attempts (save_once C table r (some c)) out left v k
      → IsStale v
      → IsRefused v out
  Attempts-IsRefused (last left v p f) stale = rw p at (save_once-stale v stale)
  Attempts-IsRefused (again left v u e k p h run) stale =
      let one = rw p at (save_once-stale v stale) in
      let rest = Attempts-IsRefused run (
        ap (λ o. holds (fence c) (item_of o)) (one.unchanged table (metadata_key r.file_id))
        ∙ stale) in
      record {
        error = rest.error;
        failed = rest.failed;
        unchanged = λ t j. rest.unchanged t j ∙ one.unchanged t j;
      }

-- A fenced save that returns has committed: some attempt found the claim on the row, and the row
-- then has the record's status and processed event, the same claim count and no lease.
pub save-ok :
    (C : Client) (L : IsLawful C) (table : String) (r : MetadataRecord) (c : ProcessingClaim)
    (w w' : C.World)
    → save C table r (some c) w ≡ (ok tt, w')
    → (u : C.World) × Released c r
        (L.rows u table (metadata_key r.file_id))
        (L.rows w' table (metadata_key r.file_id))
save-ok C L table r c w w' h =
    let (u, p) = aws_retry-ok 3 (save_once C table r (some c)) w tt w' (unfold save in h) in
    (u, save_once-ok C L table r c u w' p)

-- A fenced save on a row that does not carry the claim raises, and changes no row of any table,
-- however often it is retried.
pub save-stale :
    (C : Client) (L : IsLawful C) (table : String) (r : MetadataRecord) (c : ProcessingClaim)
    (w : C.World)
    → holds (fence c) (item_of (L.rows w table (metadata_key r.file_id))) ≡ false
    → ((e : Exn) × ((save C table r (some c) w).0 ≡ raised e))
      × SameRows (L.rows w) (L.rows (save C table r (some c) w).1)
save-stale C L table r c w stale =
    let (k, le, run) = aws_retry-Attempts 3 (save_once C table r (some c)) w in
    let refused = Attempts-IsRefused C L table r c run stale in
    unfold save in ((refused.error, refused.failed), refused.unchanged)
